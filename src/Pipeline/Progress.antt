-- ===== src/Pipeline/Progress.antt =====
-- internal/pipeline/progress.go: events go to a bounded channel, and the oldest is dropped when it is
-- full. The model runs one sender and no receiver at a time.
pub mod Newest
use Prim.Native.String.{String}
use choix.Base.{
  ℕ, zero, suc, ◌+◌, ◌-◌, ◌≤◌, ◌<◌, Option, some, none, List, [], ◌∷◌, ◌++◌, length, if◌then◌else◌,
  Bool, true, false, ltb, ◌≡◌, refl, arith, length-append, Bool-cases, inl, inr,
}

pub record Progress : Type 0 where
  pub stage : String
  pub done : ℕ
  pub total : ℕ
  pub failed : ℕ
  pub phase : String

abbrev pub progress_buffer_size : ℕ
progress_buffer_size = 16

-- A Go channel with its capacity and what waits in it, the oldest first.
pub record Channel : Type 0 where
  pub capacity : ℕ
  pub buffer : List Progress

-- `<-r.ch` if something waits.
abbrev pub drop_oldest : List Progress → List Progress
drop_oldest [] = []
drop_oldest (x ∷ xs) = xs

-- The loop of Update, at most `fuel` times; `none` when that is not enough.
unfoldable pub send : ℕ → Progress → Channel → Option Channel
send zero p ch = none
send (suc fuel) p ch =
    let again = send fuel p (record ch { buffer = drop_oldest ch.buffer }) in
    if ltb (length ch.buffer) ch.capacity
    then some (record ch { buffer = ch.buffer ++ p ∷ [] })
    else again

-- A nil reporter or channel (`none`) ignores the event.
unfoldable pub update : ℕ → Progress → Option Channel → Option (Option Channel)
unfolding send
update fuel p none = some none
update fuel p (some ch) = elim (send fuel p ch) [ none ↦ none | some c ↦ some (some c) ]

-- A run of calls of Update.
unfoldable pub update_all : ℕ → List Progress → Channel → Option Channel
unfolding send
update_all fuel [] ch = some ch
update_all fuel (p ∷ ps) ch = elim (send fuel p ch) [ none ↦ none | some c ↦ update_all fuel ps c ]

-- The last n items.
abbrev pub drop : ℕ → List Progress → List Progress
drop zero xs = xs
drop (suc n) [] = []
drop (suc n) (x ∷ xs) = drop n xs

abbrev pub last : ℕ → List Progress → List Progress
last n xs = drop (length xs - n) xs

pub record IsChannel (ch : Channel) : Type 0 where
  pub buffered : 1 ≤ ch.capacity
  pub within : length ch.buffer ≤ ch.capacity
