-- ===== src/Pipeline/Progress/Newest.antt =====
-- Reporter.Update: the channel holds the newest events.
use choix.Base.{
  ℕ, zero, suc, ◌+◌, ◌-◌, ◌≤◌, ◌<◌, some, List, [], ◌∷◌, ◌++◌, length, ltb, ◌≡◌, refl, sym, ap, ◌∙◌,
  arith, length-append, Bool-cases, inl, inr,
}
use mathlib.Core.List.{append_assoc, append-nil}
use choix.Pipeline.Progress.{
  Progress, Channel, drop_oldest, send, update_all, drop, last, IsChannel,
}

length-drop : (n : ℕ) (xs : List Progress) → length (drop n xs) ≡ length xs - n
length-drop zero xs = omega arith
length-drop (suc n) [] = omega arith
length-drop (suc n) (x ∷ xs) = omega (arith, length-drop n xs)

drop-append : (n : ℕ) (xs ys : List Progress) → n ≤ length xs → drop n (xs ++ ys) ≡ drop n xs ++ ys
drop-append zero xs ys h = refl
drop-append (suc n) [] ys h = absurd (omega arith)
drop-append (suc n) (x ∷ xs) ys h = drop-append n xs ys (omega arith)

drop_none : (k : ℕ) → [] ≡ drop k []
drop_none zero = refl
drop_none (suc k) = refl

drop-drop : (m n k : ℕ) (xs : List Progress) → k ≡ n + m → drop m (drop n xs) ≡ drop k xs
drop-drop m zero k xs e = let q : m ≡ k = omega (arith, e) in rw q
drop-drop m (suc n) k [] e = sym (drop_none m) ∙ drop_none k
drop-drop m (suc n) zero (x ∷ xs) e = absurd (omega (arith, e))
drop-drop m (suc n) (suc k) (x ∷ xs) e = drop-drop m n k xs (omega (arith, e))

length-last-le : (n : ℕ) (xs : List Progress) → length (last n xs) ≤ n
length-last-le n xs = omega (arith, length-drop (length xs - n) xs)

-- Forgetting early or late makes no difference.
last-append : (n : ℕ) (xs ys : List Progress) → last n (last n xs ++ ys) ≡ last n (xs ++ ys)
last-append n xs ys =
    let k = length xs - n in
    let le : k ≤ length xs = omega arith in
    rw (← drop-append k xs ys le) (
      drop-drop (length (drop k (xs ++ ys)) - n) k (length (xs ++ ys) - n) (xs ++ ys)
        (omega (arith, length-drop k (xs ++ ys), length-append xs ys)))

last-all : (n : ℕ) (xs : List Progress) → length xs ≤ n → last n xs ≡ xs
last-all n xs h = let q : length xs - n ≡ 0 = omega (arith, h) in rw q

last-full : (n : ℕ) (x : Progress) (xs : List Progress) → length xs ≡ n → last n (x ∷ xs) ≡ xs
last-full n x xs h = let q : suc (length xs) - n ≡ 1 = omega (arith, h) in rw q

abbrev newest : List Progress → Channel → Channel
newest ps ch = record ch { buffer = last ch.capacity (ch.buffer ++ ps) }

send_room :
    (fuel : ℕ) (p : Progress) (ch : Channel)
    → length ch.buffer < ch.capacity
    → send (suc fuel) p ch ≡ some (record ch { buffer = ch.buffer ++ p ∷ [] })
unfolding send
send_room fuel p ch h = ground (arith, h)

abbrev channel : ℕ → List Progress → Channel
channel c b = record { capacity = c; buffer = b }

send_full :
    (fuel : ℕ) (p : Progress) (c : ℕ) (b : List Progress)
    → length b ≡ c
    → 1 ≤ c
    → send (suc fuel) p (channel c (drop_oldest b)) ≡ some (channel c (last c (b ++ p ∷ [])))
send_full fuel p c [] e h = absurd (omega (arith, e, h))
send_full fuel p c (x ∷ xs) e h =
    send_room fuel p (channel c xs) (omega (arith, e))
    ∙ ap (λ b. some (channel c b))
        (sym (last-full c x (xs ++ p ∷ []) (omega (arith, e, length-append xs (p ∷ [])))))

send-newest :
    (fuel : ℕ) (p : Progress) (ch : Channel)
    → IsChannel ch
    → send (suc (suc fuel)) p ch ≡ some (newest (p ∷ []) ch)
unfolding send
send-newest fuel p ch h = elim (Bool-cases (ltb (length ch.buffer) ch.capacity)) [
  | inl t ↦ rw t (
      ap (λ b. some (channel ch.capacity b))
        (sym (
          last-all ch.capacity (ch.buffer ++ p ∷ [])
            (ground (arith, length-append ch.buffer (p ∷ []))))))
  | inr t ↦ rw t (send_full fuel p ch.capacity ch.buffer (ground (arith, h.within)) h.buffered)
]

newest-IsChannel : (ps : List Progress) (ch : Channel) → IsChannel ch → IsChannel (newest ps ch)
newest-IsChannel ps ch h = record {
  buffered = h.buffered;
  within = length-last-le ch.capacity (ch.buffer ++ ps);
}

-- On a buffered channel that nobody reads, any number of calls of Update return, the first or the
-- second attempt of each succeeds, and the channel then holds exactly the newest events: the last
-- `capacity` of those that were waiting and those that were sent.
pub update_all-newest :
    (fuel : ℕ) (ps : List Progress) (ch : Channel)
    → IsChannel ch
    → update_all (suc (suc fuel)) ps ch
      ≡ some (record ch { buffer = last ch.capacity (ch.buffer ++ ps) })
unfolding update_all
update_all-newest fuel [] ch h =
    ap (λ b. some (channel ch.capacity b))
      (sym (
        last-all ch.capacity (ch.buffer ++ []) (rw (append-nil ch.buffer) h.within)
        ∙ append-nil ch.buffer))
update_all-newest fuel (p ∷ ps) ch h =
    rw (send-newest fuel p ch h, update_all)
      (update_all-newest fuel ps (newest (p ∷ []) ch) (newest-IsChannel (p ∷ []) ch h)
        ∙ ap (λ b. some (channel ch.capacity b))
            (last-append ch.capacity (ch.buffer ++ p ∷ []) ps
              ∙ ap (last ch.capacity) (append_assoc ch.buffer (p ∷ []) ps)))
