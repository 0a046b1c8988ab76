-- ===== src/Group/Walk.antt =====
-- internal/group/group.go: the gap walks. Consecutive shots stay in one bucket while the gap between
-- them is at most `bucket_sec`.
pub mod Runs
pub mod Agree
use choix.Base.{ℕ, Option, some, none, List, [], ◌∷◌, ◌++◌, if◌then◌else◌, Bool, true, false}
use choix.Base.Int.{ℤ, ◌-ℤ◌, ltb_ℤ}

-- The loop's variables: currIDs, currStart, prev with havePrev, and what was emitted so far.
pub record Walk (A : Type 0) (D : Type 0) : Type 0 where
  pub curr : List A
  pub start : Option ℤ
  pub prev : Option ℤ
  pub defs : List D

module _ {A D : Type 0} (emit : Option ℤ → List A → List D) (bucket_sec : ℤ)
    (captured_at : A → Option ℤ) where
  -- `flush` emits the current bucket, unless it is empty.
  unfoldable pub flush : Walk A D → Walk A D
  flush w = elim w.curr [
    | [] ↦ w
    | _ ∷ _ ↦ record w { curr = []; defs = w.defs ++ emit w.start w.curr }
  ]

  -- A shot with a time: it opens a bucket, or joins the current one.
  unfoldable pub step_timed : A → ℤ → Walk A D → Walk A D
  unfolding flush
  step_timed f t w = elim w.prev [
    | none ↦ record w { curr = f ∷ []; start = some t; prev = some t }
    | some p ↦
        if ltb_ℤ bucket_sec (t -ℤ p)
        then record { curr = f ∷ []; start = some t; prev = some t; defs = (flush w).defs }
        else record w { curr = w.curr ++ f ∷ []; prev = some t }
  ]

  -- A shot without a time is a bucket of its own, and the next one starts afresh.
  unfoldable pub step_untimed : A → Walk A D → Walk A D
  unfolding flush
  step_untimed f w = record {
    curr = [];
    start = w.start;
    prev = none;
    defs = (flush w).defs ++ emit none (f ∷ []);
  }

  unfoldable pub step : A → Walk A D → Walk A D
  unfolding step_timed step_untimed
  step f w = elim (captured_at f) [ none ↦ step_untimed f w | some t ↦ step_timed f t w ]

  unfoldable pub walk_from : List A → Walk A D → List D
  unfolding step flush
  walk_from [] w = (flush w).defs
  walk_from (f ∷ fs) w = walk_from fs (step f w)

  unfoldable pub walk : List A → List D
  unfolding walk_from
  walk seq = walk_from seq (record { curr = []; start = none; prev = none; defs = [] })
