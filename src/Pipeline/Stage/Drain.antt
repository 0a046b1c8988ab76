-- ===== src/Pipeline/Stage/Drain.antt =====
-- runStage: the loop ends, and what holds when it does.
use Prim.Native.String.{String}
use choix.Base.{
  ℕ, zero, suc, ◌+◌, ◌≤◌, ◌<◌, Option, some, none, List, [], ◌∷◌, length, Bool, true, false, leb,
  ◌≡◌, refl, sym, ◌⊎◌, inl, inr, arith, Bool-cases, length-append, subst,
}
use choix.Pipeline.Stage.{
  check, answer, Env, StageError, Run, Pass, guard, after_pool, with_ids, with_count, with_ctx,
  pass, drain, ticks, batch_size,
}

-- One pass's view: it stops, or goes on in a world with a shorter queue.
module _ {S E : Type 0} (env : Env S E) (name from : String) (total : ℕ) where
  -- The size of the queue.
  abbrev pub size : Run S → ℕ
  size t = env.count_by_status from t.world

  -- A pass that goes on from `before` entries leaves fewer in the queue.
  abbrev Shrinks : ℕ → Pass S E → Type 0
  Shrinks before (Pass.stop e t) = Unit
  Shrinks before (Pass.again t) = size t < before

  guard-Shrinks :
      (o : Option E) (before n : ℕ) (r : Run S)
      → Shrinks before (guard env name from total (answer o (size r)) before n r)
  guard-Shrinks (some e) before n r = tt
  guard-Shrinks none before n r = elim (Bool-cases (leb before (size r))) [
    | inl l ↦ rw l tt
    | inr l ↦ rw l (ground arith)
  ]

  after_pool-Shrinks :
      (e : Option E) (before n : ℕ) (r : Run S)
      → Shrinks before (after_pool env name from total e before n r)
  after_pool-Shrinks none before n r = guard-Shrinks _ before n r
  after_pool-Shrinks (some e) before n r = elim (Bool-cases (env.is_cancel e)) [
    | inl c ↦ rw c tt
    | inr c ↦ rw c (guard-Shrinks _ before n r)
  ]

  with_ids-Shrinks :
      (l : E ⊎ List ℕ) (before : ℕ) (r : Run S)
      → Shrinks before (with_ids env name from total l before r)
  with_ids-Shrinks (inl e) before r = tt
  with_ids-Shrinks (inr []) before r = tt
  with_ids-Shrinks (inr (id ∷ ids)) before r = after_pool-Shrinks _ before _ _

  abbrev Ends : ℕ → Pass S E → Type 0
  Ends fuel (Pass.stop e t) = Unit
  Ends fuel (Pass.again t) = size t < fuel

  Shrinks-Ends : (fuel before : ℕ) (p : Pass S E) → before ≤ fuel → Shrinks before p → Ends fuel p
  Shrinks-Ends fuel before (Pass.stop e t) h k = tt
  Shrinks-Ends fuel before (Pass.again t) h lt = omega (arith, h, lt)

  with_count-Ends :
      (fuel : ℕ) (o : Option E) (r : Run S)
      → size r < suc fuel
      → Ends fuel (with_count env name from total (answer o (size r)) r)
  with_count-Ends fuel (some e) r h = tt
  with_count-Ends fuel none r h =
      Shrinks-Ends fuel (size r) _ (omega (arith, h)) (with_ids-Shrinks _ (size r) r)

  with_ctx-Ends :
      (fuel : ℕ) (c : Option E) (r : Run S)
      → size r < suc fuel
      → Ends fuel (with_ctx env name from total c r)
  with_ctx-Ends fuel (some e) r h = tt
  with_ctx-Ends fuel none r h = with_count-Ends fuel _ r h

  pass-Ends : (fuel : ℕ) (r : Run S) → size r < suc fuel → Ends fuel (pass env name from total r)
  unfolding pass
  pass-Ends fuel r h = with_ctx-Ends fuel (env.fault name check r.passes) r h

  abbrev pub Returns : Option (Option (StageError E) × Run S) → Type 0
  Returns o = (e : Option (StageError E)) × (t : Run S) × (o ≡ some (e, t))

  -- More fuel than entries in the queue is enough.
  pub drain-Returns :
      (fuel : ℕ) (r : Run S) → size r < fuel → Returns (drain env name from total fuel r)
  unfolding drain
  drain-Returns zero r h = absurd (omega (arith, h))
  drain-Returns (suc fuel) r h =
      go (pass env name from total r) refl (pass-Ends fuel r h) (λ t k. drain-Returns fuel t k)
    where
      go :
          (p : Pass S E)
          → pass env name from total r ≡ p
          → Ends fuel p
          → ((t : Run S) → size t < fuel → Returns (drain env name from total fuel t))
          → Returns (drain env name from total (suc fuel) r)
      go (Pass.stop e t) q k rest = (e, t, rw (q, drain))
      go (Pass.again t) q k rest = rw (q, drain) (rest t k)

  -- The loop has left an empty queue behind, without being cancelled.
  abbrev pub IsDrained : Run S → Type 0
  IsDrained t =
      (env.list_by_status from (batch_size env) t.world ≡ [])
      × (env.fault name check t.passes ≡ none)

  -- One event for each file that was processed, and `base` more.
  abbrev pub IsLogged : ℕ → Run S → Type 0
  IsLogged base t = length t.events ≡ base + t.ok + t.fail

  ticks-IsLogged :
      (base : ℕ) (bs : List Bool) (r : Run S)
      → IsLogged base r
      → IsLogged base (ticks name total bs r)
  unfolding ticks
  ticks-IsLogged base [] r h = h
  ticks-IsLogged base (true ∷ bs) r h =
      ticks-IsLogged base bs _ (omega (arith, h, length-append r.events (_ ∷ [])))
  ticks-IsLogged base (false ∷ bs) r h =
      ticks-IsLogged base bs _ (omega (arith, h, length-append r.events (_ ∷ [])))

  -- A pass that stops with no error has nothing to do; one that goes on has logged each file.
  abbrev Good : ℕ → Pass S E → Type 0
  Good base (Pass.stop none t) = IsDrained t × IsLogged base t
  Good base (Pass.stop (some e) t) = Unit
  Good base (Pass.again t) = IsLogged base t

  guard-Good :
      (base : ℕ) (c : E ⊎ ℕ) (before n : ℕ) (r : Run S)
      → IsLogged base r
      → Good base (guard env name from total c before n r)
  guard-Good base (inl e) before n r h = tt
  guard-Good base (inr after) before n r h = elim (Bool-cases (leb before after)) [
    | inl l ↦ rw l tt
    | inr l ↦ rw l h
  ]

  after_pool-Good :
      (base : ℕ) (e : Option E) (before n : ℕ) (r : Run S)
      → IsLogged base r
      → Good base (after_pool env name from total e before n r)
  after_pool-Good base none before n r h = guard-Good base _ before n r h
  after_pool-Good base (some e) before n r h = elim (Bool-cases (env.is_cancel e)) [
    | inl c ↦ rw c tt
    | inr c ↦ rw c (guard-Good base _ before n r h)
  ]

  with_ids-Good :
      (base : ℕ) (o : Option E) (l : List ℕ) (before : ℕ) (r : Run S)
      → env.list_by_status from (batch_size env) r.world ≡ l
      → env.fault name check r.passes ≡ none
      → IsLogged base r
      → Good base (with_ids env name from total (answer o l) before r)
  with_ids-Good base (some e) l before r q c h = tt
  with_ids-Good base none [] before r q c h = ((q, c), h)
  with_ids-Good base none (id ∷ ids) before r q c h =
      after_pool-Good base _ before _ _ (ticks-IsLogged base _ _ h)

  with_count-Good :
      (base : ℕ) (n : E ⊎ ℕ) (r : Run S)
      → env.fault name check r.passes ≡ none
      → IsLogged base r
      → Good base (with_count env name from total n r)
  with_count-Good base (inl e) r c h = tt
  with_count-Good base (inr before) r c h = with_ids-Good base _ _ before r refl c h

  with_ctx-Good :
      (base : ℕ) (c : Option E) (r : Run S)
      → env.fault name check r.passes ≡ c
      → IsLogged base r
      → Good base (with_ctx env name from total c r)
  with_ctx-Good base (some e) r c h = tt
  with_ctx-Good base none r c h = with_count-Good base _ r c h

  pass-Good : (base : ℕ) (r : Run S) → IsLogged base r → Good base (pass env name from total r)
  unfolding pass
  pass-Good base r h = with_ctx-Good base (env.fault name check r.passes) r refl h

  abbrev pub Outcome : ℕ → Option (Option (StageError E) × Run S) → Type 0
  Outcome base (some (none, t)) = IsDrained t × IsLogged base t
  Outcome base (some (some e, t)) = Unit
  Outcome base none = Unit

  stopped :
      (base : ℕ) (e : Option (StageError E)) (t : Run S)
      → Good base (Pass.stop e t)
      → Outcome base (some (e, t))
  stopped base none t k = k
  stopped base (some e) t k = tt

  pub drain-Outcome :
      (base fuel : ℕ) (r : Run S)
      → IsLogged base r
      → Outcome base (drain env name from total fuel r)
  unfolding drain
  drain-Outcome base zero r h = tt
  drain-Outcome base (suc fuel) r h =
      go (pass env name from total r) refl (pass-Good base r h) (λ t k. drain-Outcome base fuel t k)
    where
      go :
          (p : Pass S E)
          → pass env name from total r ≡ p
          → Good base p
          → ((t : Run S) → IsLogged base t → Outcome base (drain env name from total fuel t))
          → Outcome base (drain env name from total (suc fuel) r)
      go (Pass.stop e t) q k rest =
          let eq : drain env name from total (suc fuel) r ≡ some (e, t) = rw (q, drain) in
          subst (Outcome base) (sym eq) (stopped base e t k)
      go (Pass.again t) q k rest =
          let eq : drain env name from total (suc fuel) r ≡ drain env name from total fuel t =
            rw (q, drain) in
          subst (Outcome base) (sym eq) (rest t k)
