-- ===== src/Pipeline/Stage/Chain.antt =====
-- runStage as a whole, Run and Resume: they return, and what success means.
use Prim.Native.String.{String}
use text.Mathlib.Text.{◌==◌ as str_eq}
use choix.Base.{
  ℕ, suc, ◌+◌, Option, some, none, List, [], ◌∷◌, length, false, ◌≡◌, refl, ◌⊎◌, inl, inr, arith,
  Bool-cases, length-append, subst,
}
use choix.Pipeline.Progress.{Progress}
use choix.Pipeline.Stage.{
  snapshot, check, answer, Env, StageError, unknown_stage, Run, drain, emit, event, batch_size,
  stage_status_from, run_stage, with_total, finish,
}
use choix.Pipeline.Stage.Drain.{Outcome, drain-Returns, drain-Outcome}

module _ {S E : Type 0} (env : Env S E) where
  abbrev Ok : Type 0
  Ok = Option (StageError E) × Run S

  with_total-Returns :
      (name from : String) (o : Option E) (s : S) (evs : List Progress)
      → (r : Ok) × (with_total env name from (answer o (env.count_by_status from s)) s evs ≡ some r)
  with_total-Returns name from (some e) s evs = (_, refl)
  with_total-Returns name from none s evs =
      let total = env.count_by_status from s in
      let (e, t, d) =
        drain-Returns env name from total (suc total)
          (emit name total "starting"
            (record { world = s; passes = 0; ok = 0; fail = 0; events = evs }))
          (omega arith) in
      rw d (finished e t)
    where
      finished :
          (e : Option (StageError E)) (t : Run S)
          → (r : Ok) × (finish env name (env.count_by_status from s) (some (e, t)) ≡ some r)
      finished none t = (_, refl)
      finished (some e) t = (_, refl)

  -- runStage returns, whatever the pool does and whichever calls fail: with as many passes as the
  -- queue had files at the start, and one more, its loop ends, if only the pool changes the queue.
  pub run_stage-returns :
      (name : String) (s : S) (evs : List Progress) → (r : Ok) × (run_stage env name s evs ≡ some r)
  unfolding run_stage
  run_stage-returns name s evs = elim (Bool-cases (str_eq (stage_status_from name) "")) [
    | inl e ↦ (
      (some (unknown_stage name), record { world = s; passes = 0; ok = 0; fail = 0; events = evs }),
      rw e,
    )
    | inr e ↦
        let (r, q) =
          with_total-Returns name (stage_status_from name) (env.fault name snapshot 0) s evs in
        (r, rw e q)
  ]

  -- What a stage that succeeds leaves behind.
  pub record IsStageDone (name : String) (evs : List Progress) (t : Run S) : Type 0 where
    pub queue_empty : env.list_by_status (stage_status_from name) (batch_size env) t.world ≡ []
    pub not_cancelled : env.fault name check t.passes ≡ none
    pub known : str_eq (stage_status_from name) "" ≡ false
    pub all_logged : length t.events ≡ length evs + 2 + t.ok + t.fail

  with_total-done :
      (name : String) (c : E ⊎ ℕ) (s : S) (evs : List Progress) (t : Run S)
      → str_eq (stage_status_from name) "" ≡ false
      → with_total env name (stage_status_from name) c s evs ≡ some (none, t)
      → IsStageDone name evs t
  with_total-done name (inl e) s evs t k q = absurd cc
  with_total-done name (inr total) s evs t k q =
      go
        (drain env name (stage_status_from name) total (suc total) (
          emit name total "starting"
            (record { world = s; passes = 0; ok = 0; fail = 0; events = evs })))
        (drain-Outcome env name (stage_status_from name) total (suc (length evs)) (suc total) _
          (omega (arith, length-append evs (event name 0 total 0 "starting" ∷ []))))
        q
    where
      go :
          (o : Option Ok)
          → Outcome env name (stage_status_from name) total (suc (length evs)) o
          → finish env name total o ≡ some (none, t)
          → IsStageDone name evs t
      go none h e = absurd cc
      go (some (some d, u)) h e = absurd cc
      go (some (none, u)) ((a, b), l) e =
          let eq : emit name total "done" u ≡ t = cc in
          subst (IsStageDone name evs) eq (record {
            queue_empty = a;
            not_cancelled = b;
            known = k;
            all_logged = omega (arith, l, length-append u.events (_ ∷ []));
          })

  -- A stage that ends with no error has a known name, has found its queue empty in the world it
  -- leaves, was not cancelled when it last looked, and has sent one event for each file processed, and two more.
  pub run_stage-IsStageDone :
      (name : String) (s : S) (evs : List Progress) (t : Run S)
      → run_stage env name s evs ≡ some (none, t)
      → IsStageDone name evs t
  unfolding run_stage
  run_stage-IsStageDone name s evs t h = elim (Bool-cases (str_eq (stage_status_from name) "")) [
    | inl e ↦ absurd (let q = rw e at h in cc)
    | inr e ↦ with_total-done name _ s evs t e (rw e at h)
  ]
