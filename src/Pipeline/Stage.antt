-- ===== src/Pipeline/Stage.antt =====
-- internal/pipeline/pipeline.go and stage.go: one stage drains its queue batch by batch, and a run
-- chains the stages.
pub mod Drain
pub mod Chain
pub mod Whole
use Prim.Native.String.{String}
use text.Mathlib.Text.{◌==◌ as str_eq}
use choix.Base.{
  ℕ, zero, suc, ◌+◌, ◌/◌, Option, some, none, List, [], ◌∷◌, ◌++◌, length, if◌then◌else◌, Bool,
  true, false, ltb, leb, ◌⊎◌, inl, inr,
}
use choix.Pipeline.Progress.{Progress}

-- What one call of RunPoolWithProgress did: for each id that was processed, in the order of the
-- calls of the progress callback, whether it succeeded; its error; and the world after it.
pub record PoolRun (S E : Type 0) : Type 0 where
  pub outcomes : List Bool
  pub err : Option E
  pub after : S

-- The calls of runStage that can fail: CountByStatus before the loop, ctx.Err(), CountByStatus and
-- ListByStatus at the head of a pass, and CountByStatus after the batch.
pub data Call : Type 0 where
  snapshot : Call
  check : Call
  count_before : Call
  list_ids : Call
  count_after : Call

-- The interfaces that a Pipeline holds, over a world S (the store, the disk, the clock) and errors E.
pub record Env (S E : Type 0) : Type 0 where
  -- What the two queries answer when they do not fail.
  pub count_by_status : String → S → ℕ
  pub list_by_status : String → ℕ → S → List ℕ
  -- The error of a call, by the stage, the place and the number of passes before it.
  pub fault : String → Call → ℕ → Option E
  -- ctx.Err() when Run or Resume starts.
  pub ctx_err : Option E
  -- errors.Is with context.Canceled or context.DeadlineExceeded.
  pub is_cancel : E → Bool
  -- RunPoolWithProgress for the named stage's Process.
  pub pool : String → ℕ → List ℕ → S → PoolRun S E
  pub walk : S → Option E × S
  pub rebuild_all : S → Option E × S
  pub num_cpu : ℕ
  pub concurrency : String → Option ℕ
  pub batch : ℕ

-- The errors, with the stage that they name.
pub data StageError (E : Type 0) : Type 0 where
  unknown_stage : String → StageError E
  count_failed : String → E → StageError E
  list_failed : String → E → StageError E
  cancelled : E → StageError E
  no_progress : String → ℕ → StageError E
  discover_failed : E → StageError E
  cluster_failed : E → StageError E

unfoldable pub stage_status_from : String → String
stage_status_from name =
    if str_eq name "metadata"
    then "discovered"
    else if str_eq name "thumb"
    then "metadata"
    else if str_eq name "analyze"
    then "thumbed"
    else ""

-- RegisterStages: the stages by their names, in order.
abbrev pub stages : List String
stages = "metadata" ∷ "thumb" ∷ "analyze" ∷ []

abbrev pub default_batch_size : ℕ
default_batch_size = 100

abbrev clamp_low : ℕ → ℕ
clamp_low n = if ltb n 5 then 5 else n

abbrev clamp_high : ℕ → ℕ
clamp_high n = if ltb 100 n then 100 else n

unfoldable pub stage_log_interval : ℕ → ℕ
stage_log_interval total = if leb total 25 then 1 else clamp_high (clamp_low (total / 20))

module _ {S E : Type 0} (env : Env S E) where
  unfoldable pub workers_for : String → ℕ
  workers_for stage = elim (env.concurrency stage) [
    | some (suc n) ↦ suc n
    | some zero ↦ env.num_cpu
    | none ↦ env.num_cpu
  ]

  unfoldable pub batch_size : ℕ
  batch_size = if ltb 0 env.batch then env.batch else default_batch_size

-- The local variables of runStage, the world, the number of passes that went on, and the events
-- that were sent so far.
pub record Run (S : Type 0) : Type 0 where
  pub world : S
  pub passes : ℕ
  pub ok : ℕ
  pub fail : ℕ
  pub events : List Progress

abbrev pub event : String → ℕ → ℕ → ℕ → String → Progress
event name ok total fail phase = record {
  stage = name;
  done = ok;
  total = total;
  failed = fail;
  phase = phase;
}

module _ {S : Type 0} where
  abbrev pub emit : String → ℕ → String → Run S → Run S
  emit name total phase r = record r {
    events = r.events ++ event name r.ok total r.fail phase ∷ [];
  }

  -- The progress callback, for one id.
  abbrev pub tick : String → ℕ → Bool → Run S → Run S
  tick name total true r = emit name total "running" (record r { ok = suc r.ok })
  tick name total false r = emit name total "running" (record r { fail = suc r.fail })

  unfoldable pub ticks : String → ℕ → List Bool → Run S → Run S
  ticks name total [] r = r
  ticks name total (b ∷ bs) r = ticks name total bs (tick name total b r)

-- A call and its error.
abbrev pub answer : {E A : Type 0} → Option E → A → E ⊎ A
answer none a = inr a
answer (some e) a = inl e

-- One pass of the loop: it leaves the loop, with an error or not, or goes on.
pub data Pass (S E : Type 0) : Type 0 where
  stop : Option (StageError E) → Run S → Pass S E
  again : Run S → Pass S E

module _ {S E : Type 0} (env : Env S E) (name from : String) (total : ℕ) where
  -- The no-progress guard.
  abbrev pub guard : E ⊎ ℕ → ℕ → ℕ → Run S → Pass S E
  guard (inl e) before n r = stop (some (count_failed name e)) r
  guard (inr after) before n r =
      if leb before after
      then stop (some (no_progress name n)) (emit name total "failed" r)
      else again (record r { passes = suc r.passes })

  abbrev pub after_batch : ℕ → ℕ → Run S → Pass S E
  after_batch before n r =
      guard (answer (env.fault name count_after r.passes) (env.count_by_status from r.world)) before
        n r

  -- What happens to the error of the pool: only a cancellation ends the stage.
  abbrev pub after_pool : Option E → ℕ → ℕ → Run S → Pass S E
  after_pool none before n r = after_batch before n r
  after_pool (some e) before n r =
      if env.is_cancel e
      then stop (some (cancelled e)) (emit name total "failed" r)
      else after_batch before n r

  abbrev pub with_ids : E ⊎ List ℕ → ℕ → Run S → Pass S E
  with_ids (inl e) before r = stop (some (list_failed name e)) r
  with_ids (inr []) before r = stop none r
  with_ids (inr (id ∷ ids)) before r =
      let run = env.pool name (workers_for env name) (id ∷ ids) r.world in
      after_pool run.err before (suc (length ids))
        (ticks name total run.outcomes (record r { world = run.after }))

  abbrev pub with_count : E ⊎ ℕ → Run S → Pass S E
  with_count (inl e) r = stop (some (count_failed name e)) r
  with_count (inr before) r =
      with_ids
        (answer (env.fault name list_ids r.passes)
          (env.list_by_status from (batch_size env) r.world))
        before r

  abbrev pub with_ctx : Option E → Run S → Pass S E
  with_ctx (some e) r = stop (some (cancelled e)) (emit name total "failed" r)
  with_ctx none r =
      with_count (answer (env.fault name count_before r.passes) (env.count_by_status from r.world))
        r

  unfoldable pub pass : Run S → Pass S E
  unfolding ticks workers_for batch_size
  pass r = with_ctx (env.fault name check r.passes) r

  -- The loop, at most `fuel` passes; `none` when they are not enough.
  unfoldable pub drain : ℕ → Run S → Option (Option (StageError E) × Run S)
  unfolding pass
  drain zero r = none
  drain (suc fuel) r = elim (pass r) [ stop e t ↦ some (e, t) | again t ↦ drain fuel t ]

module _ {S E : Type 0} (env : Env S E) where
  -- After the loop, the event "done".
  abbrev pub finish :
      String → ℕ → Option (Option (StageError E) × Run S) → Option (Option (StageError E) × Run S)
  finish name total none = none
  finish name total (some (some e, r)) = some (some e, r)
  finish name total (some (none, r)) = some (none, emit name total "done" r)

  abbrev pub with_total :
      String → String → E ⊎ ℕ → S → List Progress → Option (Option (StageError E) × Run S)
  with_total name from (inl e) s evs =
      some (
        some (count_failed name e),
        record { world = s; passes = 0; ok = 0; fail = 0; events = evs },
      )
  with_total name from (inr total) s evs = finish name total (
      drain env name from total (suc total) (
        emit name total "starting"
          (record { world = s; passes = 0; ok = 0; fail = 0; events = evs })))

  unfoldable pub run_stage : String → S → List Progress → Option (Option (StageError E) × Run S)
  unfolding drain stage_status_from
  run_stage name s evs =
      let from = stage_status_from name in
      if str_eq from ""
      then some (
        some (unknown_stage name),
        record { world = s; passes = 0; ok = 0; fail = 0; events = evs },
      )
      else with_total name from (answer (env.fault name snapshot 0) (env.count_by_status from s)) s
          evs

  -- The end of runStagesAndCluster.
  abbrev pub clustered : Option E × S → List Progress → Option (StageError E) × S × List Progress
  clustered (some e, t) evs =
      (some (cluster_failed e), t, evs ++ event "cluster" 0 0 0 "failed" ∷ [])
  clustered (none, t) evs = (none, t, evs ++ event "cluster" 0 0 0 "done" ∷ [])

  unfoldable pub cluster_stage : S → List Progress → Option (StageError E) × S × List Progress
  cluster_stage s evs = clustered (env.rebuild_all s) (evs ++ event "cluster" 0 0 0 "starting" ∷ [])

  unfoldable pub run_stages :
      List String → S → List Progress → Option (Option (StageError E) × S × List Progress)
  unfolding run_stage cluster_stage
  run_stages [] s evs = some (cluster_stage s evs)
  run_stages (name ∷ names) s evs = elim (run_stage name s evs) [
    | none ↦ none
    | some (some e, r) ↦ some (some e, r.world, r.events)
    | some (none, r) ↦ run_stages names r.world r.events
  ]

  -- Resume, with its check of the context.
  abbrev pub unless_cancelled :
      Option E
      → S
      → List Progress
      → Option (Option (StageError E) × S × List Progress)
      → Option (Option (StageError E) × S × List Progress)
  unless_cancelled (some e) s evs rest = some (some (cancelled e), s, evs)
  unless_cancelled none s evs rest = rest

  unfoldable pub resume : S → List Progress → Option (Option (StageError E) × S × List Progress)
  unfolding run_stages
  resume s evs = unless_cancelled env.ctx_err s evs (run_stages stages s evs)

  abbrev pub discovered :
      Option E × S → List Progress → Option (Option (StageError E) × S × List Progress)
  discovered (some e, t) evs =
      some (some (discover_failed e), t, evs ++ event "discover" 0 0 0 "failed" ∷ [])
  discovered (none, t) evs = run_stages stages t (evs ++ event "discover" 0 0 0 "done" ∷ [])

  unfoldable pub run : S → List Progress → Option (Option (StageError E) × S × List Progress)
  unfolding run_stages
  run s evs =
      unless_cancelled env.ctx_err s evs
        (discovered (env.walk s) (evs ++ event "discover" 0 0 0 "starting" ∷ []))
