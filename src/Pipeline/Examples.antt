-- ===== src/Pipeline/Examples.antt =====
-- internal/pipeline on small inputs: a store of four files, and a pool of two workers.
use Prim.Native.String.{String}
use text.Mathlib.Text.{◌==◌ as str_eq}
use choix.Base.{
  ℕ, ◌+◌, ◌*◌, ◌≤◌, Option, some, none, List, [], ◌∷◌, length, if◌then◌else◌, true, false, ◌==◌,
  ◌≡◌, refl, Perm, ◌↔◌, ◌⊎◌, map, keep, arith,
}
use choix.Pipeline.Progress.{Progress, Channel, update_all, send, last}
use choix.Pipeline.Progress.Newest.{update_all-newest}
use choix.Pipeline.Pool.{Pool, start, Step, Reach, IsFinal, at_least_one, outcome}
use choix.Pipeline.Pool.Finish.{Reach-complete, Reach-live, GoesOn, steps, steps-bound}
use choix.Pipeline.Stage.{
  Call, count_failed, event, Env, Run, StageError, run, resume, run_stage, stages, ticks, pass,
}
use choix.Pipeline.Stage.Chain.{IsStageDone, run_stage-returns, run_stage-IsStageDone}
use choix.Pipeline.Stage.Whole.{Answer, Succeeded, run-returns, run-Succeeded}

abbrev event_of : ℕ → Progress
event_of n = record { stage = "thumb"; done = n; total = 9; failed = 0; phase = "running" }

abbrev channel : Channel
channel = record { capacity = 2; buffer = event_of 1 ∷ [] }

update_all_run :
    update_all 2 (event_of 2 ∷ event_of 3 ∷ []) channel
    ≡ some (record channel { buffer = event_of 2 ∷ event_of 3 ∷ [] })
unfolding update_all send
update_all_run = refl

update_all-newest_example :
    update_all 2 (event_of 2 ∷ event_of 3 ∷ []) channel
    ≡ some (record channel { buffer = last 2 (event_of 1 ∷ event_of 2 ∷ event_of 3 ∷ []) })
update_all-newest_example =
    update_all-newest 0 (event_of 2 ∷ event_of 3 ∷ []) channel
      (record { buffered = omega arith; within = omega arith })

-- Two ids and one worker: the first call fails, the second succeeds.
abbrev first_given : Pool String
first_given = record {
  todo = 8 ∷ [];
  running = true;
  idle = 0;
  busy = 7 ∷ [];
  gone = 0;
  finished = [];
  ok = 0;
  fail = 0;
  first_err = none;
  ctx_err = none;
  group_err = none;
}

abbrev last_state : Pool String
last_state = record {
  todo = [];
  running = false;
  idle = 0;
  busy = [];
  gone = 1;
  finished = 8 ∷ 7 ∷ [];
  ok = 1;
  fail = 1;
  first_err = some "bad file";
  ctx_err = none;
  group_err = none;
}

last_run : Reach (start 1 (7 ∷ 8 ∷ [])) last_state
unfolding start at_least_one
last_run =
    Reach.next
      (Reach.next
        (Reach.next
          (Reach.next
            (Reach.next (Reach.next Reach.here (Step.give 7 (8 ∷ []) 0 refl refl refl))
              (Step.error [] 7 [] "bad file" refl))
            (Step.give 8 [] 0 refl refl refl))
          (Step.succeed [] 8 [] refl))
        (Step.close refl refl))
      (Step.leave 0 refl refl)

last-IsFinal : IsFinal last_state
last-IsFinal = record { producer_gone = refl; none_idle = refl; none_busy = refl }

Reach-complete_example :
    Perm {A = ℕ} (8 ∷ 7 ∷ []) (7 ∷ 8 ∷ [])
    × (◌≡◌ {A = ℕ} 2 2)
    × ((◌≡◌ {A = ℕ} 1 0) ↔ (outcome {E = String} none (some "bad file") ≡ none))
Reach-complete_example = Reach-complete 1 (7 ∷ 8 ∷ []) last_state last_run last-IsFinal refl

-- The only worker has left after the cancellation, and the producer has an id to send.
abbrev stuck_state : Pool String
stuck_state = record {
  todo = 8 ∷ [];
  running = true;
  idle = 0;
  busy = [];
  gone = 1;
  finished = 7 ∷ [];
  ok = 0;
  fail = 1;
  first_err = some "bad file";
  ctx_err = some "context canceled";
  group_err = some "context canceled";
}

stuck_run : Reach (start 1 (7 ∷ 8 ∷ [])) stuck_state
unfolding start at_least_one
stuck_run =
    Reach.next
      (Reach.next
        (Reach.next (Reach.next Reach.here (Step.give 7 (8 ∷ []) 0 refl refl refl))
          (Step.error [] 7 [] "bad file" refl))
        (Step.cancel "context canceled" refl))
      (Step.stop_worker "context canceled" 0 refl refl)

Reach-live_example : IsFinal stuck_state ⊎ GoesOn stuck_state
Reach-live_example = Reach-live 1 (7 ∷ 8 ∷ []) stuck_state stuck_run

steps-bound_example : steps last_run ≤ 3 * length {A = ℕ} (7 ∷ 8 ∷ []) + at_least_one 1 + 2
steps-bound_example = steps-bound 1 (7 ∷ 8 ∷ []) last_run

-- Files with their statuses; file 3 fails in every stage.
abbrev Files : Type 0
Files = List (ℕ × String)

abbrev at_status : String → Files → List ℕ
at_status status fs = map (λ f. f.0) (keep (λ f. str_eq f.1 status) fs)

abbrev next_status : String → String
next_status s =
    if str_eq s "discovered"
    then "metadata"
    else if str_eq s "metadata"
    then "thumbed"
    else "analyzed"

abbrev advance : ℕ × String → ℕ × String
advance f = (f.0, if f.0 == 3 then "failed" else next_status f.1)

abbrev status_of : String → String
status_of s =
    if str_eq s "metadata" then "discovered" else if str_eq s "thumb" then "metadata" else "thumbed"

abbrev move : String → Files → Files
move name fs = map (λ f. if str_eq f.1 (status_of name) then advance f else f) fs

abbrev env : Env Files String
env = record {
  count_by_status = λ status fs. length (at_status status fs);
  list_by_status = λ status n fs. at_status status fs;
  fault = λ name call n. none;
  ctx_err = none;
  is_cancel = λ e. false;
  pool = λ name workers ids fs. record {
    outcomes = map (λ id. if id == 3 then false else true) ids;
    err = none;
    after = move name fs;
  };
  walk = λ fs. (none, (3, "discovered") ∷ (4, "discovered") ∷ fs);
  rebuild_all = λ fs. (none, fs);
  num_cpu = 4;
  concurrency = λ name. none;
  batch = 0;
}

abbrev files : Files
files = (1, "thumbed") ∷ (2, "metadata") ∷ []

abbrev final_files : Files
final_files = (3, "failed") ∷ (4, "analyzed") ∷ (1, "analyzed") ∷ (2, "analyzed") ∷ []

abbrev sent : List Progress
sent =
    event "discover" 0 0 0 "starting"
    ∷ event "discover" 0 0 0 "done"
    ∷ event "metadata" 0 2 0 "starting"
    ∷ event "metadata" 0 2 1 "running"
    ∷ event "metadata" 1 2 1 "running"
    ∷ event "metadata" 1 2 1 "done"
    ∷ event "thumb" 0 2 0 "starting"
    ∷ event "thumb" 1 2 0 "running"
    ∷ event "thumb" 2 2 0 "running"
    ∷ event "thumb" 2 2 0 "done"
    ∷ event "analyze" 0 3 0 "starting"
    ∷ event "analyze" 1 3 0 "running"
    ∷ event "analyze" 2 3 0 "running"
    ∷ event "analyze" 3 3 0 "running"
    ∷ event "analyze" 3 3 0 "done"
    ∷ event "cluster" 0 0 0 "starting"
    ∷ event "cluster" 0 0 0 "done"
    ∷ []

run-run : run env files [] ≡ some (none, final_files, sent)
unfolding run run_stage ticks pass
run-run = refl

run-Succeeded_example :
    (u : Files) × (env.walk files ≡ (none, u)) × Succeeded env stages u final_files
run-Succeeded_example = run-Succeeded env files [] final_files sent run-run

run-returns_example :
    ((a : Answer env) × (run env files [] ≡ some a))
    × ((a : Answer env) × (resume env files [] ≡ some a))
run-returns_example = run-returns env files []

abbrev thumbed_run : Run Files
thumbed_run = record {
  world = (1, "thumbed") ∷ (2, "thumbed") ∷ [];
  passes = 1;
  ok = 1;
  fail = 0;
  events =
      event "thumb" 0 1 0 "starting"
      ∷ event "thumb" 1 1 0 "running"
      ∷ event "thumb" 1 1 0 "done"
      ∷ [];
}

thumb_run : run_stage env "thumb" files [] ≡ some (none, thumbed_run)
unfolding run_stage ticks pass
thumb_run = refl

-- The database is locked after the first batch.
abbrev locked : String → Call → ℕ → Option String
locked name Call.count_after n = some "database is locked"
locked name _ n = none

locked_run :
    run_stage (record env { fault = locked }) "thumb" files []
    ≡ some (
      some (count_failed "thumb" "database is locked"),
      record {
        world = (1, "thumbed") ∷ (2, "thumbed") ∷ [];
        passes = 0;
        ok = 1;
        fail = 0;
        events = event "thumb" 0 1 0 "starting" ∷ event "thumb" 1 1 0 "running" ∷ [];
      },
    )
unfolding run_stage ticks pass
locked_run = refl

run_stage-IsStageDone_example : IsStageDone env "thumb" [] thumbed_run
run_stage-IsStageDone_example = run_stage-IsStageDone env "thumb" files [] thumbed_run thumb_run

run_stage-returns_example :
    (r : Option (StageError String) × Run Files) × (run_stage env "thumb" files [] ≡ some r)
run_stage-returns_example = run_stage-returns env "thumb" files []
