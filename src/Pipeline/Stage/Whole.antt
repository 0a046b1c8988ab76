-- ===== src/Pipeline/Stage/Whole.antt =====
-- Run and Resume: they return, and what success means.
use Prim.Native.String.{String}
use choix.Base.{ℕ, ◌≤◌, ◌*◌, arith, Option, some, none, List, [], ◌∷◌, ◌++◌, ◌≡◌, refl}
use choix.Pipeline.Progress.{Progress}
use choix.Pipeline.Stage.{
  Env, StageError, Run, run_stage, run_stages, cluster_stage, stage_log_interval, clustered, run,
  resume, stages, unless_cancelled, discovered, event,
}
use choix.Pipeline.Stage.Chain.{run_stage-returns, IsStageDone, run_stage-IsStageDone}

module _ {S E : Type 0} (env : Env S E) where
  abbrev pub Answer : Type 0
  Answer = Option (StageError E) × S × List Progress

  -- What runStagesAndCluster does after one stage.
  abbrev after_stage : List String → Option (Option (StageError E) × Run S) → Option Answer
  after_stage names none = none
  after_stage names (some (some e, r)) = some (some e, r.world, r.events)
  after_stage names (some (none, r)) = run_stages env names r.world r.events

  run_stages-cons :
      (name : String) (names : List String) (s : S) (evs : List Progress)
      (o : Option (Option (StageError E) × Run S))
      → run_stage env name s evs ≡ o
      → run_stages env (name ∷ names) s evs ≡ after_stage names o
  unfolding run_stages
  run_stages-cons name names s evs none q = rw (q, run_stages)
  run_stages-cons name names s evs (some (none, r)) q = rw (q, run_stages)
  run_stages-cons name names s evs (some (some e, r)) q = rw (q, run_stages)

  run_stages-returns :
      (names : List String) (s : S) (evs : List Progress)
      → (a : Answer) × (run_stages env names s evs ≡ some a)
  unfolding run_stages
  run_stages-returns [] s evs = (_, refl)
  run_stages-returns (name ∷ names) s evs =
      let (o, q) = run_stage-returns env name s evs in
      rw (run_stages-cons name names s evs (some o) q)
        (go o (λ r. run_stages-returns names r.world r.events))
    where
      go :
          (o : Option (StageError E) × Run S)
          → ((r : Run S) → (a : Answer) × (run_stages env names r.world r.events ≡ some a))
          → (a : Answer) × (after_stage names (some o) ≡ some a)
      go (none, r) rest = rest r
      go (some e, r) rest = (_, refl)

  -- Run and Resume return, whatever the scanner, the stages and the grouper do, if only a stage's
  -- pool changes that stage's queue.
  pub run-returns :
      (s : S) (evs : List Progress)
      → ((a : Answer) × (run env s evs ≡ some a)) × ((a : Answer) × (resume env s evs ≡ some a))
  unfolding run resume
  run-returns s evs = (
    unless env.ctx_err (discovered env (env.walk s) (evs ++ event "discover" 0 0 0 "starting" ∷ []))
        (found (env.walk s) (evs ++ event "discover" 0 0 0 "starting" ∷ [])),
    unless env.ctx_err (run_stages env stages s evs) (run_stages-returns stages s evs),
  )
    where
      found :
          (w : Option E × S) (evs : List Progress) → (a : Answer) × (discovered env w evs ≡ some a)
      found (none, t) evs = run_stages-returns stages t (evs ++ event "discover" 0 0 0 "done" ∷ [])
      found (some e, t) evs = (_, refl)

      unless :
          (c : Option E) (rest : Option Answer)
          → (a : Answer) × (rest ≡ some a)
          → (a : Answer) × (unless_cancelled env c s evs rest ≡ some a)
      unless none rest h = h
      unless (some e) rest h = (_, refl)

  -- Stages that ran one after the other, from a first world to a last one, each with success.
  pub data Drained : List String → S → S → Type 0 where
    none_left : (s : S) → Drained [] s s
    stage :
        (name : String) (names : List String) (s u : S) (evs : List Progress) (r : Run S)
        → run_stage env name s evs ≡ some (none, r)
        → IsStageDone env name evs r
        → Drained names r.world u
        → Drained (name ∷ names) s u

  clustered-none :
      (w : Option E × S) (evs : List Progress) (t : S) (out : List Progress)
      → clustered env w evs ≡ (none, t, out)
      → w ≡ (none, t)
  clustered-none (some e, u) evs t out h = absurd cc
  clustered-none (none, u) evs t out h = cc

  -- The stages succeed up to a world in which the clustering succeeds.
  abbrev pub Succeeded : List String → S → S → Type 0
  Succeeded names s t = (u : S) × Drained names s u × (env.rebuild_all u ≡ (none, t))

  run_stages-Succeeded :
      (names : List String) (s : S) (evs : List Progress) (t : S) (out : List Progress)
      → run_stages env names s evs ≡ some (none, t, out)
      → Succeeded names s t
  unfolding run_stages cluster_stage
  run_stages-Succeeded [] s evs t out h =
      let q : cluster_stage env s evs ≡ (none, t, out) = cc in
      (s, none_left s, clustered-none (env.rebuild_all s) _ t out q)
  run_stages-Succeeded (name ∷ names) s evs t out h =
      let (o, q) = run_stage-returns env name s evs in
      go o q (rw (run_stages-cons name names s evs (some o) q) at h)
        (λ r. run_stages-Succeeded names r.world r.events t out)
    where
      go :
          (o : Option (StageError E) × Run S)
          → run_stage env name s evs ≡ some o
          → after_stage names (some o) ≡ some (none, t, out)
          → ((r : Run S)
              → run_stages env names r.world r.events ≡ some (none, t, out)
              → Succeeded names r.world t)
          → Succeeded (name ∷ names) s t
      go (some e, r) q k rest = absurd cc
      go (none, r) q k rest =
          let (u, d, c) = rest r k in
          (u, stage name names s u evs r q (run_stage-IsStageDone env name s evs r q) d, c)

  -- If Run ends with no error, the scan has succeeded, then the stages metadata, thumb and analyze
  -- each, one after the other, have succeeded and left an empty queue, then the clustering has
  -- succeeded, in the world that the last stage left.
  pub run-Succeeded :
      (s : S) (evs : List Progress) (t : S) (out : List Progress)
      → run env s evs ≡ some (none, t, out)
      → (u : S) × (env.walk s ≡ (none, u)) × Succeeded stages u t
  unfolding run
  run-Succeeded s evs t out h = unless env.ctx_err h
    where
      found :
          (w : Option E × S) (evs : List Progress)
          → discovered env w evs ≡ some (none, t, out)
          → (u : S) × (w ≡ (none, u)) × Succeeded stages u t
      found (none, u) evs k = (u, refl, run_stages-Succeeded stages u _ t out k)
      found (some e, u) evs k = absurd cc

      unless :
          (c : Option E)
          → unless_cancelled env c s evs
              (discovered env (env.walk s) (evs ++ event "discover" 0 0 0 "starting" ∷ []))
            ≡ some (none, t, out)
          → (u : S) × (env.walk s ≡ (none, u)) × Succeeded stages u t
      unless none k = found (env.walk s) _ k
      unless (some e) k = absurd cc

-- The progress log of a stage appears at least once in a hundred files, and on every file of a
-- queue of at most 25; between two entries the interval is never zero and at most 5% of the queue,
-- where the queue has 100 files or more.
pub stage_log_interval-bounds :
    (total : ℕ)
    → (1 ≤ stage_log_interval total)
      × (stage_log_interval total ≤ 100)
      × (total ≤ 25 → stage_log_interval total ≡ 1)
      × (100 ≤ total → stage_log_interval total * 20 ≤ total)
unfolding stage_log_interval
stage_log_interval-bounds total = (ground arith, ground arith, λ h. ground arith, λ h. ground arith)
