-- ===== src/Pipeline/Pool.antt =====
-- internal/pipeline/pool.go: one producer, and workers that take ids from an unbuffered channel.
pub mod Count
pub mod Finish
use choix.Base.{
  ℕ, zero, suc, ◌+◌, Option, some, none, List, [], ◌∷◌, ◌++◌, length, if◌then◌else◌, Bool, true,
  false, ltb, ◌≡◌,
}

-- What the goroutines share, and where they are. `todo` is what the producer has still to send;
-- `running` tells that it has not returned (and so not closed the channel); `idle` workers wait at
-- the select, `busy` holds the ids that workers process, `gone` workers have returned.
pub record Pool (E : Type 0) : Type 0 where
  pub todo : List ℕ
  pub running : Bool
  pub idle : ℕ
  pub busy : List ℕ
  pub gone : ℕ
  pub finished : List ℕ
  pub ok : ℕ
  pub fail : ℕ
  pub first_err : Option E
  pub ctx_err : Option E
  pub group_err : Option E

-- `if workers < 1 { workers = 1 }`
unfoldable pub at_least_one : ℕ → ℕ
at_least_one zero = 1
at_least_one (suc n) = suc n

module _ {E : Type 0} where
  unfoldable pub start : ℕ → List ℕ → Pool E
  unfolding at_least_one
  start workers ids = record {
    todo = ids;
    running = true;
    idle = at_least_one workers;
    busy = [];
    gone = 0;
    finished = [];
    ok = 0;
    fail = 0;
    first_err = none;
    ctx_err = none;
    group_err = none;
  }

  -- storeFirst, and errgroup's own record of the first error.
  abbrev pub store_first : Option E → E → Option E
  store_first none e = some e
  store_first (some d) e = some d

  pub data Step (p : Pool E) : Pool E → Type 0 where
    -- `jobs <- id` meets `<-jobs`.
    give :
        (id : ℕ) (ids : List ℕ) (n : ℕ)
        → p.todo ≡ id ∷ ids
        → p.running ≡ true
        → p.idle ≡ suc n
        → Step p (record p { todo = ids; idle = n; busy = id ∷ p.busy })
    -- The producer has sent everything: `close(jobs)`.
    close : p.todo ≡ [] → p.running ≡ true → Step p (record p { running = false })
    -- fn returns nil.
    succeed :
        (xs : List ℕ) (id : ℕ) (ys : List ℕ)
        → p.busy ≡ xs ++ id ∷ ys
        → Step p (record p {
          busy = xs ++ ys;
          idle = suc p.idle;
          finished = id ∷ p.finished;
          ok = suc p.ok;
        })
    -- fn returns an error, which does not stop the pool.
    error :
        (xs : List ℕ) (id : ℕ) (ys : List ℕ) (e : E)
        → p.busy ≡ xs ++ id ∷ ys
        → Step p (record p {
          busy = xs ++ ys;
          idle = suc p.idle;
          finished = id ∷ p.finished;
          fail = suc p.fail;
          first_err = store_first p.first_err e;
        })
    -- A worker finds the channel closed.
    leave :
        (n : ℕ)
        → p.running ≡ false
        → p.idle ≡ suc n
        → Step p (record p { idle = n; gone = suc p.gone })
    -- The context is cancelled, from outside.
    cancel : (e : E) → p.ctx_err ≡ none → Step p (record p { ctx_err = some e })
    -- After that, the producer, which still has an id to send, or a worker may take the branch of
    -- `gctx.Done()`.
    stop_producer :
        (id : ℕ) (ids : List ℕ) (e : E)
        → p.todo ≡ id ∷ ids
        → p.ctx_err ≡ some e
        → p.running ≡ true
        → Step p (record p { running = false; group_err = store_first p.group_err e })
    stop_worker :
        (e : E) (n : ℕ)
        → p.ctx_err ≡ some e
        → p.idle ≡ suc n
        → Step p (record p { idle = n; gone = suc p.gone; group_err = store_first p.group_err e })

  -- The step is one of the producer or of a worker, not the cancellation from outside.
  abbrev pub IsOwn : {p q : Pool E} → Step p q → Type 0
  IsOwn (Step.cancel e en) = ⊥
  IsOwn (Step.give id ids n et er ei) = Unit
  IsOwn (Step.close et er) = Unit
  IsOwn (Step.succeed xs id ys e) = Unit
  IsOwn (Step.error xs id ys d e) = Unit
  IsOwn (Step.leave n er ei) = Unit
  IsOwn (Step.stop_producer id ids e et ec er) = Unit
  IsOwn (Step.stop_worker e n ec ei) = Unit

  pub data Reach (p : Pool E) : Pool E → Type 0 where
    here : Reach p p
    next : {q r : Pool E} → Reach p q → Step q r → Reach p r

  -- `g.Wait()` returns: the producer and all workers have.
  pub record IsFinal (p : Pool E) : Type 0 where
    pub producer_gone : p.running ≡ false
    pub none_idle : p.idle ≡ 0
    pub none_busy : p.busy ≡ []

  -- The switch at the end.
  abbrev pub outcome : Option E → Option E → Option E
  outcome (some e) first = some e
  outcome none first = first

  abbrev pub result : Pool E → ℕ × ℕ × Option E
  result p = (p.ok, p.fail, outcome p.group_err p.first_err)

  -- What RunPoolWithProgress can return.
  pub data Returns (workers : ℕ) : List ℕ → ℕ × ℕ × Option E → Type 0 where
    no_ids : Returns workers [] (0, 0, none)
    waited :
        {id : ℕ} {ids : List ℕ} {p : Pool E}
        → Reach (start workers (id ∷ ids)) p
        → IsFinal p
        → Returns workers (id ∷ ids) (result p)
