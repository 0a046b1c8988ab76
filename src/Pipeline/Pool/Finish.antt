-- ===== src/Pipeline/Pool/Finish.antt =====
-- RunPool: it finishes, and what it returns when nobody cancels it.
use mathlib.Core.List.{append-nil}
use choix.Base.{
  ℕ, zero, suc, ◌+◌, ◌*◌, ◌≤◌, ◌<◌, Option, some, none, List, [], ◌∷◌, ◌++◌, length, Bool, true,
  false, ◌≡◌, refl, Perm, arith, ◌↔◌, ◌⊎◌, inl, inr, subst, List-cases, ℕ-cases, Option-cases,
  Bool-cases,
}
use choix.Pipeline.Pool.{Pool, start, Step, IsOwn, Reach, IsFinal, at_least_one, outcome, Returns}
use choix.Pipeline.Pool.Count.{Reach-IsCounted, removed, one_less}

abbrev flag : Bool → ℕ
flag true = 1
flag false = 0

all_finished :
    {ids : List ℕ} (fs bs ts : List ℕ)
    → bs ≡ []
    → ts ≡ []
    → Perm (fs ++ (bs ++ ts)) ids
    → Perm fs ids
all_finished {ids = ids} fs bs ts eb et h =
    subst (λ l. Perm l ids) (append-nil fs) (rw (eb, et) at h)

no_items : (xs : List ℕ) → xs ≡ [] → length xs ≡ 0
no_items xs e = rw e

at_least_one-positive : (n : ℕ) → 1 ≤ at_least_one n
unfolding at_least_one
at_least_one-positive zero = omega arith
at_least_one-positive (suc n) = omega arith

module _ {E : Type 0} where
  -- As long as nobody cancels, workers and producer leave for the ordinary reasons only.
  pub record IsQuiet (p : Pool E) : Type 0 where
    pub no_group_err : p.group_err ≡ none
    pub all_sent : p.running ≡ false → p.todo ≡ []
    pub closed_first : (p.gone ≡ 0) ⊎ (p.running ≡ false)

  Step-IsQuiet :
      {p q : Pool E} → Step p q → (p.ctx_err ≡ none → IsQuiet p) → q.ctx_err ≡ none → IsQuiet q
  Step-IsQuiet (Step.give id is n et er ei) h c = record {
    no_group_err = (h c).no_group_err;
    all_sent = λ r. cc;
    closed_first = (h c).closed_first;
  }
  Step-IsQuiet (Step.close et er) h c = record {
    no_group_err = (h c).no_group_err;
    all_sent = λ r. et;
    closed_first = inr refl;
  }
  Step-IsQuiet (Step.succeed xs id ys e) h c = record {
    no_group_err = (h c).no_group_err;
    all_sent = (h c).all_sent;
    closed_first = (h c).closed_first;
  }
  Step-IsQuiet (Step.error xs id ys d e) h c = record {
    no_group_err = (h c).no_group_err;
    all_sent = (h c).all_sent;
    closed_first = (h c).closed_first;
  }
  Step-IsQuiet (Step.leave n er ei) h c = record {
    no_group_err = (h c).no_group_err;
    all_sent = (h c).all_sent;
    closed_first = inr er;
  }
  Step-IsQuiet (Step.cancel e en) h c = absurd cc
  Step-IsQuiet (Step.stop_producer id is e et ec er) h c = absurd cc
  Step-IsQuiet (Step.stop_worker e n ec ei) h c = absurd cc

  Reach-IsQuiet :
      (workers : ℕ) (ids : List ℕ) {p : Pool E}
      → Reach (start workers ids) p
      → p.ctx_err ≡ none
      → IsQuiet p
  unfolding start
  Reach-IsQuiet workers ids Reach.here c = record {
    no_group_err = refl;
    all_sent = λ r. cc;
    closed_first = inl refl;
  }
  Reach-IsQuiet workers ids (Reach.next r s) c = Step-IsQuiet s (Reach-IsQuiet workers ids r) c

  -- When g.Wait() returns and nobody has cancelled, the workers have processed each id once, the
  -- two counters add up to the number of ids, and the error that RunPool returns is nil exactly
  -- when no call failed.
  pub Reach-complete :
      (workers : ℕ) (ids : List ℕ) (p : Pool E)
      → Reach (start workers ids) p
      → IsFinal p
      → p.ctx_err ≡ none
      → Perm p.finished ids
        × (p.ok + p.fail ≡ length ids)
        × ((p.fail ≡ 0) ↔ (outcome p.group_err p.first_err ≡ none))
  Reach-complete workers ids p r f c =
      let h = Reach-IsCounted workers ids r in
      let q = Reach-IsQuiet workers ids r c in
      let sent = q.all_sent f.producer_gone in
      (
        all_finished p.finished p.busy p.todo f.none_busy sent h.ids_kept,
        omega (arith, h.total, h.counted, no_items p.busy f.none_busy, no_items p.todo sent),
        rw q.no_group_err h.errors,
      )

  -- The producer or a worker can take a step.
  abbrev pub GoesOn : Pool E → Type 0
  GoesOn p = (q : Pool E) × (s : Step p q) × IsOwn s

  blocked :
      (workers : ℕ) (ids : List ℕ) (p : Pool E)
      → Reach (start workers ids) p
      → p.ctx_err ≡ none
      → p.running ≡ true
      → p.idle ≡ 0
      → p.busy ≡ []
      → ⊥
  blocked workers ids p r c run i b =
      let h = Reach-IsCounted workers ids r in
      elim (Reach-IsQuiet workers ids r c).closed_first [
        | inl g ↦
            omega (arith, g, i, no_items p.busy b, h.workers_kept, at_least_one-positive workers)
        | inr s ↦ cc
      ]

  producer_step :
      (workers : ℕ) (ids : List ℕ) (p : Pool E)
      → Reach (start workers ids) p
      → p.running ≡ true
      → p.busy ≡ []
      → GoesOn p
  producer_step workers ids p r run b = elim (List-cases p.todo) [
    | inl t ↦ (_, Step.close t run, tt)
    | inr (id, is, t) ↦ elim (ℕ-cases p.idle) [
      | inr (n, i) ↦ (_, Step.give id is n t run i, tt)
      | inl i ↦ elim (Option-cases p.ctx_err) [
        | inl c ↦ absurd (blocked workers ids p r c run i b)
        | inr (e, c) ↦ (_, Step.stop_producer id is e t c run, tt)
      ]
    ]
  ]

  -- RunPool never deadlocks: in every state it can reach, cancelled or not, either g.Wait()
  -- returns, or the producer or a worker can take a step of its own; a later cancellation is never
  -- needed for it to go on. A call that is under way may return.
  pub Reach-live :
      (workers : ℕ) (ids : List ℕ) (p : Pool E) → Reach (start workers ids) p → IsFinal p ⊎ GoesOn p
  Reach-live workers ids p r = elim (List-cases p.busy) [
    | inr (id, is, b) ↦ inr (_, Step.succeed [] id is b, tt)
    | inl b ↦ elim (Bool-cases p.running) [
      | inl run ↦ inr (producer_step workers ids p r run b)
      | inr run ↦ elim (ℕ-cases p.idle) [
        | inl i ↦ inl (record { producer_gone = run; none_idle = i; none_busy = b })
        | inr (n, i) ↦ inr (_, Step.leave n run i, tt)
      ]
    ]
  ]

  abbrev unset : Option E → ℕ
  unset none = 1
  unset (some e) = 0

  -- The work that is left.
  abbrev measure : Pool E → ℕ
  measure p = 3 * length p.todo + 2 * length p.busy + p.idle + flag p.running + unset p.ctx_err

  Step-measure : {p q : Pool E} → Step p q → measure q < measure p
  Step-measure {p = p} (Step.give id is n et er ei) = omega (arith, one_less p.todo id is et, ei)
  Step-measure {p = p} (Step.close et er) = ground arith
  Step-measure {p = p} (Step.succeed xs id ys e) = omega (arith, removed p.busy xs id ys e)
  Step-measure {p = p} (Step.error xs id ys d e) = omega (arith, removed p.busy xs id ys e)
  Step-measure (Step.leave n er ei) = omega (arith, ei)
  Step-measure (Step.cancel e en) = ground arith
  Step-measure (Step.stop_producer id is e et ec er) = ground arith
  Step-measure (Step.stop_worker e n ec ei) = omega (arith, ei)

  abbrev pub steps : {p q : Pool E} → Reach p q → ℕ
  steps Reach.here = 0
  steps (Reach.next r s) = suc (steps r)

  steps-measure : {p q : Pool E} (r : Reach p q) → steps r + measure q ≤ measure p
  steps-measure Reach.here = omega arith
  steps-measure (Reach.next r s) = omega (arith, steps-measure r, Step-measure s)

  -- Every run of RunPool ends: with w workers (at least one) and n ids it takes at most
  -- 3n + w + 2 steps, whatever the calls return and whenever the context is cancelled.
  pub steps-bound :
      (workers : ℕ) (ids : List ℕ) {q : Pool E} (r : Reach (start workers ids) q)
      → steps r ≤ 3 * length ids + at_least_one workers + 2
  unfolding start
  steps-bound workers ids r = omega (arith, steps-measure r)

  -- Whatever RunPoolWithProgress returns, cancelled or not, it has counted no id twice: the
  -- successes and failures together are at most the number of ids.
  pub Returns-bounded :
      (workers : ℕ) (ids : List ℕ) (r : ℕ × ℕ × Option E)
      → Returns workers ids r
      → r.0 + r.1 ≤ length ids
  Returns-bounded workers [] r Returns.no_ids = omega arith
  Returns-bounded workers (id ∷ ids) r (Returns.waited run f) =
      let h = Reach-IsCounted workers (id ∷ ids) run in omega (arith, h.total, h.counted)
