-- ===== src/Pipeline/Pool/Count.antt =====
-- RunPool: every id is counted once.
use mathlib.Core.List.Perm
use mathlib.Core.List.{perm_middle, append_assoc}
use choix.Base.{
  ℕ, suc, ◌+◌, Option, some, none, List, ◌∷◌, ◌++◌, length, ◌≡◌, refl, Perm, arith, length-append,
  ◌↔◌,
}
use choix.Pipeline.Pool.{Pool, start, Step, Reach, at_least_one, store_first}

moved :
    (fs xs : List ℕ) (id : ℕ) (ys ts : List ℕ)
    → Perm (id ∷ (fs ++ ((xs ++ ys) ++ ts))) (fs ++ ((xs ++ id ∷ ys) ++ ts))
moved fs xs id ys ts =
    rw (append_assoc xs ys ts, append_assoc xs (id ∷ ys) ts)
      (Perm.trans (Perm.symm (perm_middle fs (xs ++ (ys ++ ts))))
        (Perm.append_left fs (Perm.symm (perm_middle xs (ys ++ ts)))))

sent :
    {ids : List ℕ} (fs bs ts : List ℕ) (id : ℕ) (ts' : List ℕ)
    → ts ≡ id ∷ ts'
    → Perm (fs ++ (bs ++ ts)) ids
    → Perm (fs ++ (id ∷ (bs ++ ts'))) ids
sent fs bs ts id ts' e h =
    Perm.trans (Perm.append_left fs (Perm.symm (perm_middle bs ts'))) (rw e at h)

done :
    {ids : List ℕ} (fs bs ts xs : List ℕ) (id : ℕ) (ys : List ℕ)
    → bs ≡ xs ++ id ∷ ys
    → Perm (fs ++ (bs ++ ts)) ids
    → Perm (id ∷ (fs ++ ((xs ++ ys) ++ ts))) ids
done fs bs ts xs id ys e h = Perm.trans (moved fs xs id ys ts) (rw e at h)

pub one_less : (ts : List ℕ) (id : ℕ) (is : List ℕ) → ts ≡ id ∷ is → length ts ≡ suc (length is)
one_less ts id is e = rw e

pub removed :
    (bs xs : List ℕ) (id : ℕ) (ys : List ℕ)
    → bs ≡ xs ++ id ∷ ys
    → length bs ≡ suc (length (xs ++ ys))
removed bs xs id ys e = rw e (omega (arith, length-append xs ys, length-append xs (id ∷ ys)))

module _ {E : Type 0} where
  -- Where the ids are, and what the counters say.
  pub record IsCounted (workers : ℕ) (ids : List ℕ) (p : Pool E) : Type 0 where
    pub ids_kept : Perm (p.finished ++ (p.busy ++ p.todo)) ids
    pub total : length p.finished + length p.busy + length p.todo ≡ length ids
    pub counted : p.ok + p.fail ≡ length p.finished
    pub workers_kept : p.idle + length p.busy + p.gone ≡ workers
    pub errors : (p.fail ≡ 0) ↔ (p.first_err ≡ none)

  stored : (o : Option E) (e : E) (n : ℕ) → (suc n ≡ 0) ↔ (store_first o e ≡ none)
  stored none e n = (λ q. absurd (omega (arith, q)), λ q. cc)
  stored (some d) e n = (λ q. absurd (omega (arith, q)), λ q. cc)

  Step-IsCounted :
      {workers : ℕ} {ids : List ℕ} {p q : Pool E}
      → Step p q
      → IsCounted workers ids p
      → IsCounted workers ids q
  Step-IsCounted {p = p} (Step.give id is n et er ei) h = record {
    ids_kept = sent p.finished p.busy p.todo id is et h.ids_kept;
    total = omega (arith, h.total, one_less p.todo id is et);
    counted = h.counted;
    workers_kept = omega (arith, h.workers_kept, ei);
    errors = h.errors;
  }
  Step-IsCounted (Step.close et er) h = record {
    ids_kept = h.ids_kept;
    total = h.total;
    counted = h.counted;
    workers_kept = h.workers_kept;
    errors = h.errors;
  }
  Step-IsCounted {p = p} (Step.succeed xs id ys e) h = record {
    ids_kept = done p.finished p.busy p.todo xs id ys e h.ids_kept;
    total = omega (arith, h.total, removed p.busy xs id ys e);
    counted = omega (arith, h.counted);
    workers_kept = omega (arith, h.workers_kept, removed p.busy xs id ys e);
    errors = h.errors;
  }
  Step-IsCounted {p = p} (Step.error xs id ys d e) h = record {
    ids_kept = done p.finished p.busy p.todo xs id ys e h.ids_kept;
    total = omega (arith, h.total, removed p.busy xs id ys e);
    counted = omega (arith, h.counted);
    workers_kept = omega (arith, h.workers_kept, removed p.busy xs id ys e);
    errors = stored p.first_err d p.fail;
  }
  Step-IsCounted (Step.leave n er ei) h = record {
    ids_kept = h.ids_kept;
    total = h.total;
    counted = h.counted;
    workers_kept = omega (arith, h.workers_kept, ei);
    errors = h.errors;
  }
  Step-IsCounted (Step.cancel e en) h = record {
    ids_kept = h.ids_kept;
    total = h.total;
    counted = h.counted;
    workers_kept = h.workers_kept;
    errors = h.errors;
  }
  Step-IsCounted (Step.stop_producer id is e et ec er) h = record {
    ids_kept = h.ids_kept;
    total = h.total;
    counted = h.counted;
    workers_kept = h.workers_kept;
    errors = h.errors;
  }
  Step-IsCounted (Step.stop_worker e n ec ei) h = record {
    ids_kept = h.ids_kept;
    total = h.total;
    counted = h.counted;
    workers_kept = omega (arith, h.workers_kept, ei);
    errors = h.errors;
  }

  start-IsCounted :
      (workers : ℕ) (ids : List ℕ) → IsCounted (at_least_one workers) ids (start workers ids)
  unfolding start
  start-IsCounted workers ids = record {
    ids_kept = Perm.rfl;
    total = omega arith;
    counted = omega arith;
    workers_kept = omega arith;
    errors = (λ q. refl, λ q. refl);
  }

  pub Reach-IsCounted :
      (workers : ℕ) (ids : List ℕ) {p : Pool E}
      → Reach (start workers ids) p
      → IsCounted (at_least_one workers) ids p
  Reach-IsCounted workers ids Reach.here = start-IsCounted workers ids
  Reach-IsCounted workers ids (Reach.next r s) = Step-IsCounted s (Reach-IsCounted workers ids r)
