-- ===== src/Base/Multimap.antt =====
-- Go's `m[k] = append(m[k], v)`: maps from keys to lists, as association lists in the order in which
-- the keys came first.
use mathlib.Core.List.{perm_append_singleton, perm_middle}
use mathlib.Core.List.Perm
use mathlib.Core.Path.{◌≡◌, refl, sym, ap, ◌∙◌}
use mathlib.Core.Logic.{◌↔◌, inl, inr}
use mathlib.Core.Bool.{Bool, true, false, false≢true}
use mathlib.Core.List.{List, [], ◌∷◌, ◌++◌, map, Perm}
use choix.Base.Tests.{if◌then◌else◌, Bool-cases}
use choix.Base.Lists.{In, concat}
use choix.Base.Distinct.{Distinct, Distinct-snoc}

module _ {K V : Type 0} (eq : K → K → Bool) where
  unfoldable pub push : K → V → List (K × List V) → List (K × List V)
  push k v [] = (k, v ∷ []) ∷ []
  push k v ((j, vs) ∷ m) = if eq j k then (j, vs ++ v ∷ []) ∷ m else (j, vs) ∷ push k v m

  -- `m[k]`, nil for a missing key.
  unfoldable pub values_of : K → List (K × List V) → List V
  values_of k [] = []
  values_of k ((j, vs) ∷ m) = if eq j k then vs else values_of k m

  -- `_, ok := m[k]`
  unfoldable pub has : K → List (K × List V) → Bool
  has k [] = false
  has k ((j, vs) ∷ m) = if eq j k then true else has k m

  abbrev pub keys : List (K × List V) → List K
  keys = map (λ e. e.0)

  abbrev pub values : List (K × List V) → List (List V)
  values = map (λ e. e.1)

  pub push-perm :
      (k : K) (v : V) (m : List (K × List V))
      → Perm (concat (values (push k v m))) (v ∷ concat (values m))
  unfolding push
  push-perm k v [] = Perm.rfl
  push-perm k v ((j, vs) ∷ m) = elim (Bool-cases (eq j k)) [
    | inl e ↦ rw e (Perm.append_right (concat (values m)) (perm_append_singleton v vs))
    | inr e ↦ rw e (Perm.trans (Perm.append_left vs (push-perm k v m)) (perm_middle vs _))
  ]

  pub keys-push :
      (k : K) (v : V) (m : List (K × List V))
      → keys (push k v m) ≡ (if has k m then keys m else keys m ++ k ∷ [])
  unfolding push has
  keys-push k v [] = refl
  keys-push k v ((j, vs) ∷ m) = elim (Bool-cases (eq j k)) [
    | inl e ↦ rw e
    | inr e ↦ rw (e, keys-push k v m) (elim (Bool-cases (has k m)) [ inl t ↦ rw t | inr t ↦ rw t ])
  ]

  module _ (eq_iff : (a b : K) → (eq a b ≡ true) ↔ (a ≡ b)) where
    has_of-In : (k : K) (m : List (K × List V)) → In k (keys m) → has k m ≡ true
    unfolding has
    has_of-In k [] h = absurd h
    has_of-In k ((j, vs) ∷ m) (inl e) = rw ((eq_iff j k).1 (sym e))
    has_of-In k ((j, vs) ∷ m) (inr h) = elim (Bool-cases (eq j k)) [
      | inl e ↦ rw e
      | inr e ↦ rw e (has_of-In k m h)
    ]

    In-of-has : (k : K) (m : List (K × List V)) → has k m ≡ true → In k (keys m)
    unfolding has
    In-of-has k [] h = absurd (false≢true h)
    In-of-has k ((j, vs) ∷ m) h = elim (Bool-cases (eq j k)) [
      | inl e ↦ inl (sym ((eq_iff j k).0 e))
      | inr e ↦ inr (In-of-has k m (rw e at h))
    ]

    pub Distinct-push :
        (k : K) (v : V) (m : List (K × List V)) → Distinct (keys m) → Distinct (keys (push k v m))
    Distinct-push k v m h = elim (Bool-cases (has k m)) [
      | inl t ↦ rw (keys-push k v m, t) h
      | inr t ↦
          rw (keys-push k v m, t)
            (Distinct-snoc k (keys m) (λ i. false≢true (sym t ∙ has_of-In k m i)) h)
    ]

    skip :
        (j : K) (vs : List V) (m : List (K × List V)) (ks : List K)
        → ¬ In j ks
        → map (λ k. values_of k ((j, vs) ∷ m)) ks ≡ map (λ k. values_of k m) ks
    unfolding values_of
    skip j vs m [] n = refl
    skip j vs m (k ∷ ks) n =
        rw (skip j vs m ks (λ i. n (inr i))) (ap (λ a. a ∷ map (λ k. values_of k m) ks) miss)
      where
        miss : values_of k ((j, vs) ∷ m) ≡ values_of k m
        miss = elim (Bool-cases (eq j k)) [
          | inl e ↦ absurd (n (inl ((eq_iff j k).0 e)))
          | inr e ↦ rw (e, values_of)
        ]

    -- Reading every key in order gives the lists in order.
    pub values_of-keys :
        (m : List (K × List V)) → Distinct (keys m) → map (λ k. values_of k m) (keys m) ≡ values m
    unfolding values_of
    values_of-keys [] h = refl
    values_of-keys ((j, vs) ∷ m) h =
        rw (skip j vs m (keys m) h.0, values_of-keys m h.1, (eq_iff j j).1 refl)
