-- ===== src/Group/Visual/Roots.antt =====
-- The roots after the pair loops: linked ids have one root, and ids of one root are linked.
use mathlib.Core.List.Perm
use native.Mathlib.Decide.{ℕ_discrete}
use choix.Base.{
  ℕ, suc, ◌<◌, ◌≤◌, ◌≡◌, refl, sym, ◌∙◌, ◌⊎◌, inl, inr, Bool, true, false, List, [], ◌∷◌, arith, In,
  ltb, ◌==◌, if◌then◌else◌, All-In, All-of_In,
}
use choix.Base.Perms.{In-perm_ids}
use choix.Base.Sort.{sort_by-perm, sort_by-Sorted, Sorted}
use choix.Group.Visual.{
  init_parent, link_all, collect, first, first_less, sort_ids, sort_groups, pairs, find_fuel,
}
use choix.Group.Visual.Forest.{IsForest}
use choix.Group.Visual.Links.{
  Linked, here, edge, back, join, Similar, Joins, Given, Network, link_all_lem,
}
use choix.Group.Visual.Groups.{gather, collect-gather}

-- Every id is its own parent at the start, and what is no id reads as 0.
IsInitial : (ℕ → ℕ) → Type 0
IsInitial p = (p 0 ≡ 0) × ((x : ℕ) → (p x ≡ x) ⊎ (p x ≡ 0))

init_parent-IsInitial : (ids : List ℕ) (p : ℕ → ℕ) → IsInitial p → IsInitial (init_parent ids p)
unfolding init_parent IsInitial
init_parent-IsInitial [] p h = h
init_parent-IsInitial (id ∷ ids) p h =
    init_parent-IsInitial ids _ (ground arith, λ x. ground (arith, h.1 x))

init_parent_keeps : (ids : List ℕ) (p : ℕ → ℕ) (x : ℕ) → p x ≡ x → init_parent ids p x ≡ x
unfolding init_parent
init_parent_keeps [] p x e = e
init_parent_keeps (id ∷ ids) p x e = init_parent_keeps ids _ x (ground arith)

init_parent_self : (ids : List ℕ) (p : ℕ → ℕ) (x : ℕ) → In x ids → init_parent ids p x ≡ x
unfolding init_parent
init_parent_self [] p x m = absurd m
init_parent_self (id ∷ ids) p x (inl e) = init_parent_keeps ids _ x (ground arith)
init_parent_self (id ∷ ids) p x (inr m) = init_parent_self ids _ x m

initial_rank : ℕ → ℕ
initial_rank x = if x == 0 then 1 else 0

IsInitial-IsForest : (p : ℕ → ℕ) → IsInitial p → IsForest p p initial_rank 1
unfolding IsInitial initial_rank
IsInitial-IsForest p h = record {
  up = λ x. ground (arith, h.1 x);
  same = λ x. ground (arith, h.1 x);
  fixed = λ x e. e;
  top = λ x. ground (arith, h.1 x);
  rise = λ x. ground (arith, h.1 x);
  bounded = λ x. ground arith;
}

-- The ids sorted: an earlier one is not greater.
ltb_asym : (x y : ℕ) → ltb x y ≡ true → ltb y x ≡ false
ltb_asym x y h = ground arith

le_of_not_ltb : (x y : ℕ) → ltb x y ≡ false → y ≤ x
le_of_not_ltb x y h = ground arith

ltb_negtrans : (x y z : ℕ) → ltb y x ≡ false → ltb z y ≡ false → ltb z x ≡ false
ltb_negtrans x y z h k = ground arith

pub sort_ids-Sorted : (ids : List ℕ) → Sorted ltb (sort_ids ids)
sort_ids-Sorted = sort_by-Sorted ltb ltb_asym ltb_negtrans

pub sort_groups-Sorted : (gs : List (List ℕ)) → Sorted first_less (sort_groups gs)
sort_groups-Sorted =
    sort_by-Sorted first_less (λ g h. ltb_asym (first g) (first h))
      (λ g h k. ltb_negtrans (first g) (first h) (first k))

-- In a sorted list the loops visit each smaller id with each larger one.
Joins-lt :
    (sim : ℕ → ℕ → Bool) (root : ℕ → ℕ) (ids : List ℕ) (x y : ℕ)
    → Sorted ltb ids
    → Joins sim root ids
    → In x ids
    → In y ids
    → x < y
    → sim x y ≡ true
    → root x ≡ root y
Joins-lt sim root [] x y s j mx my lt e = absurd mx
Joins-lt sim root (i ∷ is) x y s j (inl p) (inl q) lt e = absurd (ground arith)
Joins-lt sim root (i ∷ is) x y s j (inl p) (inr my) lt e =
    rw p (All-In (λ j. sim i j ≡ true → root i ≡ root j) y is j.0 my (rw p at e))
Joins-lt sim root (i ∷ is) x y s j (inr mx) (inl q) lt e =
    let h : ltb x i ≡ false = All-In (λ z. ltb z i ≡ false) x is s.0 mx in absurd (ground arith)
Joins-lt sim root (i ∷ is) x y s j (inr mx) (inr my) lt e =
    Joins-lt sim root is x y s.1 j.1 mx my lt e

-- Pairs of a sorted list of ids are similar pairs, or one id twice.
Given-Linked :
    (sim : ℕ → ℕ → Bool) (all is : List ℕ)
    → Sorted ltb is
    → ((x : ℕ) → In x is → In x all)
    → Given sim (λ x. In x all) (Linked (Similar sim all)) is
Given-Linked sim all [] s sub = tt
Given-Linked sim all (i ∷ is) s sub = (
  sub i (inl refl),
  All-of_In _ is λ j m. (sub j (inr m), λ e. related j m e),
  Given-Linked sim all is s.1 (λ x m. sub x (inr m)),
)
  where
    related : (j : ℕ) → In j is → sim i j ≡ true → Linked (Similar sim all) i j
    related j m e =
        let h : ltb j i ≡ false = All-In (λ z. ltb z i ≡ false) j is s.0 m in
        elim (ℕ_discrete i j) [
          | yes q ↦ rw q (here j)
          | no q ↦ edge (omega (arith, le_of_not_ltb j i h), sub i (inl refl), sub j (inr m), e)
        ]

module _ (sim : ℕ → ℕ → Bool) (unsorted : List ℕ) where
  abbrev pub ids : List ℕ
  ids = sort_ids unsorted

  abbrev pub parent : ℕ → ℕ
  parent = init_parent ids (λ _. 0)

  pub to_ids : (x : ℕ) → In x unsorted → In x ids
  to_ids x = In-perm_ids x unsorted ids (Perm.symm (sort_by-perm ltb unsorted))

  pub of_ids : (x : ℕ) → In x ids → In x unsorted
  of_ids x = In-perm_ids x ids unsorted (sort_by-perm ltb unsorted)

  abbrev pub R : ℕ → ℕ → Type 0
  R = Linked (Similar sim unsorted)

  initial : IsForest parent parent initial_rank 1
  initial =
      IsInitial-IsForest parent
        (init_parent-IsInitial ids (λ _. 0) (unfold IsInitial in (refl, λ x. inr refl)))

  pub network :
      Network sim
        (find_fuel ids)
        (λ x. In x unsorted)
        R
        (λ x y. back)
        (λ x y z. join)
        (link_all sim (find_fuel ids) ids parent)
        parent
        (suc (pairs ids))
        ids
  network =
      link_all_lem sim (find_fuel ids) (λ x. In x unsorted) R (λ x y. back) (λ x y z. join) ids
        initial (omega arith) (omega arith)
        (Given-Linked sim unsorted ids (sort_ids-Sorted unsorted) of_ids)
        λ x y mx my e.
          rw
            (
              ← init_parent_self ids (λ _. 0) x (to_ids x mx),
              e,
              init_parent_self ids (λ _. 0) y (to_ids y my),
            )
            (here y)

  abbrev pub root : ℕ → ℕ
  root = network.after

  -- Linked ids have one root.
  pub Linked-root : {x y : ℕ} → R x y → root x ≡ root y
  Linked-root (here x) = refl
  Linked-root (edge {x = x} {y = y} (lt, mx, my, e)) =
      Joins-lt sim root ids x y (sort_ids-Sorted unsorted) network.done (to_ids x mx) (to_ids y my)
        lt e
  Linked-root (back l) = sym (Linked-root l)
  Linked-root (join l m) = Linked-root l ∙ Linked-root m

  abbrev pub groups : List (ℕ × List ℕ)
  groups = gather root ids []

  pub collected : collect (find_fuel ids) ids (link_all sim (find_fuel ids) ids parent) [] ≡ groups
  collected = collect-gather (find_fuel ids) ids [] network.forest (omega arith)
