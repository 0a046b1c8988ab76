-- ===== src/Group/Visual/Groups.antt =====
-- Collecting the ids by their roots: one group for each root, and every id in one group.
use mathlib.Core.List.Perm
use mathlib.Core.List.{perm_append_singleton, perm_middle}
use choix.Base.{
  ℕ, ◌<◌, ◌≡◌, ◌≢◌, refl, sym, ◌⊎◌, inl, inr, some, none, List, [], ◌∷◌, ◌++◌, map, Perm, arith,
  concat, All, In, Bool-cases, ◌==◌, if◌then◌else◌, ==_iff, In-append_right, In-append_left,
  All-append, Option-cases, ==_refl,
}
use choix.Base.Maps.{lookup}
use choix.Group.Visual.{append_group, collect}
use choix.Group.Visual.Forest.{IsForest, find_lem}

-- `collect` with the roots at hand.
pub gather : (ℕ → ℕ) → List ℕ → List (ℕ × List ℕ) → List (ℕ × List ℕ)
gather root [] groups = groups
gather root (id ∷ ids) groups = gather root ids (append_group (root id) id groups)

pub collect-gather :
    (fuel : ℕ) (ids : List ℕ) (groups : List (ℕ × List ℕ)) {parent root rank : ℕ → ℕ} {bound : ℕ}
    → IsForest parent root rank bound
    → bound < fuel
    → collect fuel ids parent groups ≡ gather root ids groups
unfolding collect gather
collect-gather fuel [] groups f h = refl
collect-gather fuel (id ∷ ids) groups f h =
    let (e, g) = find_lem fuel id f (omega arith) in rw e (collect-gather fuel ids _ g h)

abbrev pub members : List (ℕ × List ℕ) → List (List ℕ)
members = map (λ g. g.1)

append_group-perm :
    (r id : ℕ) (gs : List (ℕ × List ℕ))
    → Perm (concat (members (append_group r id gs))) (id ∷ concat (members gs))
unfolding append_group
append_group-perm r id [] = Perm.rfl
append_group-perm r id ((k, ms) ∷ gs) = elim (Bool-cases (k == r)) [
  | inl e ↦ rw e (Perm.append_right (concat (members gs)) (perm_append_singleton id ms))
  | inr e ↦ rw e (Perm.trans (Perm.append_left ms (append_group-perm r id gs)) (perm_middle ms _))
]

-- Every id is in one group.
pub gather-perm :
    (root : ℕ → ℕ) (ids : List ℕ) (gs : List (ℕ × List ℕ))
    → Perm (concat (members (gather root ids gs))) (ids ++ concat (members gs))
unfolding gather
gather-perm root [] gs = Perm.rfl
gather-perm root (id ∷ ids) gs =
    Perm.trans (gather-perm root ids (append_group (root id) id gs))
      (Perm.trans (Perm.append_left ids (append_group-perm (root id) id gs)) (perm_middle ids _))

lookup-append_group :
    (r id k : ℕ) (gs : List (ℕ × List ℕ))
    → lookup k (append_group r id gs) ≡ (
        if r == k
        then some (elim (lookup r gs) [ none ↦ id ∷ [] | some ms ↦ ms ++ id ∷ [] ])
        else lookup k gs)
unfolding lookup append_group
lookup-append_group r id k [] = refl
lookup-append_group r id k ((j, ms) ∷ gs) = ground (arith, lookup-append_group r id k gs)

-- The group of a root holds the id.
abbrev pub Home : (ℕ → ℕ) → List (ℕ × List ℕ) → ℕ → Type 0
Home root gs x = (ms : List ℕ) × (lookup (root x) gs ≡ some ms) × In x ms

-- A group is not empty, and its ids have its key for their root.
abbrev pub OfRoot : (ℕ → ℕ) → (ℕ × List ℕ) → Type 0
OfRoot root g = (g.1 ≢ []) × All (λ m. root m ≡ g.0) g.1

append_group-Home_self :
    (root : ℕ → ℕ) (id : ℕ) (gs : List (ℕ × List ℕ)) → Home root (append_group (root id) id gs) id
append_group-Home_self root id gs = elim (Option-cases (lookup (root id) gs)) [
  | inl e ↦
      (id ∷ [], rw (lookup-append_group (root id) id (root id) gs, e, ==_refl (root id)), inl refl)
  | inr (ms, e) ↦ (
    ms ++ id ∷ [],
    rw (lookup-append_group (root id) id (root id) gs, e, ==_refl (root id)),
    In-append_right id ms (id ∷ []) (inl refl),
  )
]

append_group-Home :
    (root : ℕ → ℕ) (r id x : ℕ) (gs : List (ℕ × List ℕ))
    → Home root gs x
    → Home root (append_group r id gs) x
append_group-Home root r id x gs (ms, e, m) = elim (Bool-cases (r == root x)) [
  | inl t ↦ (
    ms ++ id ∷ [],
    rw (lookup-append_group r id (root x) gs, t, (==_iff r (root x)).0 t, e),
    In-append_left x ms (id ∷ []) m,
  )
  | inr t ↦ (ms, rw (lookup-append_group r id (root x) gs, t) e, m)
]

-- After the loop every id that was visited, or stood in a group before, has its group.
pub gather-Home :
    (root : ℕ → ℕ) (ids : List ℕ) (gs : List (ℕ × List ℕ)) (x : ℕ)
    → In x ids ⊎ Home root gs x
    → Home root (gather root ids gs) x
unfolding gather
gather-Home root [] gs x (inl m) = absurd m
gather-Home root [] gs x (inr h) = h
gather-Home root (id ∷ ids) gs x (inl (inl e)) =
    gather-Home root ids _ x (inr (rw e (append_group-Home_self root id gs)))
gather-Home root (id ∷ ids) gs x (inl (inr m)) = gather-Home root ids _ x (inl m)
gather-Home root (id ∷ ids) gs x (inr h) =
    gather-Home root ids _ x (inr (append_group-Home root (root id) id x gs h))

snoc≢nil : (xs : List ℕ) (x : ℕ) → xs ++ x ∷ [] ≢ []
snoc≢nil [] x e = cc
snoc≢nil (y ∷ ys) x e = cc

append_group-OfRoot :
    (root : ℕ → ℕ) (id : ℕ) (gs : List (ℕ × List ℕ))
    → All (OfRoot root) gs
    → All (OfRoot root) (append_group (root id) id gs)
unfolding append_group
append_group-OfRoot root id [] h = ((λ e. cc, (refl, tt)), tt)
append_group-OfRoot root id ((k, ms) ∷ gs) h = elim (Bool-cases (k == root id)) [
  | inl t ↦
      let e : root id ≡ k = sym ((==_iff k (root id)).0 t) in
      rw t ((snoc≢nil ms id, All-append (λ m. root m ≡ k) ms (id ∷ []) h.0.1 (e, tt)), h.1)
  | inr t ↦ rw t (h.0, append_group-OfRoot root id gs h.1)
]

pub gather-OfRoot :
    (root : ℕ → ℕ) (ids : List ℕ) (gs : List (ℕ × List ℕ))
    → All (OfRoot root) gs
    → All (OfRoot root) (gather root ids gs)
unfolding gather
gather-OfRoot root [] gs h = h
gather-OfRoot root (id ∷ ids) gs h = gather-OfRoot root ids _ (append_group-OfRoot root id gs h)
