-- ===== src/Group/Visual/Forest.antt =====
-- The parent map as a forest: what `find` returns, and what `union` joins.
use Prim.Native.Nat.{max}
use choix.Base.{
  ℕ, zero, suc, ◌+◌, ◌≤◌, ◌<◌, ◌≡◌, refl, sym, ◌≢◌, ◌⊎◌, inl, inr, ◌==◌, arith, if◌then◌else◌,
  Bool-cases, ==_iff,
}
use choix.Base.Maps.{update}
use choix.Group.Visual.{find, union}

-- `root` is the root of each node; `rank` grows along every parent link, up to `bound`.
pub record IsForest (parent root rank : ℕ → ℕ) (bound : ℕ) : Type 0 where
  pub up : (x : ℕ) → (parent x ≡ x) ⊎ (rank x < rank (parent x))
  pub same : (x : ℕ) → root (parent x) ≡ root x
  pub fixed : (x : ℕ) → parent x ≡ x → root x ≡ x
  pub top : (x : ℕ) → parent (root x) ≡ root x
  pub rise : (x : ℕ) → (root x ≡ x) ⊎ (rank x < rank (root x))
  pub bounded : (x : ℕ) → rank x ≤ bound

module _ {parent root rank : ℕ → ℕ} {bound : ℕ} (f : IsForest parent root rank bound) where
  pub root_idem : (x : ℕ) → root (root x) ≡ root x
  root_idem x = f.fixed (root x) (f.top x)

  compress-IsForest : (x : ℕ) → IsForest (update parent x (root x)) root rank bound
  compress-IsForest x = record {
    up = λ y. ground (arith, f.up y, f.rise x);
    same = λ y. ground (arith, f.same y, root_idem x);
    fixed = λ y. ground (arith, f.fixed y);
    top = λ y. ground (arith, f.top y, root_idem y);
    rise = f.rise;
    bounded = f.bounded;
  }

-- With fuel for the path that is left, `find` returns the root and keeps the forest.
pub find_lem :
    (fuel : ℕ) {parent root rank : ℕ → ℕ} {bound : ℕ} (x : ℕ)
    → IsForest parent root rank bound
    → bound < fuel + rank x
    → ((find fuel parent x).0 ≡ root x) × IsForest (find fuel parent x).1 root rank bound
unfolding find
find_lem zero x f h = absurd (omega (arith, f.bounded x))
find_lem (suc fuel) {parent} {root} {rank} {bound} x f h = elim (f.up x) [
  | inl e ↦ rw ((==_iff (parent x) x).1 e) (sym (f.fixed x e), f)
  | inr lt ↦
      let (e, g) = find_lem fuel (parent x) f (omega arith) in
      elim (Bool-cases (parent x == x)) [
        | inl t ↦ rw t (sym (f.fixed x ((==_iff (parent x) x).0 t)), f)
        | inr t ↦ rw (t, e, f.same x) (refl, compress-IsForest g x)
      ]
]

-- What `union` of `a` and `b` leaves behind.
pub record Joined (root after : ℕ → ℕ) (a b : ℕ) : Type 0 where
  pub joins : after a ≡ after b
  pub keeps : (x y : ℕ) → root x ≡ root y → after x ≡ after y
  pub only :
      (x y : ℕ)
      → after x ≡ after y
      → (root x ≡ root y)
        ⊎ ((root x ≡ root a) × (root y ≡ root b))
        ⊎ ((root x ≡ root b) × (root y ≡ root a))

merge : (ℕ → ℕ) → ℕ → ℕ → (ℕ → ℕ)
merge root ra rb x = if root x == ra then rb else root x

raise : (ℕ → ℕ) → ℕ → ℕ → (ℕ → ℕ)
raise rank ra rb x = if x == rb then max (rank rb) (suc (rank ra)) else rank x

Joined-merge : (root : ℕ → ℕ) (a b : ℕ) → Joined root (merge root (root a) (root b)) a b
unfolding merge
Joined-merge root a b = record {
  joins = ground arith;
  keeps = λ x y e. ground arith;
  only = λ x y e. ground arith;
}

module _ {parent root rank : ℕ → ℕ} {bound : ℕ} (f : IsForest parent root rank bound) (s t : ℕ)
    (s_root : parent s ≡ s) (t_root : parent t ≡ t) (distinct : s ≢ t) where
  link-IsForest : IsForest (update parent s t) (merge root s t) (raise rank s t) (suc bound)
  unfolding merge raise
  link-IsForest = record {
    up = λ y. ground (arith, f.up y);
    same = λ y. ground (arith, f.same y, f.fixed s s_root, f.fixed t t_root);
    fixed = λ y. ground (arith, f.fixed y);
    top = λ y. ground (arith, f.top y, f.fixed s s_root, f.fixed t t_root);
    rise = λ y. ground (arith, f.rise y, f.fixed s s_root, f.fixed t t_root);
    bounded = λ y. ground (arith, f.bounded y, f.bounded s);
  }

-- The forest after `union`, one rank higher at most.
pub record Union (parent root : ℕ → ℕ) (bound : ℕ) (a b : ℕ) : Type 0 where
  pub after : ℕ → ℕ
  pub rank : ℕ → ℕ
  pub forest : IsForest parent after rank (suc bound)
  pub joined : Joined root after a b

pub weaken :
    {parent root rank : ℕ → ℕ} {bound limit : ℕ}
    → bound ≤ limit
    → IsForest parent root rank bound
    → IsForest parent root rank limit
weaken le f = record {
  up = f.up;
  same = f.same;
  fixed = f.fixed;
  top = f.top;
  rise = f.rise;
  bounded = λ x. omega (arith, f.bounded x);
}

pub union_lem :
    (fuel : ℕ) {parent root rank : ℕ → ℕ} {bound : ℕ} (a b : ℕ)
    → IsForest parent root rank bound
    → bound < fuel
    → Union (union fuel parent a b) root bound a b
unfolding union
union_lem fuel {parent = parent} {root = root} {rank = rank} a b f h =
    let (ea, g) = find_lem fuel a f (omega arith) in
    let (eb, k) = find_lem fuel b g (omega arith) in
    elim (Bool-cases (root a == root b)) [
      | inl t ↦
          let e : root a ≡ root b = (==_iff (root a) (root b)).0 t in
          rw (ea, eb, t)
            (record {
              after = root;
              rank = rank;
              forest = weaken (omega arith) k;
              joined = record { joins = e; keeps = λ x y q. q; only = λ x y q. inl q };
            })
      | inr t ↦
          rw (ea, eb, t)
            (record {
              after = merge root (root a) (root b);
              rank = raise rank (root a) (root b);
              forest = link-IsForest k (root a) (root b) (k.top a) (k.top b) (λ e. ground arith);
              joined = Joined-merge root a b;
            })
    ]
