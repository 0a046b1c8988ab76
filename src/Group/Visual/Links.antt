-- ===== src/Group/Visual/Links.antt =====
-- The pair loops: afterwards two ids have one root exactly when similar pairs connect them.
use choix.Base.{
  ℕ, suc, ◌+◌, ◌≤◌, ◌<◌, ◌≡◌, sym, ◌∙◌, inl, inr, Bool, true, List, [], ◌∷◌, arith, length, All, In,
  Bool-cases, All-imp, if◌then◌else◌,
}
use mathlib.Core.Bool.{false≢true}
use choix.Group.Visual.{union, link_row, link_all, pairs}
use choix.Group.Visual.Forest.{IsForest, union_lem, weaken}

-- The equivalence that a relation generates.
pub data Linked (E : ℕ → ℕ → Type 0) : ℕ → ℕ → Type 0 where
  here : (x : ℕ) → Linked E x x
  edge : {x y : ℕ} → E x y → Linked E x y
  back : {x y : ℕ} → Linked E x y → Linked E y x
  join : {x y z : ℕ} → Linked E x y → Linked E y z → Linked E x z

-- A pair of ids, the smaller one first, whose similarity passes the threshold.
abbrev pub Similar : (ℕ → ℕ → Bool) → List ℕ → ℕ → ℕ → Type 0
Similar similar ids x y = (x < y) × In x ids × In y ids × (similar x y ≡ true)

-- Each id with the similar ids behind it has one root.
abbrev pub Joins : (ℕ → ℕ → Bool) → (ℕ → ℕ) → List ℕ → Type 0
Joins similar root [] = Unit
Joins similar root (i ∷ is) =
    All (λ j. similar i j ≡ true → root i ≡ root j) is × Joins similar root is

-- The ids are in the domain, and similar pairs are related.
abbrev pub Given : (ℕ → ℕ → Bool) → (ℕ → Type 0) → (ℕ → ℕ → Type 0) → List ℕ → Type 0
Given similar D R [] = Unit
Given similar D R (i ∷ is) =
    D i × All (λ j. D j × (similar i j ≡ true → R i j)) is × Given similar D R is

module _ (similar : ℕ → ℕ → Bool) (fuel : ℕ) (D : ℕ → Type 0) (R : ℕ → ℕ → Type 0)
    (R_back : (x y : ℕ) → R x y → R y x) (R_join : (x y z : ℕ) → R x y → R y z → R x z) where
  -- Ids with one root are related.
  abbrev pub Sound : (ℕ → ℕ) → Type 0
  Sound root = (x y : ℕ) → D x → D y → root x ≡ root y → R x y

  record Pair (parent root : ℕ → ℕ) (bound : ℕ) (i j : ℕ) : Type 0 where
    after : ℕ → ℕ
    rank : ℕ → ℕ
    forest : IsForest parent after rank bound
    keeps : (x y : ℕ) → root x ≡ root y → after x ≡ after y
    joins : similar i j ≡ true → after i ≡ after j
    sound : Sound after

  pair_lem :
      (i j : ℕ) {parent root rank : ℕ → ℕ} {bound : ℕ}
      → IsForest parent root rank bound
      → bound < fuel
      → D i
      → D j
      → (similar i j ≡ true → R i j)
      → Sound root
      → Pair (if similar i j then union fuel parent i j else parent) root (suc bound) i j
  pair_lem i j {root = root} {rank = rank} f h di dj r s = elim (Bool-cases (similar i j)) [
    | inl e ↦
        let u = union_lem fuel i j f h in
        let k = u.joined in
        let rij = r e in
        rw e (record {
          after = u.after;
          rank = u.rank;
          forest = u.forest;
          keeps = k.keeps;
          joins = λ _. k.joins;
          sound = λ x y dx dy q. elim (k.only x y q) [
            | inl same ↦ s x y dx dy same
            | inr (inl (p, q')) ↦
                R_join x i y (s x i dx di p) (R_join i j y rij (s j y dj dy (sym q')))
            | inr (inr (p, q')) ↦
                R_join x j y (s x j dx dj p) (R_join j i y (R_back i j rij) (s i y di dy (sym q')))
          ];
        })
    | inr e ↦ rw e (record {
      after = root;
      rank = rank;
      forest = weaken (omega arith) f;
      keeps = λ x y q. q;
      joins = λ t. absurd (false≢true (sym e ∙ t));
      sound = s;
    })
  ]

  record Row (parent root : ℕ → ℕ) (limit : ℕ) (i : ℕ) (js : List ℕ) : Type 0 where
    after : ℕ → ℕ
    rank : ℕ → ℕ
    forest : IsForest parent after rank limit
    keeps : (x y : ℕ) → root x ≡ root y → after x ≡ after y
    done : All (λ j. similar i j ≡ true → after i ≡ after j) js
    sound : Sound after

  link_row_lem :
      (i : ℕ) (js : List ℕ) {parent root rank : ℕ → ℕ} {bound limit : ℕ}
      → IsForest parent root rank bound
      → bound + length js ≤ limit
      → limit < fuel
      → D i
      → All (λ j. D j × (similar i j ≡ true → R i j)) js
      → Sound root
      → Row (link_row similar fuel i js parent) root limit i js
  unfolding link_row
  link_row_lem i [] {root = root} {rank = rank} f h lt di ds s = record {
    after = root;
    rank = rank;
    forest = weaken (omega arith) f;
    keeps = λ x y e. e;
    done = tt;
    sound = s;
  }
  link_row_lem i (j ∷ js) f h lt di ds s =
      let p = pair_lem i j f (omega arith) di ds.0.0 ds.0.1 s in
      let r = link_row_lem i js p.forest (omega arith) lt di ds.1 p.sound in
      record {
        after = r.after;
        rank = r.rank;
        forest = r.forest;
        keeps = λ x y e. r.keeps x y (p.keeps x y e);
        done = (λ t. r.keeps i j (p.joins t), r.done);
        sound = r.sound;
      }

  pub record Network (parent root : ℕ → ℕ) (limit : ℕ) (is : List ℕ) : Type 0 where
    pub after : ℕ → ℕ
    pub rank : ℕ → ℕ
    pub forest : IsForest parent after rank limit
    pub keeps : (x y : ℕ) → root x ≡ root y → after x ≡ after y
    pub done : Joins similar after is
    pub sound : Sound after

  pub link_all_lem :
      (is : List ℕ) {parent root rank : ℕ → ℕ} {bound limit : ℕ}
      → IsForest parent root rank bound
      → bound + pairs is ≤ limit
      → limit < fuel
      → Given similar D R is
      → Sound root
      → Network (link_all similar fuel is parent) root limit is
  unfolding link_all
  link_all_lem [] {root = root} {rank = rank} f h lt g s = record {
    after = root;
    rank = rank;
    forest = weaken (omega arith) f;
    keeps = λ x y e. e;
    done = tt;
    sound = s;
  }
  link_all_lem (i ∷ is) {bound = bound} f h lt g s =
      let r =
        link_row_lem i is {limit = bound + length is} f (omega arith) (omega arith) g.0 g.1 s in
      let n = link_all_lem is r.forest (omega arith) lt g.2 r.sound in
      record {
        after = n.after;
        rank = n.rank;
        forest = n.forest;
        keeps = λ x y e. n.keeps x y (r.keeps x y e);
        done = (All-imp is (λ j q t. n.keeps i j (q t)) r.done, n.done);
        sound = n.sound;
      }
