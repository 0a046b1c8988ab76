-- ===== src/Group/Walk/Runs.antt =====
-- The maximal runs of close shots.
use choix.Base.{
  Option, some, none, List, [], ◌∷◌, if◌then◌else◌, Bool, true, false, not, ◌≡◌, refl, sym, ap, ◌∙◌,
  concat, inl, inr, Bool-cases,
}
use choix.Base.Int.{ℤ, ◌-ℤ◌, ltb_ℤ}

module _ {A : Type 0} (bucket_sec : ℤ) (captured_at : A → Option ℤ) where
  -- Both shots have a time, and the later one follows within the bucket width.
  unfoldable pub close : A → A → Bool
  close f g = elim (captured_at f) [
    | none ↦ false
    | some t ↦ elim (captured_at g) [ none ↦ false | some u ↦ not (ltb_ℤ bucket_sec (u -ℤ t)) ]
  ]

  unfoldable pub attach : A → List (List A) → List (List A)
  attach x [] = (x ∷ []) ∷ []
  attach x ([] ∷ rs) = (x ∷ []) ∷ rs
  attach x ((y ∷ r) ∷ rs) = if close x y then (x ∷ y ∷ r) ∷ rs else (x ∷ []) ∷ (y ∷ r) ∷ rs

  -- The list cut wherever two neighbours are not close.
  unfoldable pub runs : List A → List (List A)
  unfolding attach
  runs [] = []
  runs (x ∷ xs) = attach x (runs xs)

  abbrev pub start_of : List A → Option ℤ
  start_of [] = none
  start_of (x ∷ xs) = captured_at x

  pub runs-nil : runs [] ≡ []
  unfolding runs
  runs-nil = refl

  pub runs-single : (x : A) → runs (x ∷ []) ≡ (x ∷ []) ∷ []
  unfolding runs
  runs-single x = refl

  pub runs_head :
      (x : A) (xs : List A) → (r : List A) × (rs : List (List A)) × (runs (x ∷ xs) ≡ (x ∷ r) ∷ rs)
  unfolding runs
  runs_head x xs = attach_head x (runs xs)
    where
      attach_head :
          (x : A) (rs : List (List A))
          → (r : List A) × (rs' : List (List A)) × (attach x rs ≡ (x ∷ r) ∷ rs')
      attach_head x [] = ([], [], refl)
      attach_head x ([] ∷ rs) = ([], rs, refl)
      attach_head x ((y ∷ r) ∷ rs) = elim (Bool-cases (close x y)) [
        | inl e ↦ (y ∷ r, rs, rw e)
        | inr e ↦ ([], (y ∷ r) ∷ rs, rw e)
      ]

  pub attach_far :
      (x y : A) (xs : List A) → close x y ≡ false → runs (x ∷ y ∷ xs) ≡ (x ∷ []) ∷ runs (y ∷ xs)
  unfolding runs
  attach_far x y xs e =
      let (r, rs, q) = runs_head y xs in
      let far : attach x ((y ∷ r) ∷ rs) ≡ (x ∷ []) ∷ (y ∷ r) ∷ rs = rw e in
      ap (attach x) q ∙ far ∙ ap (◌∷◌ (x ∷ [])) (sym q)

  pub attach_untimed :
      (x : A) (xs : List A) → captured_at x ≡ none → runs (x ∷ xs) ≡ (x ∷ []) ∷ runs xs
  unfolding runs close
  attach_untimed x [] e = refl
  attach_untimed x (y ∷ ys) e = attach_far x y ys (rw (e, close))

  pub attach_near :
      (x y : A) (xs r : List A) (rs : List (List A))
      → close x y ≡ true
      → runs (y ∷ xs) ≡ (y ∷ r) ∷ rs
      → runs (x ∷ y ∷ xs) ≡ (x ∷ y ∷ r) ∷ rs
  unfolding runs
  attach_near x y xs r rs e q =
      let near : attach x ((y ∷ r) ∷ rs) ≡ (x ∷ y ∷ r) ∷ rs = rw e in ap (attach x) q ∙ near

  pub concat-runs : (xs : List A) → concat (runs xs) ≡ xs
  unfolding runs
  concat-runs [] = refl
  concat-runs (x ∷ xs) = attach-concat x (runs xs) ∙ ap (◌∷◌ x) (concat-runs xs)
    where
      attach-concat : (x : A) (rs : List (List A)) → concat (attach x rs) ≡ x ∷ concat rs
      attach-concat x [] = refl
      attach-concat x ([] ∷ rs) = refl
      attach-concat x ((y ∷ r) ∷ rs) = elim (Bool-cases (close x y)) [ inl e ↦ rw e | inr e ↦ rw e ]
