-- ===== src/Group/Skew/Median.antt =====
-- medianInt64: total on a non-empty list, and within the bounds of its items.
use choix.Base.{
  ℕ, suc, zero, ◌-◌, ◌/◌, ◌%◌, ◌<◌, List, [], ◌∷◌, ◌≡◌, ◌≢◌, refl, some, arith, All, inl, inr,
  Bool-cases, length, get_elem?, ◌==◌,
}
use choix.Base.Int.{ℤ, ◌≤ℤ◌, ◌+ℤ◌, ◌-ℤ◌, ltb_ℤ}
use choix.Base.Sort.{sort_by-All, length-sort_by}
use choix.Group.Skew.{half, median, sort_ints}

module _ (lo hi : ℤ) where
  abbrev pub Within : ℤ → Type 0
  Within x = (lo ≤ℤ x) × (x ≤ℤ hi)

  nth_Within :
      (xs : List ℤ) (i : ℕ)
      → All Within xs
      → i < length xs
      → (x : ℤ) × (get_elem? xs i ≡ some x) × Within x
  nth_Within [] i h lt = absurd (omega arith)
  nth_Within (x ∷ xs) zero h lt = (x, refl, h.0)
  nth_Within (x ∷ xs) (suc i) h lt = nth_Within xs i h.1 (omega arith)

  half-Within : (a b : ℤ) → Within a → Within b → Within (half (a +ℤ b))
  unfolding half ◌+ℤ◌ ◌-ℤ◌
  half-Within a b h k = ground arith

  -- The median of a non-empty list exists, and lies between any bounds of the items.
  pub median-Within :
      (xs : List ℤ) → xs ≢ [] → All Within xs → (m : ℤ) × (median xs ≡ some m) × Within m
  unfolding median
  median-Within [] ne h = absurd (ne refl)
  median-Within (x ∷ xs) ne h =
      let ys = x ∷ xs in
      let s = sort_ints ys in
      let hs = sort_by-All ltb_ℤ Within ys h in
      let len = length-sort_by ltb_ℤ ys in
      let (b, eb, hb) = nth_Within s (length ys / 2) hs (omega (arith, len)) in
      elim (Bool-cases (length ys % 2 == 1)) [
        | inl t ↦ (b, rw (t, eb), hb)
        | inr t ↦
            let (a, ea, ha) = nth_Within s (length ys / 2 - 1) hs (omega (arith, len)) in
            (half (a +ℤ b), rw (t, ea, eb), half-Within a b ha hb)
      ]
