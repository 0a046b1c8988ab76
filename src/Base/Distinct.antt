-- ===== src/Base/Distinct.antt =====
-- Lists that hold no item twice.
use Prim.Native.Nat.{◌≤◌}
use native.Mathlib.Omega.{arith}
use mathlib.Core.Path.{◌≡◌, sym, ap, subst, ◌∙◌}
use mathlib.Core.Logic.{inl, inr, ∥∥₁_elim}
use mathlib.Core.HLevel.{×_prop, ¬_prop}
use mathlib.Core.List.{List, [], ◌∷◌, ◌++◌, Perm, Permᴰ}
use choix.Base.Lists.{
  In, In-append_left, In-append_right, In-append_cases, All, All-of_In, All-In, length,
  length-append,
}
use choix.Base.Perms.{In-of-permᴰ}

module _ {A : Type 0} where
  abbrev pub Distinct : List A → Type 0
  Distinct [] = Unit
  Distinct (x ∷ xs) = (¬ In x xs) × Distinct xs

  Distinct-prop : (xs : List A) → IsProp (Distinct xs)
  Distinct-prop [] = hlevel
  Distinct-prop (x ∷ xs) = ×_prop ¬_prop (Distinct-prop xs)

  pub Distinct-append_left : (xs ys : List A) → Distinct (xs ++ ys) → Distinct xs
  Distinct-append_left [] ys h = tt
  Distinct-append_left (x ∷ xs) ys h =
      (λ m. h.0 (In-append_left x xs ys m), Distinct-append_left xs ys h.1)

  pub Distinct-append_right : (xs ys : List A) → Distinct (xs ++ ys) → Distinct ys
  Distinct-append_right [] ys h = h
  Distinct-append_right (x ∷ xs) ys h = Distinct-append_right xs ys h.1

  Distinct-permᴰ : {xs ys : List A} → Permᴰ xs ys → Distinct xs → Distinct ys
  Distinct-permᴰ Permᴰ.nil h = tt
  Distinct-permᴰ (Permᴰ.cons {b = b} e p) h =
      (λ m. h.0 (rw e (In-of-permᴰ b p m)), Distinct-permᴰ p h.1)
  Distinct-permᴰ (Permᴰ.swap {l = l} e f) h = (
    elim [ inl q ↦ h.0 (inl (e ∙ sym q ∙ sym f)) | inr m ↦ h.1.0 (subst (λ z. In z l) (sym f) m) ],
    (λ m. h.0 (inr (subst (λ z. In z l) (sym e) m)), h.1.1),
  )
  Distinct-permᴰ (Permᴰ.trans p q) h = Distinct-permᴰ q (Distinct-permᴰ p h)

  pub Distinct-perm : (xs ys : List A) → Perm xs ys → Distinct xs → Distinct ys
  Distinct-perm xs ys p h = ∥∥₁_elim p (Distinct-prop ys) (λ q. Distinct-permᴰ q h)

  pub Distinct-snoc : (x : A) (xs : List A) → ¬ In x xs → Distinct xs → Distinct (xs ++ x ∷ [])
  Distinct-snoc x [] n h = (λ m. m, tt)
  Distinct-snoc x (y ∷ ys) n h = (
    λ m. elim (In-append_cases y ys (x ∷ []) m) [
      | inl k ↦ h.0 k
      | inr (inl e) ↦ n (inl (sym e))
      | inr (inr k) ↦ k
    ],
    Distinct-snoc x ys (λ m. n (inr m)) h.1,
  )

  split_at_In : (a : A) (ys : List A) → In a ys → (l : List A) × (r : List A) × (ys ≡ l ++ a ∷ r)
  split_at_In a [] m = absurd m
  split_at_In a (y ∷ ys) (inl e) = ([], ys, ap (λ z. z ∷ ys) (sym e))
  split_at_In a (y ∷ ys) (inr m) =
      let (l, r, e) = split_at_In a ys m in (y ∷ l, r, ap (λ z. y ∷ z) e)

  -- Items that are all different and all in a list are not more than the list has.
  pub Distinct-length-le :
      (xs ys : List A) → Distinct xs → All (λ a. In a ys) xs → length xs ≤ length ys
  Distinct-length-le [] ys d h = omega arith
  Distinct-length-le (x ∷ xs) ys d h =
      let (l, r, e) = split_at_In x ys h.0 in
      let others : (a : A) → In a xs → In a (l ++ r) = λ a m.
        elim (In-append_cases a l (x ∷ r) (subst (In a) e (All-In (λ b. In b ys) a xs h.1 m))) [
          | inl k ↦ In-append_left a l r k
          | inr (inl q) ↦ absurd (d.0 (subst (λ z. In z xs) q m))
          | inr (inr k) ↦ In-append_right a l r k
        ] in
      let rest = Distinct-length-le xs (l ++ r) d.1 (All-of_In (λ a. In a (l ++ r)) xs others) in
      omega (arith, rest, ap length e, length-append l r, length-append l (x ∷ r))
