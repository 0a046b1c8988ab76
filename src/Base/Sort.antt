-- ===== src/Base/Sort.antt =====
-- Go's sort.Slice, sort.SliceStable and sort.Strings over a Boolean `less`: a stable insertion
-- sort. Where `less` is a total order up to equality the result does not depend on the method.
use mathlib.Core.Path.{◌≡◌, refl}
use mathlib.Core.Bool.{Bool, true, false}
use mathlib.Core.List.{List, [], ◌∷◌, ◌++◌, Perm}
use mathlib.Core.List.Perm
use mathlib.Core.Logic.{inl, inr}
use choix.Base.Tests.{if◌then◌else◌, Bool-cases}
use Prim.Native.Nat.{suc}
use native.Mathlib.Omega.{arith}
use choix.Base.Lists.{All, All-imp, length}

module _ {A : Type 0} (less : A → A → Bool) where
  unfoldable pub insert_by : A → List A → List A
  insert_by x [] = x ∷ []
  insert_by x (y ∷ ys) = if less y x then y ∷ insert_by x ys else x ∷ y ∷ ys

  unfoldable pub sort_by : List A → List A
  unfolding insert_by
  sort_by [] = []
  sort_by (x ∷ xs) = insert_by x (sort_by xs)

  -- No later item is less than an earlier one.
  abbrev pub Sorted : List A → Type 0
  Sorted [] = Unit
  Sorted (x ∷ xs) = All (λ y. less y x ≡ false) xs × Sorted xs

  pub insert_by-perm : (x : A) (xs : List A) → Perm (insert_by x xs) (x ∷ xs)
  unfolding insert_by
  insert_by-perm x [] = Perm.rfl
  insert_by-perm x (y ∷ ys) = elim (Bool-cases (less y x)) [
    | inl e ↦ rw e (Perm.trans (Perm.cons y (insert_by-perm x ys)) (Perm.swap x y ys))
    | inr e ↦ rw e Perm.rfl
  ]

  pub sort_by-perm : (xs : List A) → Perm (sort_by xs) xs
  unfolding sort_by
  sort_by-perm [] = Perm.rfl
  sort_by-perm (x ∷ xs) = Perm.trans (insert_by-perm x (sort_by xs)) (Perm.cons x (sort_by-perm xs))

  insert_by-All : (P : A → Type 0) (x : A) (xs : List A) → P x → All P xs → All P (insert_by x xs)
  unfolding insert_by
  insert_by-All P x [] h hs = (h, tt)
  insert_by-All P x (y ∷ ys) h hs = elim (Bool-cases (less y x)) [
    | inl e ↦ rw e (hs.0, insert_by-All P x ys h hs.1)
    | inr e ↦ rw e (h, hs)
  ]

  pub sort_by-All : (P : A → Type 0) (xs : List A) → All P xs → All P (sort_by xs)
  unfolding sort_by
  sort_by-All P [] h = tt
  sort_by-All P (x ∷ xs) h = insert_by-All P x (sort_by xs) h.0 (sort_by-All P xs h.1)

  module _ (asym : (x y : A) → less x y ≡ true → less y x ≡ false)
      (trans : (x y z : A) → less y x ≡ false → less z y ≡ false → less z x ≡ false) where
    insert_by-Sorted : (x : A) (xs : List A) → Sorted xs → Sorted (insert_by x xs)
    unfolding insert_by
    insert_by-Sorted x [] s = (tt, tt)
    insert_by-Sorted x (y ∷ ys) s = elim (Bool-cases (less y x)) [
      | inl e ↦
          rw e
            (insert_by-All (λ z. less z y ≡ false) x ys (asym y x e) s.0, insert_by-Sorted x ys s.1)
      | inr e ↦ rw e ((e, All-imp ys (λ z h. trans x y z e h) s.0), s)
    ]

    pub sort_by-Sorted : (xs : List A) → Sorted (sort_by xs)
    unfolding sort_by
    sort_by-Sorted [] = tt
    sort_by-Sorted (x ∷ xs) = insert_by-Sorted x (sort_by xs) (sort_by-Sorted xs)

  insert_by-append :
      (x z : A) (xs : List A)
      → less z x ≡ false
      → insert_by x (xs ++ z ∷ []) ≡ insert_by x xs ++ z ∷ []
  unfolding insert_by
  insert_by-append x z [] h = rw h
  insert_by-append x z (y ∷ ys) h = elim (Bool-cases (less y x)) [
    | inl e ↦ rw (e, insert_by-append x z ys h)
    | inr e ↦ rw e
  ]

  -- An item that is less than no other may be added at the end.
  pub sort_by-append :
      (z : A) (xs : List A)
      → All (λ x. less z x ≡ false) xs
      → sort_by (xs ++ z ∷ []) ≡ sort_by xs ++ z ∷ []
  unfolding sort_by insert_by
  sort_by-append z [] h = refl
  sort_by-append z (x ∷ xs) h = rw (sort_by-append z xs h.1) (insert_by-append x z (sort_by xs) h.0)

  -- What is in order already stays as it is.
  pub sort_by_id : (xs : List A) → Sorted xs → sort_by xs ≡ xs
  unfolding sort_by
  sort_by_id [] s = refl
  sort_by_id (x ∷ xs) s = rw (sort_by_id xs s.1) (front x xs s.0)
    where
      front : (x : A) (xs : List A) → All (λ y. less y x ≡ false) xs → insert_by x xs ≡ x ∷ xs
      front x [] h = refl
      front x (y ∷ ys) h = rw (h.0)

  length-insert_by : (x : A) (xs : List A) → length (insert_by x xs) ≡ suc (length xs)
  unfolding insert_by
  length-insert_by x [] = refl
  length-insert_by x (y ∷ ys) = ground (arith, length-insert_by x ys)

  pub length-sort_by : (xs : List A) → length (sort_by xs) ≡ length xs
  unfolding sort_by
  length-sort_by [] = refl
  length-sort_by (x ∷ xs) = omega (arith, length-insert_by x (sort_by xs), length-sort_by xs)
