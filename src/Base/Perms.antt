-- ===== src/Base/Perms.antt =====
-- Permutations: what they keep, and flattened lists.
use mathlib.Core.Path.{◌≡◌, refl, sym, ap, ◌∙◌}
use mathlib.Core.Logic.{inl, inr, ∥∥₁_elim}
use mathlib.Core.HLevel.{⊥_prop}
use mathlib.Core.List.{
  List, [], ◌∷◌, ◌++◌, map, Perm, Permᴰ, append_assoc, perm_append_comm, Perm-prop,
}
use mathlib.Core.List.Perm
use native.Mathlib.Decide.{ℕ_discrete}
use Prim.Native.Nat.{ℕ}
use choix.Base.Lists.{In, concat}

module _ {A : Type 0} (d : Discrete A) where
  pub dec_In : (a : A) (xs : List A) → Dec (In a xs)
  dec_In a [] = no (λ m. m)
  dec_In a (x ∷ xs) = elim (d a x) [
    | yes e ↦ yes (inl e)
    | no n ↦ elim (dec_In a xs) [
      | yes m ↦ yes (inr m)
      | no k ↦ no (elim [ inl e ↦ n e | inr m ↦ k m ])
    ]
  ]

In-permᴰ : {A : Type 0} (a : A) {xs ys : List A} → Permᴰ xs ys → In a xs → In a ys
In-permᴰ a Permᴰ.nil m = m
In-permᴰ a (Permᴰ.cons e p) (inl q) = inl (q ∙ e)
In-permᴰ a (Permᴰ.cons e p) (inr m) = inr (In-permᴰ a p m)
In-permᴰ a (Permᴰ.swap e f) (inl q) = inr (inl (q ∙ e))
In-permᴰ a (Permᴰ.swap e f) (inr (inl q)) = inl (q ∙ f)
In-permᴰ a (Permᴰ.swap e f) (inr (inr m)) = inr (inr m)
In-permᴰ a (Permᴰ.trans p q) m = In-permᴰ a q (In-permᴰ a p m)

pub In-of-permᴰ : {A : Type 0} (a : A) {xs ys : List A} → Permᴰ xs ys → In a ys → In a xs
In-of-permᴰ a Permᴰ.nil m = m
In-of-permᴰ a (Permᴰ.cons e p) (inl q) = inl (q ∙ sym e)
In-of-permᴰ a (Permᴰ.cons e p) (inr m) = inr (In-of-permᴰ a p m)
In-of-permᴰ a (Permᴰ.swap e f) (inl q) = inr (inl (q ∙ sym f))
In-of-permᴰ a (Permᴰ.swap e f) (inr (inl q)) = inl (q ∙ sym e)
In-of-permᴰ a (Permᴰ.swap e f) (inr (inr m)) = inr (inr m)
In-of-permᴰ a (Permᴰ.trans p q) m = In-of-permᴰ a p (In-of-permᴰ a q m)

pub In-perm :
    {A : Type 0} (d : Discrete A) (a : A) (xs ys : List A) → Perm xs ys → In a xs → In a ys
In-perm d a xs ys p m = elim (dec_In d a ys) [
  | yes k ↦ k
  | no n ↦ absurd (∥∥₁_elim p ⊥_prop (λ q. n (In-permᴰ a q m)))
]

pub In-perm_ids : (a : ℕ) (xs ys : List ℕ) → Perm xs ys → In a xs → In a ys
In-perm_ids = In-perm ℕ_discrete

module _ {A : Type 0} where
  swap_front : (xs ys zs : List A) → Perm (xs ++ (ys ++ zs)) (ys ++ (xs ++ zs))
  swap_front xs ys zs =
      rw (← append_assoc xs ys zs, ← append_assoc ys xs zs)
        (Perm.append_right zs (perm_append_comm xs ys))

  concat-permᴰ : {xss yss : List (List A)} → Permᴰ xss yss → Perm (concat xss) (concat yss)
  concat-permᴰ Permᴰ.nil = Perm.rfl
  concat-permᴰ (Permᴰ.cons {a = a} e p) = rw (← e) (Perm.append_left a (concat-permᴰ p))
  concat-permᴰ (Permᴰ.swap {a = a} {b = b} {l = l} e f) = rw (← e, ← f) (swap_front a b (concat l))
  concat-permᴰ (Permᴰ.trans p q) = Perm.trans (concat-permᴰ p) (concat-permᴰ q)

  pub concat-perm : {xss yss : List (List A)} → Perm xss yss → Perm (concat xss) (concat yss)
  concat-perm p = ∥∥₁_elim p Perm-prop concat-permᴰ

  pub In-map : {B : Type 0} (f : A → B) (a : A) (xs : List A) → In a xs → In (f a) (map f xs)
  In-map f a [] m = absurd m
  In-map f a (x ∷ xs) (inl e) = inl (ap f e)
  In-map f a (x ∷ xs) (inr m) = inr (In-map f a xs m)

  pub In-map_cases :
      {B : Type 0} (f : A → B) (b : B) (xs : List A)
      → In b (map f xs)
      → (a : A) × In a xs × (b ≡ f a)
  In-map_cases f b [] m = absurd m
  In-map_cases f b (x ∷ xs) (inl e) = (x, inl refl, e)
  In-map_cases f b (x ∷ xs) (inr m) = let (a, h, e) = In-map_cases f b xs m in (a, inr h, e)

  -- Lists that are permutations item by item flatten to permutations.
  pub concat-map_perm :
      {B : Type 0} (f g : A → List B)
      → ((a : A) → Perm (f a) (g a))
      → (xs : List A) → Perm (concat (map f xs)) (concat (map g xs))
  concat-map_perm f g h [] = Perm.rfl
  concat-map_perm f g h (x ∷ xs) = Perm.append (h x) (concat-map_perm f g h xs)
