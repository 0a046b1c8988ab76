-- ===== src/Picks/Disk.antt =====
-- The files of a disk, by their paths.
use Prim.Native.String.{String}
use text.Mathlib.Text.{◌==◌ as str_eq}
use text.Mathlib.TextEquality.{eq_iff}
use text.Mathlib.TextPositions.{eq_refl}
use choix.Base.{
  Option, some, none, List, [], ◌∷◌, if◌then◌else◌, true, false, ◌≡◌, refl, sym, ap, ◌∙◌, ◌≢◌,
  arith, map, In, inl, inr, Bool-cases,
}

pub str_eq_of_eq : (s t : String) → s ≡ t → str_eq s t ≡ true
str_eq_of_eq s t e = ap (λ z. str_eq s z) (sym e) ∙ eq_refl s

pub str_eq-of_ne : (s t : String) → s ≢ t → str_eq s t ≡ false
str_eq-of_ne s t n = elim (Bool-cases (str_eq s t)) [
  | inl e ↦ absurd (n ((eq_iff s t).0 e))
  | inr e ↦ e
]

module _ {C : Type 0} where
  unfoldable pub read : String → List (String × C) → Option C
  read p [] = none
  read p ((q, c) ∷ files) = if str_eq q p then some c else read p files

  unfoldable pub write : String → C → List (String × C) → List (String × C)
  write p c [] = (p, c) ∷ []
  write p c ((q, b) ∷ files) = if str_eq q p then (p, c) ∷ files else (q, b) ∷ write p c files

  unfoldable pub erase : String → List (String × C) → List (String × C)
  erase p [] = []
  erase p ((q, c) ∷ files) = let rest = erase p files in if str_eq q p then rest else (q, c) ∷ rest

  pub read-write : (p : String) (c : C) (d : List (String × C)) → read p (write p c d) ≡ some c
  unfolding read write
  read-write p c [] = rw (eq_refl p) refl
  read-write p c ((q, b) ∷ d) = ground (arith, eq_refl p, read-write p c d)

  pub read-write_other :
      (p o : String) (c : C) (d : List (String × C)) → o ≢ p → read o (write p c d) ≡ read o d
  unfolding read write
  read-write_other p o c [] n = rw (str_eq-of_ne p o (λ e. n (sym e))) refl
  read-write_other p o c ((q, b) ∷ d) n = elim (Bool-cases (str_eq q p)) [
    | inl t ↦
        let e = (eq_iff q p).0 t in
        rw t
          (rw (str_eq-of_ne p o (λ e'. n (sym e')), str_eq-of_ne q o (λ e'. n (sym e' ∙ e))) refl)
    | inr t ↦ rw t (ap (λ z. if str_eq q o then some b else z) (read-write_other p o c d n))
  ]

  pub read-erase : (p : String) (d : List (String × C)) → read p (erase p d) ≡ none
  unfolding read erase
  read-erase p [] = refl
  read-erase p ((q, b) ∷ d) = ground (arith, read-erase p d)

  pub read-erase_other :
      (p o : String) (d : List (String × C)) → o ≢ p → read o (erase p d) ≡ read o d
  unfolding read erase
  read-erase_other p o [] n = refl
  read-erase_other p o ((q, b) ∷ d) n = elim (Bool-cases (str_eq q p)) [
    | inl t ↦
        let e = (eq_iff q p).0 t in
        rw (t, str_eq-of_ne q o (λ e'. n (sym e' ∙ e))) (read-erase_other p o d n)
    | inr t ↦ rw t (ap (λ z. if str_eq q o then some b else z) (read-erase_other p o d n))
  ]

  pub In-read :
      (p : String) (c : C) (d : List (String × C)) → read p d ≡ some c → In p (map (λ e. e.0) d)
  unfolding read
  In-read p c [] h = absurd cc
  In-read p c ((q, b) ∷ d) h = elim (Bool-cases (str_eq q p)) [
    | inl t ↦ inl (sym ((eq_iff q p).0 t))
    | inr t ↦ inr (In-read p c d (rw t at h))
  ]
