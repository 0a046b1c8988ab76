-- ===== src/Picks/Export/Candidates.antt =====
-- The candidates of resolveTarget: different numbers give different paths.
use Prim.Native.Char.{Char, code}
use Prim.Native.String.{String, ◌++◌}
use text.Mathlib.Text.{◌==◌ as str_eq}
use text.Mathlib.TextLemmas.{
  append_cancel_left, append_cancel_right, append_assoc, tail-eq_of_cons-eq,
}
use choix.Base.{
  ℕ, zero, suc, true, false, ◌==◌, ltb, ◌/◌, ◌%◌, inl, inr, ◌≡◌, refl, sym, ap, ◌∙◌, arith,
  Bool-cases, ◌||◌,
}
use choix.Base.Paths.{join, dir, base, ext, trim_suffix, has_char, after_slash, from_dot}
use choix.Base.Paths.Laws.{NoSlash, IsName, join-Anchors, IsFolder-of, has_char-append}
use choix.Base.Decimal.{one_digit, digits, decimal, decimal-inj}
use choix.Picks.Disk.{str_eq-of_ne}
use choix.Picks.Export.{suffixed_name, suffixed_path}

digit-NoSlash : (n : ℕ) → NoSlash (one_digit n)
unfolding has_char
digit-NoSlash zero = refl
digit-NoSlash (suc zero) = refl
digit-NoSlash (suc (suc zero)) = refl
digit-NoSlash (suc (suc (suc zero))) = refl
digit-NoSlash (suc (suc (suc (suc zero)))) = refl
digit-NoSlash (suc (suc (suc (suc (suc zero))))) = refl
digit-NoSlash (suc (suc (suc (suc (suc (suc zero)))))) = refl
digit-NoSlash (suc (suc (suc (suc (suc (suc (suc zero))))))) = refl
digit-NoSlash (suc (suc (suc (suc (suc (suc (suc (suc zero)))))))) = refl
digit-NoSlash (suc (suc (suc (suc (suc (suc (suc (suc (suc n))))))))) = refl

digits-NoSlash : (fuel n : ℕ) → NoSlash (digits fuel n)
unfolding digits
digits-NoSlash zero n = digit-NoSlash n
digits-NoSlash (suc fuel) n = elim (Bool-cases (ltb n 10)) [
  | inl t ↦ rw t (digit-NoSlash n)
  | inr t ↦ rw t (
      has_char-append 47 (digits fuel (n / 10)) (one_digit (n % 10))
      ∙ ap (λ b. b || has_char 47 (one_digit (n % 10))) (digits-NoSlash fuel (n / 10))
      ∙ digit-NoSlash (n % 10))
]

-- A name with an underscore is none of the names that cleaning drops.
underscored : (y z : String) → has_char 95 (y ++ String.◌∷◌ "_" z) ≡ true
unfolding has_char
underscored y z = has_char-append 95 y (String.◌∷◌ "_" z) ∙ ground arith

differs : (x l : String) → has_char 95 x ≡ true → has_char 95 l ≡ false → str_eq x l ≡ false
differs x l h k = str_eq-of_ne x l (λ e. let q = sym h ∙ ap (has_char 95) e ∙ k in cc)

suffixed_name-IsName :
    (y extension : String) (n : ℕ)
    → NoSlash y
    → NoSlash extension
    → IsName (suffixed_name y extension n)
unfolding has_char decimal
suffixed_name-IsName y extension n hy he =
    let u = underscored y (decimal n ++ extension) in
    (
      has_char-append 47 y (String.◌∷◌ "_" (decimal n ++ extension))
          ∙ ap (λ b. b || has_char 47 (decimal n ++ extension)) hy
          ∙ has_char-append 47 (decimal n) extension
          ∙ ap (λ b. b || has_char 47 extension) (digits-NoSlash n n)
          ∙ he,
      ap (λ b. b || str_eq (suffixed_name y extension n) ".") (differs _ "" u refl)
          ∙ differs _ "." u refl,
      differs _ ".." u refl,
    )

-- What follows the last slash has none, so no extension has one.
after_slash-NoSlash : (s : String) → NoSlash (after_slash s)
unfolding after_slash has_char
after_slash-NoSlash String.[] = refl
after_slash-NoSlash (String.◌∷◌ c s) = ground (arith, after_slash-NoSlash s)

tail-NoSlash : (c : Char) (s : String) → NoSlash (String.◌∷◌ c s) → NoSlash s
unfolding has_char
tail-NoSlash c s h = ground (arith, h)

from_dot-NoSlash : (s : String) → NoSlash s → NoSlash (from_dot s)
unfolding from_dot has_char
from_dot-NoSlash String.[] h = refl
from_dot-NoSlash (String.◌∷◌ c s) h = elim (Bool-cases (has_char 46 s)) [
  | inl t ↦ rw t (from_dot-NoSlash s (tail-NoSlash c s h))
  | inr t ↦ elim (Bool-cases (code c == 46)) [ inl u ↦ rw (t, u) h | inr u ↦ rw (t, u) refl ]
]

ext-NoSlash : (p : String) → NoSlash (ext p)
unfolding ext
ext-NoSlash p = from_dot-NoSlash (after_slash p) (after_slash-NoSlash p)

-- The absolute paths of the suffixed candidates are one folder with different names.
suffixed-anchored :
    (scan_root slot : String)
    → (p : String) × (y : String) × (extension : String) × ((n : ℕ)
        → join scan_root (suffixed_path slot n) ≡ p ++ suffixed_name y extension n)
unfolding suffixed_path
suffixed-anchored scan_root slot =
    let stem = trim_suffix (base slot) (ext slot) in
    let (q, f, y, h, e) = IsFolder-of stem in
    let (q', f', inner) = join-Anchors (dir slot) q f in
    let (p, g, outer) = join-Anchors scan_root q' f' in
    let name-IsName : (n : ℕ) → IsName (suffixed_name y (ext slot) n) =
      λ n. suffixed_name-IsName y (ext slot) n h (ext-NoSlash slot) in
    (
      p,
      y,
      ext slot,
      λ n.
          ap (join scan_root) (
            ap (join (dir slot)) (
              ap (λ s. suffixed_name s (ext slot) n) e
              ∙ append_assoc q y (String.◌∷◌ "_" (decimal n ++ ext slot)))
            ∙ inner (suffixed_name y (ext slot) n) (name-IsName n))
          ∙ outer (suffixed_name y (ext slot) n) (name-IsName n),
    )

suffixed_name-inj :
    (y extension : String) (m n : ℕ)
    → suffixed_name y extension m ≡ suffixed_name y extension n
    → m ≡ n
suffixed_name-inj y extension m n e = decimal-inj m n (
    append_cancel_right (decimal m) (decimal n) extension (
      tail-eq_of_cons-eq (
        append_cancel_left y (String.◌∷◌ "_" (decimal m ++ extension))
          (String.◌∷◌ "_" (decimal n ++ extension)) e)))

pub suffixed-inj :
    (scan_root slot : String) (m n : ℕ)
    → join scan_root (suffixed_path slot m) ≡ join scan_root (suffixed_path slot n)
    → m ≡ n
suffixed-inj scan_root slot m n e =
    let (p, y, extension, a) = suffixed-anchored scan_root slot in
    suffixed_name-inj y extension m n (
      append_cancel_left p (suffixed_name y extension m) (suffixed_name y extension n)
        (sym (a m) ∙ e ∙ a n))
