-- ===== src/Base/Paths/Laws.antt =====
-- A path that ends in a proper name keeps that name when it is cleaned or joined to a folder.
use Prim.Native.Char.{Char, code}
use Prim.Native.String.{String, ◌++◌}
use Prim.Native.Nat.{ℕ}
use text.Mathlib.Text.{◌==◌ as str_eq}
use text.Mathlib.TextEquality.{Char-path}
use text.Mathlib.TextLemmas.{nil-append, cons-append, append_assoc}
use mathlib.Core.Path.{◌≡◌, refl, sym, ap, ◌∙◌}
use mathlib.Core.Logic.{◌⊎◌, inl, inr}
use mathlib.Core.Bool.{Bool, true, false, ◌||◌}
use mathlib.Core.List.{List, [], ◌∷◌, ◌++◌ as append}
use native.Mathlib.Omega.{arith}
use choix.Base.Tests.{==_iff, Bool-cases}
use choix.Base.Paths.{
  slash, is_slash, has_char, add_char, split, is_rooted, enter, enter_all, render, render_path,
  clean, with_slash, join,
}

abbrev pub NoSlash : String → Type 0
NoSlash s = has_char 47 s ≡ false

-- A name that filepath.Clean keeps.
abbrev pub IsName : String → Type 0
IsName x = NoSlash x × ((str_eq x "" || str_eq x ".") ≡ false) × (str_eq x ".." ≡ false)

-- Empty, or ending in a slash.
abbrev pub IsFolder : String → Type 0
IsFolder p = (p ≡ String.[]) ⊎ ((q : String) × (p ≡ with_slash q String.[]))

-- A function of the last name puts that name behind a fixed folder.
abbrev pub Anchors : (String → String) → Type 0
Anchors f = (p : String) × IsFolder p × ((x : String) → IsName x → f x ≡ p ++ x)

pub has_char-append : (n : ℕ) (s t : String) → has_char n (s ++ t) ≡ (has_char n s || has_char n t)
unfolding has_char
has_char-append n String.[] t = rw (nil-append t) refl
has_char-append n (String.◌∷◌ c cs) t =
    let h = has_char-append n cs t in rw (cons-append c cs t, h) (ground arith)

split-NoSlash : (x : String) → NoSlash x → split x ≡ x ∷ []
unfolding split has_char
split-NoSlash String.[] h = refl
split-NoSlash (String.◌∷◌ c cs) h = elim (Bool-cases (is_slash c)) [
  | inl t ↦ let q = rw t at h in absurd cc
  | inr t ↦ let q = rw t at h in rw (t, split-NoSlash cs q) refl
]

add_char-append :
    (c : Char) (s : String) (xs : List String)
    → add_char c (append (split s) xs) ≡ append (add_char c (split s)) xs
unfolding split
add_char-append c String.[] xs = refl
add_char-append c (String.◌∷◌ d s) xs = elim (Bool-cases (is_slash d)) [
  | inl t ↦ rw t refl
  | inr t ↦ rw t (split_more (split s))
]
  where
    split_more :
        (ys : List String)
        → add_char c (append (add_char d ys) xs) ≡ append (add_char c (add_char d ys)) xs
    split_more [] = refl
    split_more (y ∷ ys) = refl

split-with_slash : (q x : String) → NoSlash x → split (with_slash q x) ≡ append (split q) (x ∷ [])
unfolding split
split-with_slash String.[] x h = rw (nil-append (String.◌∷◌ slash x), split-NoSlash x h) refl
split-with_slash (String.◌∷◌ c q) x h = elim (Bool-cases (is_slash c)) [
  | inl t ↦ rw (cons-append c q (String.◌∷◌ slash x), t, split-with_slash q x h) refl
  | inr t ↦
      rw (cons-append c q (String.◌∷◌ slash x), t, split-with_slash q x h)
        (add_char-append c q (x ∷ []))
]

enter_all-append :
    (r : Bool) (xs ys names : List String)
    → enter_all r (append xs ys) names ≡ enter_all r ys (enter_all r xs names)
unfolding enter_all
enter_all-append r [] ys names = refl
enter_all-append r (x ∷ xs) ys names = enter_all-append r xs ys (enter r x names)

enter_name : (r : Bool) (x : String) (names : List String) → IsName x → enter r x names ≡ x ∷ names
enter_name r x names h = rw (h.1, h.2) refl

rooted-with_slash : (q x : String) → is_rooted (with_slash q x) ≡ is_rooted (with_slash q String.[])
rooted-with_slash String.[] x = rw (nil-append (String.◌∷◌ slash x)) refl
rooted-with_slash (String.◌∷◌ c q) x =
    rw (cons-append c q (String.◌∷◌ slash x), cons-append c q (String.◌∷◌ slash String.[])) refl

with_slash-append : (q x : String) → with_slash q x ≡ with_slash q String.[] ++ x
with_slash-append q x = sym (
    append_assoc q (String.◌∷◌ slash String.[]) x
    ∙ ap (λ z. q ++ z) (cons-append slash String.[] x)
    ∙ ap (λ z. q ++ String.◌∷◌ slash z) (nil-append x))

render_path-Anchors : (r : Bool) (names : List String) → Anchors (λ x. render_path r (x ∷ names))
unfolding render
render_path-Anchors true [] = (
  with_slash String.[] String.[],
  inr (String.[], refl),
  λ x h. sym (nil-append (String.◌∷◌ slash x)) ∙ with_slash-append String.[] x,
)
render_path-Anchors true (y ∷ names) =
    let q = String.◌∷◌ slash (render (y ∷ names)) in
    (
      with_slash q String.[],
      inr (q, refl),
      λ x h.
          sym (cons-append slash (render (y ∷ names)) (String.◌∷◌ slash x)) ∙ with_slash-append q x,
    )
render_path-Anchors false [] = (String.[], inl refl, λ x h. sym (nil-append x))
render_path-Anchors false (y ∷ names) =
    let q = render (y ∷ names) in
    (with_slash q String.[], inr (q, refl), λ x h. with_slash-append q x)

NoSlash-rooted : (x : String) → NoSlash x → is_rooted x ≡ false
unfolding has_char
NoSlash-rooted String.[] h = refl
NoSlash-rooted (String.◌∷◌ c x) h = ground (arith, h)

clean_name : (x : String) → IsName x → clean x ≡ String.[] ++ x
unfolding clean enter_all render
clean_name x h =
    ap (λ b. render_path b (enter_all b (split x) [])) (NoSlash-rooted x h.0)
    ∙ ap (λ ns. render_path false (enter_all false ns [])) (split-NoSlash x h.0)
    ∙ ap (render_path false) (enter_name false x [] h)
    ∙ sym (nil-append x)

clean-with_slash-Anchors : (q : String) → Anchors (λ x. clean (with_slash q x))
unfolding clean enter_all
clean-with_slash-Anchors q =
    let r = is_rooted (with_slash q String.[]) in
    let names = enter_all r (split q) [] in
    let (p, f, a) = render_path-Anchors r names in
    (
      p,
      f,
      λ x h.
          ap (λ b. render_path b (enter_all b (split (with_slash q x)) [])) (rooted-with_slash q x)
          ∙ ap (λ ns. render_path r (enter_all r ns [])) (split-with_slash q x h.0)
          ∙ ap (render_path r) (enter_all-append r (split q) (x ∷ []) [] ∙ enter_name r x names h)
          ∙ a x h,
    )

clean-Anchors : (p : String) → IsFolder p → Anchors (λ x. clean (p ++ x))
clean-Anchors p (inl e) = (
  String.[],
  inl refl,
  λ x h. ap (λ z. clean (z ++ x)) e ∙ ap clean (nil-append x) ∙ clean_name x h,
)
clean-Anchors p (inr (q, e)) =
    let (p', f, a) = clean-with_slash-Anchors q in
    (p', f, λ x h. ap (λ z. clean (z ++ x)) e ∙ ap clean (sym (with_slash-append q x)) ∙ a x h)

with_slash-IsFolder : (a p : String) → IsFolder p → IsFolder (with_slash a p)
with_slash-IsFolder a p (inl e) = inr (a, ap (with_slash a) e)
with_slash-IsFolder a p (inr (q, e)) = inr (
  with_slash a q,
  ap (with_slash a) e
      ∙ ap (λ z. a ++ z) (sym (cons-append slash q (String.◌∷◌ slash String.[])))
      ∙ sym (append_assoc a (String.◌∷◌ slash q) (String.◌∷◌ slash String.[])),
)

-- Join with an empty first element only cleans.
join_empty : (s : String) → ¬ (s ≡ String.[]) → join String.[] s ≡ clean s
unfolding join
join_empty String.[] h = absurd (h refl)
join_empty (String.◌∷◌ c s) h = refl

IsName-nonempty : (x : String) → IsName x → ¬ (x ≡ String.[])
IsName-nonempty x h e = let q = rw e at h.1 in cc

pub append-nonempty : (p x : String) → ¬ (x ≡ String.[]) → ¬ (p ++ x ≡ String.[])
append-nonempty String.[] x h e = h (sym (nil-append x) ∙ e)
append-nonempty (String.◌∷◌ c p) x h e = let q = sym (cons-append c p x) ∙ e in absurd cc

pub join-Anchors : (a p : String) → IsFolder p → Anchors (λ x. join a (p ++ x))
unfolding join
join-Anchors String.[] p f =
    let (p', f', g) = clean-Anchors p f in
    (p', f', λ x h. join_empty (p ++ x) (append-nonempty p x (IsName-nonempty x h)) ∙ g x h)
join-Anchors (String.◌∷◌ c a) p f =
    let a' = String.◌∷◌ c a in
    let (p', f', g) = clean-Anchors (with_slash a' p) (with_slash-IsFolder a' p f) in
    (
      p',
      f',
      λ x h.
          ap clean (
            ap (λ z. a' ++ z) (sym (cons-append slash p x))
            ∙ sym (append_assoc a' (String.◌∷◌ slash p) x))
          ∙ g x h,
    )

-- Every string is a folder followed by a name without slashes.
pub IsFolder-of : (s : String) → (p : String) × IsFolder p × (y : String) × NoSlash y × (s ≡ p ++ y)
unfolding has_char
IsFolder-of String.[] = (String.[], inl refl, String.[], refl, refl)
IsFolder-of (String.◌∷◌ c s) = extend (IsFolder-of s)
  where
    extend :
        (p : String) × IsFolder p × (y : String) × NoSlash y × (s ≡ p ++ y)
        → (p : String) × IsFolder p × (y : String) × NoSlash y × (String.◌∷◌ c s ≡ p ++ y)
    extend (p, inr (q, e), y, h, f) = (
      String.◌∷◌ c p,
      inr (
        String.◌∷◌ c q,
        ap (λ z. String.◌∷◌ c z) e ∙ sym (cons-append c q (String.◌∷◌ slash String.[])),
      ),
      y,
      h,
      ap (λ z. String.◌∷◌ c z) f ∙ sym (cons-append c p y),
    )
    extend (p, inl e, y, h, f) = elim (Bool-cases (is_slash c)) [
      | inl t ↦ (
        String.◌∷◌ c p,
        inr (
          String.[],
          ap (λ d. String.◌∷◌ d p) (Char-path c slash ((==_iff (code c) 47).0 t))
              ∙ ap (λ z. String.◌∷◌ slash z) e
              ∙ sym (nil-append (String.◌∷◌ slash String.[])),
        ),
        y,
        h,
        ap (λ z. String.◌∷◌ c z) f ∙ sym (cons-append c p y),
      )
      | inr t ↦ (
        String.[],
        inl refl,
        String.◌∷◌ c y,
        ground (arith, h, t),
        ap (λ z. String.◌∷◌ c z) (f ∙ ap (λ z. z ++ y) e ∙ nil-append y)
            ∙ sym (nil-append (String.◌∷◌ c y)),
      )
    ]
