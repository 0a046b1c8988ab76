-- ===== src/Store/FilesRepo/Under.antt =====
-- DeleteUnderPath: nothing under the folder stays.
use Prim.Native.Char.{code}
use Prim.Native.String.{String, ◌++◌ as str_append}
use text.Mathlib.Text.{◌==◌ as str_eq}
use text.Mathlib.TextEquality.{eq_iff}
use text.Mathlib.TextLemmas.{nil-append, cons-append}
use choix.Base.{
  List, [], ◌∷◌, ◌≡◌, ◌≢◌, refl, sym, ap, ◌∙◌, arith, Bool, true, not, Bool-cases, inl, inr, ◌⊎◌,
  All, keep, ◌==◌, ==_refl,
}
use choix.Base.Paths.{slash}
use choix.Store.Files.{File}
use choix.Store.FilesRepo.{like, at_some, is_under_path, delete_under_path}

at_some_here : (matches : String → Bool) (s : String) → matches s ≡ true → at_some matches s ≡ true
at_some_here matches String.[] h = h
at_some_here matches (String.◌∷◌ c cs) h = rw h refl

at_some_end :
    (matches : String → Bool) (s : String) → matches String.[] ≡ true → at_some matches s ≡ true
at_some_end matches String.[] h = h
at_some_end matches (String.◌∷◌ c cs) h = rw (at_some_end matches cs h) (ground arith)

-- A text matches itself as a pattern, whatever wildcards are in it.
like-append : (d ps x : String) → like ps x ≡ true → like (str_append d ps) (str_append d x) ≡ true
unfolding like
like-append String.[] ps x h = rw (nil-append ps, nil-append x) h
like-append (String.◌∷◌ c d) ps x h =
    let rest = like-append d ps x h in
    rw (cons-append c d ps, cons-append c d x)
      (elim (Bool-cases (code c == 37)) [
        | inl t ↦
            let later = at_some_here (like (str_append d ps)) (str_append d x) rest in
            rw (t, later) (ground arith)
        | inr t ↦ rw (t, rest, ==_refl (code c)) (ground arith)
      ])

module _ (lower : String → String) where
  -- The path of a row is that of the folder, or below it, up to the case of letters.
  abbrev pub LiesUnder : String → File → Type 0
  LiesUnder dir f =
      (lower f.path ≡ lower dir)
      ⊎ ((x : String) × (lower f.path ≡ str_append (lower dir) (String.◌∷◌ slash x)))

  under-slash : (x : String) → like "/%" (String.◌∷◌ slash x) ≡ true
  unfolding like
  under-slash x = at_some_end (like String.[]) x refl

  LiesUnder-matches : (dir : String) (f : File) → LiesUnder dir f → is_under_path lower dir f ≡ true
  LiesUnder-matches dir f (inl e) = rw ((eq_iff (lower f.path) (lower dir)).1 e) refl
  LiesUnder-matches dir f (inr (x, e)) =
      let m : like (str_append (lower dir) "/%") (lower f.path) ≡ true =
        ap (like (str_append (lower dir) "/%")) e
        ∙ like-append (lower dir) "/%" (String.◌∷◌ slash x) (under-slash x) in
      rw m (ground arith)

  -- DeleteUnderPath of a folder that is not the empty path leaves no row at it or under it, whatever
  -- the case of the letters, also if the name of the folder holds wildcards of LIKE.
  pub delete_under_path-LiesUnder :
      (dir : String) (t : List File)
      → dir ≢ ""
      → All (λ f. ¬ LiesUnder dir f) (delete_under_path lower dir t)
  unfolding delete_under_path
  delete_under_path-LiesUnder dir t n = elim (Bool-cases (str_eq dir "")) [
    | inl u ↦ absurd (n ((eq_iff dir "").0 u))
    | inr u ↦ rw u (kept t)
  ]
    where
      kept :
          (t : List File)
          → All (λ f. ¬ LiesUnder dir f) (keep (λ f. not (is_under_path lower dir f)) t)
      kept [] = tt
      kept (f ∷ t) = elim (Bool-cases (is_under_path lower dir f)) [
        | inl v ↦ rw v (kept t)
        | inr v ↦ rw v ((λ h. let q = sym v ∙ LiesUnder-matches dir f h in cc), kept t)
      ]
