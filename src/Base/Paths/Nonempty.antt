-- ===== src/Base/Paths/Nonempty.antt =====
-- A cleaned path is not empty.
use Prim.Native.String.{String}
use text.Mathlib.Text.{◌==◌ as str_eq}
use mathlib.Core.Path.{◌≡◌, refl}
use mathlib.Core.Logic.{inl, inr}
use mathlib.Core.Bool.{Bool, true, false, ◌||◌}
use mathlib.Core.List.{List, [], ◌∷◌}
use native.Mathlib.Omega.{arith}
use choix.Base.Lists.{All}
use choix.Base.Tests.{Bool-cases}
use choix.Base.Paths.{
  slash, split, is_rooted, up, enter, enter_all, render, render_path, clean, with_slash, join,
}
use choix.Base.Paths.Laws.{append-nonempty}

-- Clean pushes no empty name, so what it answers is not empty.
IsProper : List String → Type 0
IsProper names = All (λ n. str_eq n "" ≡ false) names

up-IsProper : (r : Bool) (names : List String) → IsProper names → IsProper (up r names)
unfolding IsProper
up-IsProper true [] h = tt
up-IsProper false [] h = (refl, tt)
up-IsProper r (n ∷ names) h = elim (Bool-cases (str_eq n "..")) [
  | inl t ↦ rw t (refl, h)
  | inr t ↦ rw t h.1
]

enter-IsProper :
    (r : Bool) (name : String) (names : List String)
    → IsProper names
    → IsProper (enter r name names)
unfolding IsProper
enter-IsProper r name names h = elim (Bool-cases (str_eq name "" || str_eq name ".")) [
  | inl t ↦ rw t h
  | inr t ↦ elim (Bool-cases (str_eq name "..")) [
    | inl u ↦ rw (t, u) (up-IsProper r names h)
    | inr u ↦ rw (t, u) (ground (arith, t), h)
  ]
]

enter_all-IsProper :
    (r : Bool) (xs names : List String) → IsProper names → IsProper (enter_all r xs names)
unfolding enter_all
enter_all-IsProper r [] names h = h
enter_all-IsProper r (x ∷ xs) names h =
    enter_all-IsProper r xs (enter r x names) (enter-IsProper r x names h)

render_path-nonempty :
    (r : Bool) (names : List String) → IsProper names → ¬ (render_path r names ≡ String.[])
unfolding render IsProper
render_path-nonempty true names h e = cc
render_path-nonempty false [] h e = cc
render_path-nonempty false (n ∷ []) h e = let q = rw e at h.0 in cc
render_path-nonempty false (n ∷ m ∷ names) h e =
    append-nonempty (render (m ∷ names)) (String.◌∷◌ slash n) (λ q. cc) e

clean-nonempty : (s : String) → ¬ (clean s ≡ String.[])
unfolding clean IsProper
clean-nonempty s =
    render_path-nonempty (is_rooted s) (enter_all (is_rooted s) (split s) [])
      (enter_all-IsProper (is_rooted s) (split s) [] tt)

pub join-nonempty : (a b : String) → ¬ (a ≡ String.[]) → ¬ (join a b ≡ String.[])
unfolding join
join-nonempty String.[] b h e = h refl
join-nonempty (String.◌∷◌ c a) b h e = clean-nonempty (with_slash (String.◌∷◌ c a) b) e
