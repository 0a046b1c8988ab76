-- ===== src/Base/Paths.antt =====
-- The functions of path/filepath on strings whose separator is the slash.
pub mod Laws
pub mod Nonempty
use Prim.Native.Char.{Char, code}
use Prim.Native.String.{String, ◌++◌}
use Prim.Native.Nat.{ℕ}
use text.Mathlib.Text.{◌==◌ as str_eq}
use mathlib.Core.Path.{◌≡◌, refl}
use mathlib.Core.Bool.{Bool, true, false, ◌||◌}
use mathlib.Core.List.{List, [], ◌∷◌}
use choix.Base.Tests.{◌==◌, if◌then◌else◌}

abbrev pub slash : Char
slash = "/"

abbrev pub is_slash : Char → Bool
is_slash c = code c == 47

-- A string has the character of this number.
unfoldable pub has_char : ℕ → String → Bool
has_char n String.[] = false
has_char n (String.◌∷◌ c cs) = (code c == n) || has_char n cs

abbrev pub add_char : Char → List String → List String
add_char c [] = (String.◌∷◌ c String.[]) ∷ []
add_char c (s ∷ ss) = (String.◌∷◌ c s) ∷ ss

unfoldable pub split : String → List String
split String.[] = String.[] ∷ []
split (String.◌∷◌ c cs) =
    let rest = split cs in if is_slash c then String.[] ∷ rest else add_char c rest

-- filepath.IsAbs.
abbrev pub is_rooted : String → Bool
is_rooted String.[] = false
is_rooted (String.◌∷◌ c cs) = is_slash c

-- filepath.Clean keeps the names of a path on a stack, the last name on top.
abbrev pub up : Bool → List String → List String
up true [] = []
up false [] = ".." ∷ []
up rooted (top ∷ names) = if str_eq top ".." then ".." ∷ top ∷ names else names

abbrev pub enter : Bool → String → List String → List String
enter rooted name names =
    if str_eq name "" || str_eq name "."
    then names
    else if str_eq name ".."
    then up rooted names
    else name ∷ names

unfoldable pub enter_all : Bool → List String → List String → List String
enter_all rooted [] names = names
enter_all rooted (name ∷ rest) names = enter_all rooted rest (enter rooted name names)

unfoldable pub render : List String → String
render [] = String.[]
render (name ∷ []) = name
render (name ∷ next ∷ names) = render (next ∷ names) ++ String.◌∷◌ slash name

abbrev pub render_path : Bool → List String → String
render_path true names = String.◌∷◌ slash (render names)
render_path false [] = "."
render_path false (name ∷ names) = render (name ∷ names)

-- filepath.Clean.
unfoldable pub clean : String → String
unfolding split enter_all render
clean s = render_path (is_rooted s) (enter_all (is_rooted s) (split s) [])

abbrev pub with_slash : String → String → String
with_slash a b = a ++ String.◌∷◌ slash b

-- filepath.Join of two elements.
unfoldable pub join : String → String → String
unfolding clean
join String.[] String.[] = String.[]
join String.[] (String.◌∷◌ c b) = clean (String.◌∷◌ c b)
join (String.◌∷◌ c a) b = clean (with_slash (String.◌∷◌ c a) b)

-- What follows the last slash, and all up to it with it.
unfoldable pub after_slash : String → String
unfolding has_char
after_slash String.[] = String.[]
after_slash (String.◌∷◌ c cs) =
    let rest = after_slash cs in
    if has_char 47 cs then rest else if is_slash c then cs else String.◌∷◌ c cs

unfoldable pub up_to_slash : String → String
unfolding has_char
up_to_slash String.[] = String.[]
up_to_slash (String.◌∷◌ c cs) =
    let rest = up_to_slash cs in
    if is_slash c || has_char 47 cs then String.◌∷◌ c rest else String.[]

-- filepath.Dir.
abbrev pub dir : String → String
dir p = clean (up_to_slash p)

abbrev pub drop_slash : Char → String → String
drop_slash c String.[] = if is_slash c then String.[] else String.◌∷◌ c String.[]
drop_slash c (String.◌∷◌ d cs) = String.◌∷◌ c (String.◌∷◌ d cs)

unfoldable pub drop_slashes : String → String
drop_slashes String.[] = String.[]
drop_slashes (String.◌∷◌ c cs) = drop_slash c (drop_slashes cs)

abbrev pub or_slash : String → String
or_slash String.[] = "/"
or_slash (String.◌∷◌ c cs) = String.◌∷◌ c cs

-- filepath.Base.
unfoldable pub base : String → String
unfolding after_slash drop_slashes
base String.[] = "."
base (String.◌∷◌ c cs) = or_slash (after_slash (drop_slashes (String.◌∷◌ c cs)))

unfoldable pub from_dot : String → String
unfolding has_char
from_dot String.[] = String.[]
from_dot (String.◌∷◌ c cs) =
    let rest = from_dot cs in
    if has_char 46 cs then rest else if code c == 46 then String.◌∷◌ c cs else String.[]

-- filepath.Ext.
unfoldable pub ext : String → String
unfolding from_dot after_slash
ext p = from_dot (after_slash p)

-- strings.TrimSuffix.
unfoldable pub trim_suffix : String → String → String
trim_suffix String.[] suffix = String.[]
trim_suffix (String.◌∷◌ c cs) suffix =
    let rest = trim_suffix cs suffix in
    if str_eq (String.◌∷◌ c cs) suffix then String.[] else String.◌∷◌ c rest
