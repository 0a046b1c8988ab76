-- ===== src/Store/Kv.antt =====
-- internal/store/kv.go: the key-value table.
use Prim.Native.String.{String}
use text.Mathlib.Text.{◌==◌ as str_eq}
use text.Mathlib.TextEquality.{eq_iff}
use choix.Base.{Option, some, none, List, [], ◌∷◌, if◌then◌else◌, ◌≡◌, refl, arith}

-- Get, where `none` is ErrNotFound.
unfoldable pub get_value : String → List (String × String) → Option String
get_value k [] = none
get_value k (row ∷ rows) = if str_eq row.0 k then some row.1 else get_value k rows

unfoldable pub set_value : String → String → List (String × String) → List (String × String)
set_value k v [] = (k, v) ∷ []
set_value k v (row ∷ rows) = if str_eq row.0 k then (k, v) ∷ rows else row ∷ set_value k v rows

unfoldable pub delete_value : String → List (String × String) → List (String × String)
delete_value k [] = []
delete_value k (row ∷ rows) =
    if str_eq row.0 k then delete_value k rows else row ∷ delete_value k rows

-- A key reads as it was last set, or as missing once it is deleted, and other keys are untouched.
pub get_value-changed :
    (k j v : String) (rows : List (String × String))
    → (get_value j (set_value k v rows) ≡ (if str_eq k j then some v else get_value j rows))
      × (get_value j (delete_value k rows) ≡ (if str_eq k j then none else get_value j rows))
unfolding get_value set_value delete_value
get_value-changed k j v [] = (refl, ground (arith, eq_iff k j))
get_value-changed k j v (row ∷ rows) =
    let (a, b) = get_value-changed k j v rows in
    (
      ground (arith, eq_iff k j, eq_iff row.0 k, eq_iff row.0 j, a),
      ground (arith, eq_iff k j, eq_iff row.0 k, eq_iff row.0 j, b),
    )
