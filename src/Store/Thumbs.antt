-- ===== src/Store/Thumbs.antt =====
-- internal/store/thumbs.go: the thumbs table, keyed by file_id and tier.
use Prim.Native.String.{String}
use text.Mathlib.Text.{◌==◌ as str_eq}
use text.Mathlib.TextPositions.{eq_refl}
use choix.Base.{
  ℕ, Option, some, none, List, [], ◌∷◌, if◌then◌else◌, Bool, ◌&&◌, ◌==◌, ◌≡◌, refl, keep, ==_refl,
  Bool-cases, inl, inr,
}

pub record Thumb : Type 0 where
  pub file_id : ℕ
  pub tier : String
  pub rel_path : String
  pub width : ℕ
  pub height : ℕ

abbrev pub is_thumb : ℕ → String → Thumb → Bool
is_thumb id tier t = t.file_id == id && str_eq t.tier tier

-- Upsert, and Insert, its alias.
unfoldable pub upsert : Thumb → List Thumb → List Thumb
upsert t [] = t ∷ []
upsert t (s ∷ rows) =
    let rest = upsert t rows in if is_thumb t.file_id t.tier s then t ∷ rows else s ∷ rest

unfoldable pub get : ℕ → String → List Thumb → Option Thumb
get id tier [] = none
get id tier (t ∷ rows) = let rest = get id tier rows in if is_thumb id tier t then some t else rest

-- GetByFile: the rows of the file, one for each tier.
unfoldable pub get_by_file : ℕ → List Thumb → List Thumb
get_by_file id = keep (λ t. t.file_id == id)

-- A thumbnail is read back as it was stored last.
pub get-upsert : (t : Thumb) (rows : List Thumb) → get t.file_id t.tier (upsert t rows) ≡ some t
unfolding get upsert
get-upsert t [] = rw (==_refl t.file_id, eq_refl t.tier) refl
get-upsert t (s ∷ rows) = elim (Bool-cases (is_thumb t.file_id t.tier s)) [
  | inl u ↦ rw (u, ==_refl t.file_id, eq_refl t.tier) refl
  | inr u ↦ rw (u, u) (get-upsert t rows)
]
