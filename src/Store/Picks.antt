-- ===== src/Store/Picks.antt =====
-- internal/store/picks.go: the picks table, keyed by file_id.
pub mod Table
use Prim.Native.String.{String}
use text.Mathlib.Text.{◌==◌ as str_eq}
use choix.Base.{
  ℕ, Option, some, none, List, [], ◌∷◌, if◌then◌else◌, Bool, true, false, ◌==◌, ltb, keep, map,
}
use choix.Base.Int.{ℤ, ltb_ℤ}
use choix.Base.Sort.{sort_by}
use choix.Store.Files.{File}

pub record Pick : Type 0 where
  pub file_id : ℕ
  pub state : String
  pub rating : Option ℤ
  pub picked_at : ℤ
  pub exported_path : Option String

-- A row for display.
pub record PickWithFile : Type 0 where
  pub file_id : ℕ
  pub exported_path : Option String
  pub captured_at : Option ℤ
  pub device_key : Option String

-- `WHERE file_id = ?`; `none` is ErrNotFound.
unfoldable pub get : ℕ → List Pick → Option Pick
get id [] = none
get id (row ∷ rows) = if row.file_id == id then some row else get id rows

-- `INSERT … ON CONFLICT(file_id) DO UPDATE`: `change` is the update, `fresh` the row to insert.
unfoldable pub put : ℕ → (Pick → Pick) → Pick → List Pick → List Pick
put id change fresh [] = fresh ∷ []
put id change fresh (row ∷ rows) =
    if row.file_id == id then change row ∷ rows else row ∷ put id change fresh rows

abbrev pub upsert : Pick → List Pick → List Pick
upsert p =
    put p.file_id
      (λ row. record row {
        state = p.state;
        rating = p.rating;
        picked_at = p.picked_at;
        exported_path = none;
      })
      p

abbrev pub new_pick : ℤ → ℕ → String → Pick
new_pick now id state = record {
  file_id = id;
  state = state;
  rating = none;
  picked_at = now;
  exported_path = none;
}

-- `now` is `strftime('%s','now')`.
abbrev pub set_state : ℤ → ℕ → String → List Pick → List Pick
set_state now id state = put id (λ row. record row { state = state }) (new_pick now id state)

-- `UPDATE picks SET … WHERE file_id = ?`
unfoldable pub change_row : ℕ → (Pick → Pick) → List Pick → List Pick
change_row id change [] = []
change_row id change (row ∷ rows) =
    if row.file_id == id
    then change row ∷ change_row id change rows
    else row ∷ change_row id change rows

abbrev pub set_exported_path : ℕ → String → List Pick → List Pick
set_exported_path id path = change_row id (λ row. record row { exported_path = some path })

abbrev pub clear_exported_path : ℕ → List Pick → List Pick
clear_exported_path id = change_row id (λ row. record row { exported_path = none })

unfoldable pub delete : ℕ → List Pick → List Pick
delete id [] = []
delete id (row ∷ rows) = if row.file_id == id then delete id rows else row ∷ delete id rows

-- `WHERE state = 'picked' ORDER BY file_id`
unfoldable pub list_picked : List Pick → List Pick
list_picked rows =
    sort_by (λ p q. ltb p.file_id q.file_id) (keep (λ p. str_eq p.state "picked") rows)

-- `JOIN files f ON f.id = p.file_id`
unfoldable pub join_files : List File → List Pick → List PickWithFile
join_files files [] = []
join_files files (p ∷ ps) = with_rows (keep (λ f. f.id == p.file_id) files) (join_files files ps)
  where
    with_rows : List File → List PickWithFile → List PickWithFile
    with_rows [] rest = rest
    with_rows (f ∷ fs) rest =
        record {
          file_id = p.file_id;
          exported_path = p.exported_path;
          captured_at = f.captured_at;
          device_key = f.device_key;
        }
        ∷ with_rows fs rest

-- ListPickedWithFiles, `ORDER BY p.picked_at`
unfoldable pub list_picked_with_files : List File → List Pick → List PickWithFile
unfolding join_files
list_picked_with_files files rows =
    join_files files
      (sort_by (λ p q. ltb_ℤ p.picked_at q.picked_at) (keep (λ p. str_eq p.state "picked") rows))
