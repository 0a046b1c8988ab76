-- ===== src/Picks/Service.antt =====
-- internal/picks/picks.go, and Unexport of internal/picks/export.go.
pub mod Rows
pub mod Ends
pub mod Laws
pub mod Contract
use Prim.Native.String.{String}
use text.Mathlib.Text.{◌==◌ as str_eq}
use choix.Base.{
  ℕ, Option, some, none, List, [], ◌∷◌, if◌then◌else◌, Bool, true, false, ◌==◌, ◌⊎◌, inl, inr,
}
use choix.Base.Int.{ℤ}
use choix.Store.Files.{File}
use choix.Store.Picks.{Pick, get, set_state, set_exported_path, clear_exported_path, delete}

-- What the service can return as an error.
pub data Failure (E : Type 0) : Type 0 where
  load_failed : Failure E
  not_found : Failure E
  db_failed : Failure E
  export_failed : E → Failure E
  escapes : Failure E

-- The disk's part: exportFile, which answers with the relative path of the copy, and the removal of
-- a copy by its recorded path (with the checks of Unexport on it); root_inside is the check that
-- the export root lies under the scan root.
pub record Exporter (D E : Type 0) : Type 0 where
  pub export_file : File → D → (E ⊎ String) × D
  pub remove_copy : String → D → Option E × D
  pub root_inside : Bool

-- The rows of the database that the service touches, and the disk.
pub record World (D : Type 0) : Type 0 where
  pub files : List File
  pub rows : List Pick
  pub disk : D

-- GetByID of the files table.
unfoldable pub file_by_id : ℕ → List File → Option File
file_by_id id [] = none
file_by_id id (f ∷ fs) = if f.id == id then some f else file_by_id id fs

abbrev pub is_state : String → Option Pick → Bool
is_state state none = false
is_state state (some p) = str_eq p.state state

-- `exporter` is the disk's part, `now` the clock, and `fault n` tells that the n-th call of the
-- database in an operation fails; a failing statement changes nothing.
module _ {D E : Type 0} (exporter : Exporter D E) (now : ℤ) (fault : ℕ → Bool) where
  abbrev pub Answer : Type 0
  Answer = Option (Failure E) × World D

  -- fileFor, and what follows it when the row is there.
  abbrev pub with_file : Option File → World D → (File → Answer) → Answer
  with_file none w rest = (some not_found, w)
  with_file (some f) w rest = rest f

  unfoldable pub file_for : ℕ → World D → (File → Answer) → Answer
  unfolding file_by_id
  file_for id w rest =
      if fault 0 then (some load_failed, w) else with_file (file_by_id id w.files) w rest

  -- `s.store.Picks().Get(id)` as the n-th call; every error reads as a missing row.
  abbrev pub get_row : ℕ → ℕ → World D → Option Pick
  get_row n id w = if fault n then none else get id w.rows

  -- A statement that changes the rows, as the n-th call.
  abbrev pub exec : ℕ → (List Pick → List Pick) → World D → (World D → Answer) → Answer
  exec n change w rest =
      if fault n then (some db_failed, w) else rest (record w { rows = change w.rows })

  abbrev pub done : World D → Answer
  done w = (none, w)

  -- The statement whose error Pick drops.
  abbrev pub exec_ignored : ℕ → (List Pick → List Pick) → World D → World D
  exec_ignored n change w = if fault n then w else record w { rows = change w.rows }

  abbrev pub exported : ℕ → World D → (E ⊎ String) × D → Answer
  exported id w (inl e, d) =
      (some (export_failed e), exec_ignored 3 (delete id) (record w { disk = d }))
  exported id w (inr rel, d) = exec 4 (set_exported_path id rel) (record w { disk = d }) done

  unfoldable pub pick : ℕ → World D → Answer
  unfolding file_for get delete
  pick id w = file_for id w (λ f.
      if is_state "picked" (get_row 1 id w)
      then done w
      else exec 2 (set_state now id "picked") w
          (λ u. exported id u (exporter.export_file f u.disk)))

  -- The end of Unexport, with the rest of the operation that called it.
  abbrev pub removed : ℕ → ℕ → World D → Option E × D → (World D → Answer) → Answer
  removed n id w (some e, d) rest = (some (export_failed e), record w { disk = d })
  removed n id w (none, d) rest = exec n (clear_exported_path id) (record w { disk = d }) rest

  abbrev pub unexport_row : ℕ → ℕ → World D → Option Pick → (World D → Answer) → Answer
  unexport_row n id w none rest = rest w
  unexport_row n id w (some p) rest = elim p.exported_path [
    | none ↦ exec n (clear_exported_path id) w rest
    | some path ↦
        if str_eq path ""
        then exec n (clear_exported_path id) w rest
        else removed n id w (exporter.remove_copy path w.disk) rest
  ]

  -- Unexport: its Get is the call n, its UPDATE the call m.
  unfoldable pub unexport : ℕ → ℕ → ℕ → World D → (World D → Answer) → Answer
  unfolding get
  unexport n m id w rest =
      if exporter.root_inside then unexport_row m id w (get_row n id w) rest else (some escapes, w)

  unfoldable pub unpick : ℕ → World D → Answer
  unfolding file_for get delete unexport
  unpick id w = file_for id w (λ f.
      if is_state "picked" (get_row 1 id w)
      then unexport 2 3 id w (λ u. exec 4 (delete id) u done)
      else done w)

  unfoldable pub reject : ℕ → World D → Answer
  unfolding file_for get unexport
  reject id w =
      let mark : World D → Answer =
        λ u. exec 4 (set_state now id "rejected") u (λ v. exec 5 (clear_exported_path id) v done) in
      file_for id w
        (λ f. if is_state "picked" (get_row 1 id w) then unexport 2 3 id w mark else mark w)

  unfoldable pub unreject : ℕ → World D → Answer
  unfolding file_for get delete
  unreject id w =
      file_for id w
        (λ f. if is_state "rejected" (get_row 1 id w) then exec 2 (delete id) w done else done w)
