-- ===== src/Meta/Extract.antt =====
-- internal/meta/meta.go: Process and ProcessByStatus.
pub mod Progress
use Prim.Native.String.{String, ◌++◌}
use choix.Base.{
  ℕ, zero, suc, Option, some, none, List, [], ◌∷◌, if◌then◌else◌, Bool, true, false, ◌⊎◌, inl, inr,
}
use choix.Base.Int.{ℤ, pos}
use choix.Base.Paths.{join}
use choix.Store.Files.{File}
use choix.Store.FilesRepo.{find_file, has_id, mark_scan_failure, pick_by_status}
use choix.Store.Metadata.{MetadataUpdate, update_metadata_full}
use choix.Meta.Fields.{Metadata, captured, device_key}

-- Run of exiftool by path, Parse, gzip and the statement of the update by id, each with the text of
-- its error; and the other database calls that fail: loading the row and the record of a failure by
-- id, and the query.
pub record Tools (Raw : Type 0) : Type 0 where
  pub run : String → String ⊎ Raw
  pub parse : Raw → String ⊎ Metadata
  pub gzip : Raw → String ⊎ Raw
  pub load_fails : ℕ → Bool
  pub update_error : ℕ → Option String
  pub record_fails : ℕ → Bool
  pub query_fails : Bool

abbrev pub time_or_zero : Option ℤ → ℤ
time_or_zero none = pos 0
time_or_zero (some t) = t

abbrev pub is_some : Option ℤ → Bool
is_some none = false
is_some (some t) = true

unfoldable pub update_of : Metadata → MetadataUpdate
unfolding captured device_key
update_of m = record {
  device_key = device_key m;
  captured_at = time_or_zero (captured m);
  has_captured = is_some (captured m);
  width = m.width;
  height = m.height;
  iso = m.iso;
  shutter = m.shutter;
  scan_status = "metadata";
  err_msg = "";
}

abbrev err_not_found : String
err_not_found = "not found"

-- `false` is an error.
module _ {Raw : Type 0} (tools : Tools Raw) where
  -- recordFailure.
  abbrev pub record_failure : ℕ → String → List File → Bool × List File
  record_failure id msg t =
      if tools.record_fails id then (false, t) else (false, mark_scan_failure id msg t)

  abbrev pub updated : ℕ → List File → Bool × List File → Bool × List File
  updated id t (true, u) = (true, u)
  updated id t (false, u) = record_failure id ("update row: " ++ err_not_found) u

  abbrev pub written : ℕ → Metadata → Option String → List File → Bool × List File
  written id m (some e) t = record_failure id ("update row: " ++ e) t
  written id m none t = updated id t (update_metadata_full id (update_of m) t)

  abbrev pub store_update : ℕ → Metadata → List File → Bool × List File
  store_update id m t = written id m (tools.update_error id) t

  abbrev pub zipped : ℕ → Metadata → String ⊎ Raw → List File → Bool × List File
  zipped id m (inl e) t = record_failure id ("gzip raw exif: " ++ e) t
  zipped id m (inr gz) t = store_update id m t

  abbrev pub parsed : ℕ → Raw → String ⊎ Metadata → List File → Bool × List File
  parsed id raw (inl e) t = record_failure id ("parse: " ++ e) t
  parsed id raw (inr m) t = zipped id m (tools.gzip raw) t

  abbrev pub extracted : ℕ → String ⊎ Raw → List File → Bool × List File
  extracted id (inl e) t = record_failure id ("exiftool: " ++ e) t
  extracted id (inr raw) t = parsed id raw (tools.parse raw) t

  abbrev pub loaded : ℕ → String → Option File → List File → Bool × List File
  loaded id path none t = (false, t)
  loaded id path (some f) t = extracted id (tools.run path) t

  unfoldable pub process : ℕ → String → List File → Bool × List File
  unfolding find_file update_metadata_full update_of
  process id path t =
      if tools.load_fails id then (false, t) else loaded id path (find_file (has_id id) t) t

  abbrev pub count : Bool → ℕ → ℕ
  count true n = suc n
  count false n = n

  -- The loop of ProcessByStatus: the number of successes, whether it ran to its end, and the table.
  unfoldable pub process_batch :
      (ctx_err : ℕ → Bool) (n : ℕ) (root : String)
      → List File
      → ℕ
      → List File
      → ℕ × Bool × List File
  unfolding process join
  process_batch ctx_err n root [] success t = (success, true, t)
  process_batch ctx_err n root (f ∷ fs) success t =
      let r = process f.id (join root f.path) t in
      let rest = process_batch ctx_err (suc n) root fs (count r.0 success) r.1 in
      if ctx_err n then (success, false, t) else rest

  unfoldable pub process_by_status :
      (ctx_err : ℕ → Bool) (root status : String) (limit : ℕ) → List File → ℕ × Bool × List File
  unfolding process_batch pick_by_status
  process_by_status ctx_err root status limit t =
      if tools.query_fails
      then (0, false, t)
      else process_batch ctx_err 0 root (pick_by_status status limit t) 0 t
