-- ===== src/Store/Examples.antt =====
-- internal/store on small tables. LOWER is stood in for by the identity.
use Prim.Native.String.{String}
use choix.Base.{true, ℕ, none, List, [], ◌∷◌, map, ◌≡◌, refl}
use choix.Base.Int.{pos}
use choix.Store.Files.{File}
use choix.Store.Metadata.{MetadataUpdate, Updated, update_metadata_full, update_metadata_full-rows}
use choix.Store.FilesRepo.{has_id, find_file, upsert_on_rescan, mark_missing_except, new_row}
use choix.Store.FilesRepo.Rescan.{
  IsSettled, upsert_on_rescan-IsSettled, after_scan, mark_missing_except-rows,
}

abbrev settings : List (String × String)
settings = ("gap", "600") ∷ ("mode", "single") ∷ []

abbrev seen_file : String → ℕ → File
seen_file path size = record {
  id = 0;
  path = path;
  size = size;
  mtime = pos 5;
  content_hash = "00";
  kind = "photo";
  format = "jpeg";
  device_key = none;
  captured_at = none;
  width = none;
  height = none;
  iso = none;
  shutter = none;
  scan_status = "discovered";
  err_msg = none;
}

abbrev table : List File
table =
    new_row 4 (seen_file "a.jpg" 10)
    ∷ record (new_row 2 (seen_file "b.jpg" 20)) { scan_status = "analyzed" }
    ∷ []

abbrev same : String → String
same s = s

rescan_new : (upsert_on_rescan same (seen_file "c.jpg" 7) table).0 ≡ 5
unfolding upsert_on_rescan
rescan_new = refl

rescan_changed :
    (upsert_on_rescan same (seen_file "b.jpg" 21) table).2
    ≡ new_row 4 (seen_file "a.jpg" 10) ∷ new_row 2 (seen_file "b.jpg" 21) ∷ []
unfolding upsert_on_rescan
rescan_changed = refl

upsert_on_rescan-IsSettled_example :
    IsSettled same
      (seen_file "b.jpg" 21)
      (upsert_on_rescan same (seen_file "b.jpg" 21) table).0
      (upsert_on_rescan same (seen_file "b.jpg" 21) table).2
upsert_on_rescan-IsSettled_example = upsert_on_rescan-IsSettled same (seen_file "b.jpg" 21) table

mark_missing_except-rows_example :
    mark_missing_except same same ("a.jpg" ∷ []) table
    ≡ map (after_scan same same ("a.jpg" ∷ [])) table
mark_missing_except-rows_example = mark_missing_except-rows same same ("a.jpg" ∷ []) table

abbrev metadata : MetadataUpdate
metadata = record {
  device_key = "X-T5#1";
  captured_at = pos 90;
  has_captured = true;
  width = 600;
  height = 0;
  iso = 200;
  shutter = "";
  scan_status = "metadata";
  err_msg = "";
}

update_metadata_full-rows_example :
    Updated 2 metadata table (find_file (has_id 2) table) (update_metadata_full 2 metadata table)
update_metadata_full-rows_example = update_metadata_full-rows 2 metadata table
