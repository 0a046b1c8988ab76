-- ===== src/Meta/Examples.antt =====
-- internal/meta on two files, of which exiftool cannot read one.
use Prim.Native.String.{String}
use text.Mathlib.Text.{◌==◌ as str_eq}
use choix.Base.{ℕ, some, none, List, [], ◌∷◌, ◌≡◌, refl, All, inl, inr, false, true, if◌then◌else◌}
use choix.Base.Int.{pos}
use choix.Base.Sort.{sort_by}
use choix.Store.Files.{File}
use choix.Store.FilesRepo.{pick_by_status}
use choix.Store.FilesRepo.Keep.{row_ids}
use choix.Meta.Fields.{Metadata, captured, device_key}
use choix.Meta.Extract.{Tools, process_by_status}
use choix.Meta.Extract.Progress.{AllDone, process_by_status-AllDone}

abbrev shot : Metadata
shot = record {
  make = " FUJIFILM ";
  model = "X-T5";
  serial_number = "1\t";
  date_time_original = none;
  create_date = some (pos 50);
  modify_date = some (pos 90);
  width = 4;
  height = 0;
  iso = 200;
  shutter = "1/250";
}

captured-1 : captured shot ≡ some (pos 50)
unfolding captured
captured-1 = refl

device_key-1 : device_key shot ≡ "FUJIFILM X-T5#1"
unfolding device_key
device_key-1 = refl

device_key-2 : device_key (record shot { model = " " }) ≡ "Unknown"
unfolding device_key
device_key-2 = refl

abbrev exiftool : Tools String
exiftool = record {
  run = λ path. if str_eq path "/m/bad.jpg" then inl "exit 1" else inr "{}";
  parse = λ raw. inr shot;
  gzip = λ raw. inr raw;
  load_fails = λ id. false;
  update_error = λ id. none;
  record_fails = λ id. false;
  query_fails = false;
}

abbrev fresh : ℕ → String → File
fresh id path = record {
  id = id;
  path = path;
  size = 10;
  mtime = pos 5;
  content_hash = "00";
  kind = "photo";
  format = "jpeg";
  device_key = none;
  captured_at = none;
  width = none;
  height = none;
  iso = none;
  shutter = none;
  scan_status = "discovered";
  err_msg = none;
}

abbrev rows : List File
rows = fresh 7 "bad.jpg" ∷ fresh 3 "good.jpg" ∷ []

process-1 : process_by_status exiftool (λ n. false) "/m" "discovered" 10 rows ≡ (
  1,
  true,
  record (fresh 7 "bad.jpg") { scan_status = "failed"; err_msg = some "exiftool: exit 1" }
      ∷ record (fresh 3 "good.jpg") {
        device_key = some "FUJIFILM X-T5#1";
        captured_at = some (pos 50);
        width = some 4;
        iso = some 200;
        shutter = some "1/250";
        scan_status = "metadata";
      }
      ∷ [],
)
unfolding process_by_status sort_by
process-1 = refl

process_by_status-AllDone_example :
    All
      (λ (f : File).
        AllDone f.id ((process_by_status exiftool (λ n. false) "/m" "discovered" 10 rows).2))
      (pick_by_status "discovered" 10 rows)
    × (row_ids ((process_by_status exiftool (λ n. false) "/m" "discovered" 10 rows).2)
        ≡ row_ids rows)
process_by_status-AllDone_example =
    process_by_status-AllDone exiftool (λ id. refl) (λ id. refl) (λ id. refl) "/m" "discovered" 10
      rows refl
