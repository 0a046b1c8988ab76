-- ===== src/Store/Analyzed.antt =====
-- internal/store/files.go: ListAllAnalyzed and UpdateMetadata.
use Prim.Native.String.{String}
use Prim.Native.String.{compare as compare_text}
use text.Mathlib.Text.{◌==◌ as str_eq, is_lt}
use choix.Base.{
  ℕ, suc, ◌/◌, ◌*◌, ◌==◌, ◌&&◌, keep, Option, some, none, List, if◌then◌else◌, Bool, true, false,
  ltb, Perm,
}
use choix.Base.Int.{ℤ, pos, negsuc, ◌-ℤ◌, ltb_ℤ, eqb_ℤ}
use choix.Base.Sort.{sort_by, sort_by-perm}
use choix.Store.Files.{File}
use choix.Store.FilesRepo.{at_status, has_id, update_where}

-- `COALESCE(device_key, 'Unknown')`
abbrev pub coalesced : Option String → String
coalesced none = "Unknown"
coalesced (some d) = d

-- `captured_at IS NULL, captured_at, id`
abbrev pub time_less : Option ℤ → Option ℤ → Bool → Bool
time_less none none by_id = by_id
time_less none (some u) by_id = false
time_less (some t) none by_id = true
time_less (some t) (some u) by_id = if eqb_ℤ t u then by_id else ltb_ℤ t u

abbrev pub analyzed_less : File → File → Bool
analyzed_less f g =
    if str_eq (coalesced f.device_key) (coalesced g.device_key)
    then time_less f.captured_at g.captured_at (ltb f.id g.id)
    else is_lt (compare_text (coalesced f.device_key) (coalesced g.device_key))

unfoldable pub list_all_analyzed : List File → List File
list_all_analyzed t = sort_by analyzed_less (at_status "analyzed" t)

abbrev pub magnitude : ℤ → ℕ
magnitude (pos n) = n
magnitude (negsuc n) = suc n

-- `(captured_at / ?) * ?` with the division of SQLite: towards zero, and NULL by zero.
abbrev pub bucket_start : ℤ → ℕ → ℤ
bucket_start (pos n) width = pos (n / width * width)
bucket_start (negsuc n) width = pos 0 -ℤ pos (suc n / width * width)

abbrev pub in_time_bucket : Option ℤ → ℤ → Option ℤ → Bool
in_time_bucket none bucket_sec none = true
in_time_bucket none bucket_sec (some t) = false
in_time_bucket (some b) bucket_sec none = false
in_time_bucket (some b) bucket_sec (some t) =
    if magnitude bucket_sec == 0 then false else eqb_ℤ (bucket_start t (magnitude bucket_sec)) b

abbrev pub has_device : String → Option String → Bool
has_device device none = false
has_device device (some key) = str_eq key device

-- ListAnalyzedInBucket.
unfoldable pub list_analyzed_in_bucket : String → Option ℤ → ℤ → List File → List File
list_analyzed_in_bucket device bucket bucket_sec t =
    keep (λ f. has_device device f.device_key && in_time_bucket bucket bucket_sec f.captured_at)
      (at_status "analyzed" t)

-- The metadata fields of `f` go to the row with its id.
unfoldable pub update_metadata : File → List File → List File
unfolding update_where
update_metadata f = update_where (has_id f.id) (λ r. record r {
  device_key = f.device_key;
  captured_at = f.captured_at;
  width = f.width;
  height = f.height;
  iso = f.iso;
  shutter = f.shutter;
  scan_status = "metadata";
  err_msg = none;
})

-- ListAllAnalyzed returns each analyzed file once, and no other file.
pub list_all_analyzed-perm : (t : List File) → Perm (list_all_analyzed t) (at_status "analyzed" t)
unfolding list_all_analyzed
list_all_analyzed-perm t = sort_by-perm analyzed_less (at_status "analyzed" t)
