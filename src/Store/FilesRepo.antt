-- ===== src/Store/FilesRepo.antt =====
-- internal/store/files.go: the statements of FilesRepo as operations on the rows of the files table.
-- A statement that fails changes nothing, so only statements that succeed are modelled.
pub mod Queue
pub mod Rescan
pub mod Keep
pub mod Under
use Prim.Native.Char.{Char, code}
use Prim.Native.String.{String, ◌++◌ as str_append}
use text.Mathlib.Text.{◌==◌ as str_eq}
use choix.Base.{
  ℕ, zero, suc, Option, some, none, List, [], ◌∷◌, ◌++◌, if◌then◌else◌, Bool, true, false, not,
  ◌==◌, ◌&&◌, ◌||◌, ltb, keep, map, length, ◌+◌,
}
use choix.Base.Int.{ℤ, eqb_ℤ}
use choix.Base.Sort.{sort_by}
use choix.Store.Files.{File}

-- `ORDER BY id`
abbrev pub sort_files : List File → List File
sort_files = sort_by (λ f g. ltb f.id g.id)

abbrev pub at_status : String → List File → List File
at_status status = keep (λ f. str_eq f.scan_status status)

-- `LIMIT n`
abbrev pub take : {A : Type 0} → ℕ → List A → List A
take zero xs = []
take (suc n) [] = []
take (suc n) (x ∷ xs) = x ∷ take n xs

unfoldable pub count_by_status : String → List File → ℕ
count_by_status status t = length (at_status status t)

-- PickByStatus of internal/store/files_batch.go.
unfoldable pub pick_by_status : String → ℕ → List File → List File
pick_by_status status limit t = take limit (sort_files (at_status status t))

unfoldable pub list_by_status : String → ℕ → List File → List File
list_by_status status limit t = take limit (sort_files (at_status status t))

unfoldable pub ids_by_status : String → ℕ → List File → List ℕ
unfolding list_by_status
ids_by_status status limit t = map (λ f. f.id) (list_by_status status limit t)

unfoldable pub paths_by_status : String → List File → List String
paths_by_status status t = map (λ f. f.path) (at_status status t)

-- `UPDATE files SET … WHERE …`
unfoldable pub update_where : (File → Bool) → (File → File) → List File → List File
update_where p change [] = []
update_where p change (f ∷ fs) =
    if p f then change f ∷ update_where p change fs else f ∷ update_where p change fs

abbrev pub has_id : ℕ → File → Bool
has_id id f = f.id == id

-- An empty message is stored as NULL.
abbrev pub null_string : String → Option String
null_string s = if str_eq s "" then none else some s

abbrev pub update_status : ℕ → String → String → List File → List File
update_status id status msg =
    update_where (has_id id) (λ f. record f { scan_status = status; err_msg = null_string msg })

abbrev pub set_scan_status : ℕ → String → String → List File → List File
set_scan_status = update_status

abbrev pub mark_scan_failure : ℕ → String → List File → List File
mark_scan_failure id msg =
    update_where (has_id id) (λ f. record f { scan_status = "failed"; err_msg = some msg })

abbrev pub mark_missing : String → List File → List File
mark_missing path =
    update_where (λ f. str_eq f.path path) (λ f. record f { scan_status = "missing" })

-- `embedded id` tells that ai_signals has an embedding for the file.
abbrev pub bump_analyzed_missing_embedding : (ℕ → Bool) → List File → List File
bump_analyzed_missing_embedding embedded =
    update_where (λ f. str_eq f.scan_status "analyzed" && not (embedded f.id))
      (λ f. record f { scan_status = "thumbed"; err_msg = none })

abbrev pub next_id : List File → ℕ
next_id [] = 1
next_id (f ∷ fs) = if ltb f.id (next_id fs) then next_id fs else suc f.id

unfoldable pub find_file : (File → Bool) → List File → Option File
find_file p [] = none
find_file p (f ∷ fs) = if p f then some f else find_file p fs

abbrev pub new_row : ℕ → File → File
new_row id f = record {
  id = id;
  path = f.path;
  size = f.size;
  mtime = f.mtime;
  content_hash = f.content_hash;
  kind = f.kind;
  format = f.format;
  device_key = none;
  captured_at = none;
  width = none;
  height = none;
  iso = none;
  shutter = none;
  scan_status = f.scan_status;
  err_msg = none;
}

-- A pattern after `%` matches at some later position.
abbrev pub at_some : (String → Bool) → String → Bool
at_some matches String.[] = matches String.[]
at_some matches (String.◌∷◌ c cs) = matches (String.◌∷◌ c cs) || at_some matches cs

abbrev pub matches_char : Char → (String → Bool) → String → Bool
matches_char p rest String.[] = false
matches_char p rest (String.◌∷◌ c cs) = (code p == 95 || code p == code c) && rest cs

-- `text LIKE pattern` on texts without upper-case letters: `%` (37) stands for any text and `_` (95)
-- for any character.
unfoldable pub like : String → String → Bool
like String.[] String.[] = true
like String.[] (String.◌∷◌ c cs) = false
like (String.◌∷◌ p ps) text =
    if code p == 37 then at_some (like ps) text else matches_char p (like ps) text

-- `lower` is LOWER of SQLite.
module _ (lower : String → String) where
  abbrev pub same_path : String → File → Bool
  same_path path f = str_eq (lower f.path) (lower path)

  abbrev pub get_by_path : String → List File → Option File
  get_by_path path = find_file (same_path path)

  -- The row that has the very path, else the row that the unique index on LOWER(path) finds.
  abbrev pub insert_unless : Option File → Option File → File → List File → ℕ × List File
  insert_unless (some e) other f t = (e.id, t)
  insert_unless none (some e) f t = (e.id, t)
  insert_unless none none f t = (next_id t, t ++ new_row (next_id t) f ∷ [])

  unfoldable pub insert : File → List File → ℕ × List File
  unfolding find_file
  insert f t = insert_unless (find_file (λ e. str_eq e.path f.path) t) (get_by_path f.path t) f t

  abbrev pub unchanged : File → File → Bool
  unchanged f e =
      e.size == f.size && (eqb_ℤ e.mtime f.mtime && str_eq e.content_hash f.content_hash)

  abbrev pub refreshed : File → File → File
  refreshed f e = record e {
    size = f.size;
    mtime = f.mtime;
    content_hash = f.content_hash;
    kind = f.kind;
    format = f.format;
    scan_status = "discovered";
    err_msg = none;
  }

  abbrev pub rescan_existing : Option File → File → List File → ℕ × Bool × List File
  rescan_existing none f t = let r = insert f t in (r.0, true, r.1)
  rescan_existing (some e) f t =
      if unchanged f e
      then (e.id, false, t)
      else (e.id, false, update_where (has_id e.id) (refreshed f) t)

  -- The id, whether it is new, and the table.
  unfoldable pub upsert_on_rescan : File → List File → ℕ × Bool × List File
  unfolding find_file insert update_where
  upsert_on_rescan f t = rescan_existing (get_by_path f.path t) f t

  -- DeleteUnderPath: the rows that it keeps.
  abbrev pub is_under_path : String → File → Bool
  is_under_path dir f =
      str_eq (lower f.path) (lower dir) || like (str_append (lower dir) "/%") (lower f.path)

  unfoldable pub delete_under_path : String → List File → List File
  unfolding like
  delete_under_path dir t = if str_eq dir "" then t else keep (λ f. not (is_under_path dir f)) t

  -- `go_lower` is strings.ToLower, which prepares the paths that were seen.
  abbrev pub is_in : String → List String → Bool
  is_in s [] = false
  is_in s (x ∷ xs) = if str_eq s x then true else is_in s xs

  abbrev pub unseen : (String → String) → List String → File → Bool
  unseen go_lower seen f =
      not (str_eq f.scan_status "missing") && not (is_in (lower f.path) (map go_lower seen))

  unfoldable pub mark_missing_except : (String → String) → List String → List File → List File
  unfolding update_where
  mark_missing_except go_lower seen =
      update_where (unseen go_lower seen) (λ f. record f { scan_status = "missing" })
