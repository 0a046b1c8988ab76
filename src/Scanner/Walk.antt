-- ===== src/Scanner/Walk.antt =====
-- internal/scanner/scanner.go: Walk and Scan.
pub mod Reference
pub mod Whole
pub mod Settled
use Prim.Native.String.{String, ◌++◌, len, slice}
use text.Mathlib.Text.{◌==◌ as str_eq, starts_with}
use choix.Base.{
  ℕ, zero, suc, Option, some, none, List, [], ◌∷◌, map, length, if◌then◌else◌, Bool, true, false,
  ◌||◌, leb,
}
use choix.Base.Paths.{slash, is_slash, drop_slashes}
use choix.Store.Files.{File}
use choix.Store.FilesRepo.{upsert_on_rescan, mark_missing_except, delete_under_path}
use choix.Scanner.Formats.{FormatInfo, detect_from_ext}
use choix.Scanner.Hash.{content_hash}
use choix.Scanner.Tree.{Content, Entry, Entries, file, folder, none_left, next, child}

-- The functions on text that the scanner calls: LOWER of SQLite, strings.ToLower, strings.EqualFold,
-- and xxhash.
pub record Text : Type 0 where
  pub lower : String → String
  pub go_lower : String → String
  pub equal_fold : String → String → Bool
  pub xxhash : List ℕ → String

-- What can fail: reading a folder, the metadata or the content of a file and the upsert of its row,
-- by path; the eviction, the look at the root and the last statement; and ctx.Err() call by call.
pub record Faults : Type 0 where
  pub read_fails : String → Bool
  pub stat_fails : String → Bool
  pub hash_fails : String → Bool
  pub upsert_fails : String → Bool
  pub evict_fails : Bool
  pub root_fails : Bool
  pub mark_fails : Bool
  pub ctx_err : ℕ → Bool

-- The table of files, the map `seen`, and how often the walk function was called.
pub record Scan : Type 0 where
  pub rows : List File
  pub seen : List (String × ℕ)
  pub calls : ℕ

abbrev pub seen_paths : Scan → List String
seen_paths s = map (λ e. e.0) s.seen

-- `s.seen[path] = id`
unfoldable pub set_seen : String → ℕ → List (String × ℕ) → List (String × ℕ)
set_seen path id [] = (path, id) ∷ []
set_seen path id ((p, i) ∷ seen) =
    if str_eq p path then (p, id) ∷ seen else (p, i) ∷ set_seen path id seen

-- A step that ended well goes on; `false` is an error.
abbrev pub and_then : Bool × Scan → (Scan → Bool × Scan) → Bool × Scan
and_then (false, s) rest = (false, s)
and_then (true, s) rest = rest s

abbrev pub called : Scan → Scan
called s = record s { calls = suc s.calls }

module _ (text : Text) (faults : Faults) (picks_dir : String) where
  -- isUnderDir; lengths and positions are in bytes.
  unfoldable pub is_under_dir : String → String → Bool
  is_under_dir path dir =
      let prefix = dir ++ String.◌∷◌ slash String.[] in
      if str_eq dir ""
      then false
      else if text.equal_fold path dir
      then true
      else if leb (len path) (len prefix)
      then false
      else text.equal_fold (slice path 0 (len prefix)) prefix

  -- The folders below the root that the walk function answers with SkipDir.
  unfoldable pub is_skipped : String → String → Bool
  is_skipped name rel =
      starts_with name "."
      || ((str_eq name ".choix" || str_eq name "node_modules") || text.equal_fold rel picks_dir)

  abbrev pub scanned : String → FormatInfo → Content → File
  scanned rel info c = record {
    id = 0;
    path = rel;
    size = length c.bytes;
    mtime = c.mtime;
    content_hash = content_hash text.xxhash c.bytes;
    kind = info.kind;
    format = info.format;
    device_key = none;
    captured_at = none;
    width = none;
    height = none;
    iso = none;
    shutter = none;
    scan_status = "discovered";
    err_msg = none;
  }

  abbrev pub upserted : File → ℕ × Bool × List File → Scan → Scan
  upserted f r s = record s { rows = r.2; seen = set_seen f.path r.0 s.seen }

  unfoldable pub upsert : File → Scan → Bool × Scan
  unfolding upsert_on_rescan set_seen
  upsert f s =
      if faults.upsert_fails f.path
      then (false, s)
      else (true, upserted f (upsert_on_rescan text.lower f s.rows) s)

  abbrev pub visit_media : String → Content → Option FormatInfo → Scan → Bool × Scan
  visit_media rel c none s = (true, s)
  visit_media rel c (some info) s =
      if is_under_dir rel picks_dir
      then (true, s)
      else if faults.stat_fails rel
      then (false, s)
      else if faults.hash_fails rel
      then (false, s)
      else upsert (scanned rel info c) s

  -- The walk function on a file.
  unfoldable pub visit_file : String → String → Content → Scan → Bool × Scan
  unfolding is_under_dir upsert detect_from_ext
  visit_file name rel c s =
      if faults.ctx_err s.calls
      then (false, called s)
      else visit_media rel c (detect_from_ext text.go_lower name) (called s)

  -- The walk function on a folder that is not the root, and what is done below it.
  abbrev pub visit_folder : String → String → (Scan → Bool × Scan) → Scan → Bool × Scan
  visit_folder name rel below s =
      if faults.ctx_err s.calls
      then (false, called s)
      else if is_skipped name rel
      then (true, called s)
      else if faults.read_fails rel
      then (false, called s)
      else below (called s)

  -- WalkDir: each entry is visited, a folder before what is in it, and an error ends the walk.
  unfoldable mutual
    unfolding visit_file is_skipped

    pub walk_entry : String → Entry → Scan → Bool × Scan
    walk_entry rel (file name c) s = visit_file name (child rel name) c s
    walk_entry rel (folder name es) s =
        visit_folder name (child rel name) (walk_entries (child rel name) es) s

    pub walk_entries : String → Entries → Scan → Bool × Scan
    walk_entries rel none_left s = (true, s)
    walk_entries rel (next e es) s = and_then (walk_entry rel e s) (walk_entries rel es)

  abbrev pub mark : Scan → Bool × Scan
  mark s = if faults.mark_fails then (false, s) else (
    true,
    record s { rows = mark_missing_except text.lower text.go_lower (seen_paths s) s.rows },
  )

  -- The walk function on the root, and the entries of the root.
  abbrev pub walk_root : Entries → Scan → Bool × Scan
  walk_root es s =
      if faults.root_fails
      then (false, called s)
      else if faults.ctx_err s.calls
      then (false, called s)
      else if faults.read_fails "."
      then (false, called s)
      else walk_entries "." es (called s)

  -- Walk of a scanner with the given root; `s` has the table and what was seen before.
  unfoldable pub walk : String → Entries → Scan → Bool × Scan
  unfolding walk_entries delete_under_path mark_missing_except
  walk root es s =
      if str_eq root ""
      then (false, s)
      else if faults.evict_fails
      then (false, record s { seen = [] })
      else and_then
          (walk_root es (record {
            rows = delete_under_path text.lower picks_dir s.rows;
            seen = [];
            calls = s.calls;
          }))
          mark

  -- Scan: the number of files seen, whether Walk ended well, and the state after it.
  unfoldable pub scan : String → Entries → Scan → ℕ × Bool × Scan
  unfolding walk
  scan root es s = let r = walk root es s in (length r.1.seen, r.0, r.1)

unfoldable pub drop_leading : String → String
drop_leading String.[] = String.[]
drop_leading (String.◌∷◌ c cs) =
    let rest = drop_leading cs in if is_slash c then rest else String.◌∷◌ c cs

abbrev pub or_picks : String → String
or_picks dir = if str_eq dir "" then "picks" else dir

-- SetPicksDir: the slashes at both ends are dropped, and the default is "picks".
unfoldable pub set_picks_dir : String → String
unfolding drop_slashes drop_leading
set_picks_dir dir = or_picks (drop_slashes (drop_leading dir))
