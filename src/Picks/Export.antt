-- ===== src/Picks/Export.antt =====
-- internal/picks/export.go: copies of picked files under the export root.
pub mod Candidates
pub mod Target
pub mod Effects
pub mod Removal
use Prim.Native.String.{String, ◌++◌}
use text.Mathlib.Text.{◌==◌ as str_eq, starts_with}
use choix.Base.{
  ℕ, zero, suc, ◌+◌, Option, some, none, List, [], ◌∷◌, if◌then◌else◌, Bool, true, false, ◌==◌, ◌⊎◌,
  inl, inr, length, not,
}
use choix.Base.Paths.{slash, clean, join, dir, base, ext, trim_suffix, up_to_slash}
use choix.Base.Decimal.{decimal}
use choix.Store.Files.{File}
use choix.Picks.Disk.{read, write, erase}
use choix.Picks.Service.{Exporter}

pub data ExportError : Type 0 where
  escapes_scan_root : ExportError
  escapes_export_root : ExportError
  open_source : ExportError
  hash_target : ExportError
  make_folder : ExportError
  create_tmp : ExportError
  copy_content : ExportError
  close_tmp : ExportError
  rename_tmp : ExportError
  remove_copy_failed : ExportError
  unresolved : ExportError

-- What the operating system answers, call by call and path by path, beside the files of the disk,
-- and xxhash. `remove_fails` is an error other than ErrNotExist, which os.Remove may answer
-- whether or not a file stands at the path. `empty` is the content of a file just created, `partial` what a failed copy leaves.
pub record Os (C : Type 0) : Type 0 where
  pub content_hash : C → String
  pub empty : C
  pub partial : C → C
  pub open_fails : String → Bool
  pub probe_fails : String → Bool
  pub mkdir_fails : String → Bool
  pub create_fails : String → Bool
  pub copy_fails : String → Bool
  pub close_fails : String → Bool
  pub rename_fails : String → Bool
  pub remove_fails : String → Bool

unfoldable pub is_under : String → String → Bool
is_under parent child =
    starts_with (child ++ String.◌∷◌ slash String.[]) (parent ++ String.◌∷◌ slash String.[])

abbrev pub suffixed_name : String → String → ℕ → String
suffixed_name stem extension n = stem ++ String.◌∷◌ "_" (decimal n ++ extension)

unfoldable pub suffixed_path : String → ℕ → String
unfolding clean join up_to_slash base ext trim_suffix decimal
suffixed_path p n = join (dir p) (suffixed_name (trim_suffix (base p) (ext p)) (ext p) n)

unfoldable pub candidate : String → ℕ → String
unfolding suffixed_path
candidate slot n = if n == 1 then slot else suffixed_path slot n

-- What resolveTarget answers: the path of a free slot with its absolute path, the path of a copy
-- that is there already, or an error.
pub data Slot : Type 0 where
  free : String → String → Slot
  same : String → Slot
  failed : ExportError → Slot

abbrev pub tmp_of : String → String
tmp_of abs = abs ++ ".tmp"

module _ {C : Type 0} (os : Os C) (scan_root picks_dir : String) where
  abbrev pub Disk : Type 0
  Disk = List (String × C)

  -- hashIfExists; `inr ""` for a missing file.
  abbrev pub hash_of : Option C → String
  hash_of none = ""
  hash_of (some c) = os.content_hash c

  unfoldable pub hash_if_exists : String → Disk → ExportError ⊎ String
  unfolding read
  hash_if_exists p d = if os.probe_fails p then inl hash_target else inr (hash_of (read p d))

  -- One round of the loop; `next` is what the later rounds answer.
  abbrev pub settle : String → String → String → ExportError ⊎ String → Option Slot → Option Slot
  settle wanted rel abs (inl e) next = some (failed e)
  settle wanted rel abs (inr existing) next =
      if str_eq existing ""
      then some (free rel abs)
      else if str_eq existing wanted
      then some (same rel)
      else next

  -- The loop of resolveTarget from the n-th candidate on; `none` when the fuel is spent.
  unfoldable pub resolve : String → String → ℕ → ℕ → Disk → Option Slot
  unfolding hash_if_exists candidate join
  resolve wanted slot zero n d = none
  resolve wanted slot (suc fuel) n d =
      settle wanted (candidate slot n) (join scan_root (candidate slot n))
        (hash_if_exists (join scan_root (candidate slot n)) d) (resolve wanted slot fuel (suc n) d)

  unfoldable pub resolve_target : File → Disk → Option Slot
  unfolding resolve join
  resolve_target f d = resolve f.content_hash (join picks_dir f.path) (suc (suc (length d))) 1 d

  unfoldable pub export_root : String
  unfolding clean join
  export_root = clean (join (clean scan_root) picks_dir)

  unfoldable pub root_inside : Bool
  unfolding clean is_under export_root
  root_inside = is_under (clean scan_root) export_root

  abbrev pub Answer : Type 0
  Answer = (ExportError ⊎ String) × Disk

  -- `_ = os.Remove(p)`
  abbrev pub try_remove : String → Disk → Disk
  try_remove p d = if os.remove_fails p then d else erase p d

  -- What io.Copy reads from the open source, by the path of the source.
  abbrev pub or_empty : Option C → C
  or_empty none = os.empty
  or_empty (some c) = c

  -- The end of exportFile, with the temporary file open: copy, close and rename.
  unfoldable pub fill_tmp : String → String → C → Disk → Answer
  unfolding write erase
  fill_tmp rel abs content d =
      if os.copy_fails (tmp_of abs)
      then (inl copy_content, try_remove (tmp_of abs) (write (tmp_of abs) (os.partial content) d))
      else if os.close_fails (tmp_of abs)
      then (inl close_tmp, try_remove (tmp_of abs) (write (tmp_of abs) content d))
      else if os.rename_fails abs
      then (inl rename_tmp, try_remove (tmp_of abs) (write (tmp_of abs) content d))
      else (inr rel, write abs content (erase (tmp_of abs) (write (tmp_of abs) content d)))

  unfoldable pub copy_to : String → String → String → Disk → Answer
  unfolding read write fill_tmp
  copy_to src rel abs d =
      if os.mkdir_fails abs
      then (inl make_folder, d)
      else if os.create_fails (tmp_of abs)
      then (inl create_tmp, d)
      else fill_tmp rel abs (or_empty (read src (write (tmp_of abs) os.empty d)))
          (write (tmp_of abs) os.empty d)

  -- exportFile from the resolved target on.
  unfoldable pub export_to : String → Option Slot → Disk → Answer
  unfolding is_under export_root copy_to
  export_to src none d = (inl unresolved, d)
  export_to src (some (failed e)) d = (inl e, d)
  export_to src (some (same rel)) d = (inr rel, d)
  export_to src (some (free rel abs)) d =
      if str_eq abs ""
      then (inr rel, d)
      else if is_under export_root abs
      then copy_to src rel abs d
      else (inl escapes_export_root, d)

  abbrev pub with_source : Option C → String → Disk → Answer → Answer
  with_source none src d rest = (inl open_source, d)
  with_source (some c) src d rest = if os.open_fails src then (inl open_source, d) else rest

  unfoldable pub source_path : File → String
  unfolding clean join
  source_path f = join (clean scan_root) f.path

  unfoldable pub export_file : File → Disk → Answer
  unfolding root_inside source_path resolve_target export_to read
  export_file f d =
      if root_inside
      then with_source (read (source_path f) d) (source_path f) d
          (export_to (source_path f) (resolve_target f d) d)
      else (inl escapes_scan_root, d)

  -- The part of Unexport that deals with the disk: `path` is the recorded path of the copy.
  abbrev pub removal : String → Disk → Option C → Option ExportError × Disk
  removal abs d none = if os.remove_fails abs then (some remove_copy_failed, d) else (none, d)
  removal abs d (some c) =
      if os.remove_fails abs then (some remove_copy_failed, d) else (none, erase abs d)

  unfoldable pub copy_path : String → String
  unfolding clean join
  copy_path path = clean (join (clean scan_root) path)

  unfoldable pub remove_copy : String → Disk → Option ExportError × Disk
  unfolding is_under export_root copy_path read erase
  remove_copy path d =
      if is_under export_root (copy_path path)
      then removal (copy_path path) d (read (copy_path path) d)
      else (some escapes_export_root, d)

  -- The disk's part of the pick service.
  unfoldable pub exporter : Exporter Disk ExportError
  unfolding export_file remove_copy root_inside
  exporter = record {
    export_file = export_file;
    remove_copy = remove_copy;
    root_inside = root_inside;
  }
