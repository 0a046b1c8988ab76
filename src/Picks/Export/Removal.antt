-- ===== src/Picks/Export/Removal.antt =====
-- What the removal of a copy by its recorded path changes on the disk.
use Prim.Native.String.{String}
use choix.Base.{Option, some, none, List, true, false, ◌≡◌, refl, inl, inr, Bool-cases, ◌≢◌, ◌⊎◌}
use choix.Picks.Disk.{read, read-erase, read-erase_other}
use choix.Picks.Export.{Os, ExportError, is_under, export_root, removal, copy_path, remove_copy}

module _ {C : Type 0} (os : Os C) (scan_root picks_dir : String) where
  -- Without an error the path lies under the export root, no file stands at it and no other file is
  -- changed; with an error nothing is changed, and either the path is not under the export root or
  -- the system's removal fails.
  abbrev pub Removed : String → List (String × C) → Option ExportError × List (String × C) → Type 0
  Removed abs d (none, d') =
      (is_under (export_root os scan_root picks_dir) abs ≡ true)
      × (read abs d' ≡ none)
      × ((p : String) → p ≢ abs → read p d' ≡ read p d)
  Removed abs d (some e, d') =
      (d' ≡ d)
      × ((is_under (export_root os scan_root picks_dir) abs ≡ false) ⊎ (os.remove_fails abs ≡ true))

  removal-Removed :
      (abs : String) (d : List (String × C)) (o : Option C)
      → read abs d ≡ o
      → is_under (export_root os scan_root picks_dir) abs ≡ true
      → Removed abs d (removal os scan_root picks_dir abs d o)
  removal-Removed abs d none r u = elim (Bool-cases (os.remove_fails abs)) [
    | inl t ↦ rw t (refl, inr t)
    | inr t ↦ rw t (u, r, λ p n. refl)
  ]
  removal-Removed abs d (some c) r u = elim (Bool-cases (os.remove_fails abs)) [
    | inl t ↦ rw t (refl, inr t)
    | inr t ↦ rw t (u, read-erase abs d, λ p n. read-erase_other abs p d n)
  ]

  -- The removal of a copy by the path that was recorded for it, whatever the system answers: without
  -- an error the path lies under the export root, no file stands at it any more and every other file
  -- is kept; with an error the disk is unchanged, and either the path is not under the export root
  -- or the system's removal fails with an error other than that there is no file.
  pub remove_copy-Removed :
      (path : String) (d : List (String × C))
      → Removed
          (copy_path os scan_root picks_dir path)
          d
          (remove_copy os scan_root picks_dir path d)
  unfolding remove_copy
  remove_copy-Removed path d =
      let abs = copy_path os scan_root picks_dir path in
      elim (Bool-cases (is_under (export_root os scan_root picks_dir) abs)) [
        | inl t ↦ rw t (removal-Removed abs d (read abs d) refl t)
        | inr t ↦ rw t (refl, inl t)
      ]
