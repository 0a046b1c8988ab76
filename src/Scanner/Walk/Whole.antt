-- ===== src/Scanner/Walk/Whole.antt =====
-- A whole Walk: eviction, the media files of the pruned tree in order, and the marking of the rest.
use Prim.Native.String.{String}
use text.Mathlib.Text.{◌==◌ as str_eq}
use choix.Base.{ℕ, List, [], map, if◌then◌else◌, Bool, true, false, ◌≡◌, ap, subst}
use choix.Store.Files.{File}
use choix.Store.FilesRepo.{mark_missing_except, delete_under_path}
use choix.Scanner.Tree.{Entries}
use choix.Scanner.Walk.{Text, Faults, Scan, and_then, called, walk_entries, mark, walk_root, walk}
use choix.Scanner.Walk.Reference.{found, absorb, Did, if-Did, walk_entries-Did}

module _ (text : Text) (faults : Faults) (picks_dir : String) where
  abbrev pub evicted : Scan → List File
  evicted s = delete_under_path text.lower picks_dir s.rows

  -- The table and the map after the upserts of a Walk.
  abbrev pub scanned_all : Entries → Scan → List File × List (String × ℕ)
  scanned_all es s =
      absorb text faults picks_dir (found text faults picks_dir "." es) (evicted s, [])

  abbrev pub Walked : Entries → Scan → Bool × Scan → Type 0
  Walked es s (false, u) = Unit
  Walked es s (true, u) =
      (u.rows
        ≡ mark_missing_except text.lower text.go_lower (map (λ e. e.0) ((scanned_all es s).1))
            ((scanned_all es s).0))
      × (u.seen ≡ (scanned_all es s).1)

  walk_root-Did :
      (es : Entries) (s : Scan)
      → Did text faults picks_dir
          (found text faults picks_dir "." es)
          s
          (walk_root text faults picks_dir es s)
  walk_root-Did es s =
      if-Did text faults picks_dir (found text faults picks_dir "." es) s faults.root_fails _ _
        (λ t. tt)
        (λ t.
          if-Did text faults picks_dir (found text faults picks_dir "." es) s
            (faults.ctx_err s.calls) _ _ (λ u. tt)
            (λ u.
              if-Did text faults picks_dir (found text faults picks_dir "." es) s
                (faults.read_fails ".") _ _ (λ v. tt)
                (λ v.
                  again (walk_entries text faults picks_dir "." es (called s))
                    (walk_entries-Did text faults picks_dir "." es (called s)))))
    where
      again :
          (r : Bool × Scan)
          → Did text faults picks_dir (found text faults picks_dir "." es) (called s) r
          → Did text faults picks_dir (found text faults picks_dir "." es) s r
      again (false, u) d = tt
      again (true, u) d = d

  if-Walked :
      (es : Entries) (s : Scan) (b : Bool) (x y : Bool × Scan)
      → Walked es s x
      → Walked es s y
      → Walked es s (if b then x else y)
  if-Walked es s true x y h k = h
  if-Walked es s false x y h k = k

  walk-Walked :
      (root : String) (es : Entries) (s : Scan) → Walked es s (walk text faults picks_dir root es s)
  unfolding walk
  walk-Walked root es s = if-Walked es s (str_eq root "") _ _ tt (
      if-Walked es s faults.evict_fails _ _ tt
        (marked (walk_root text faults picks_dir es start) (walk_root-Did es start)))
    where
      start : Scan
      start = record { rows = evicted s; seen = []; calls = s.calls }

      marked :
          (r : Bool × Scan)
          → Did text faults picks_dir (found text faults picks_dir "." es) start r
          → Walked es s (and_then r (mark text faults picks_dir))
      marked (false, u) d = tt
      marked (true, u) d = if-Walked es s faults.mark_fails _ _ tt (
        ap (λ p. mark_missing_except text.lower text.go_lower (map (λ e. e.0) (p.1)) (p.0)) d,
        ap (λ p. p.1) d,
      )

  -- A Walk that ends with no error has dropped the rows under the picks folder, then upserted the
  -- media files of the tree without its skipped folders, in the order of the walk, and then marked
  -- as missing what was not seen; `seen` holds the paths of those files with the ids of their rows.
  pub walk-scanned_all :
      (root : String) (es : Entries) (s u : Scan)
      → walk text faults picks_dir root es s ≡ (true, u)
      → (u.rows
          ≡ mark_missing_except text.lower text.go_lower
              (map (λ e. e.0) ((scanned_all es s).1))
              ((scanned_all es s).0))
        × (u.seen ≡ (scanned_all es s).1)
  walk-scanned_all root es s u h = subst (Walked es s) h (walk-Walked root es s)
