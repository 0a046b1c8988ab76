-- ===== src/Scanner/Examples.antt =====
-- internal/scanner on a small tree. Letters keep their case here.
use Prim.Native.String.{String}
use text.Mathlib.Text.{◌==◌ as str_eq}
use choix.Base.{
  ℕ, zero, suc, List, some, none, [], ◌∷◌, map, true, false, ◌≡◌, refl, All, In, inl, inr, arith,
}
use choix.Base.Int.{pos}
use choix.Store.Files.{File}
use choix.Store.FilesRepo.{mark_missing_except, delete_under_path}
use choix.Store.FilesRepo.Under.{LiesUnder, delete_under_path-LiesUnder}
use choix.Scanner.Hash.Windows.{Windows}
use choix.Scanner.Formats.{detect_from_ext, photo}
use choix.Scanner.Tree.{Content, Entries, file, folder, none_left, next}
use choix.Scanner.Walk.{Text, Faults, Scan, walk, set_picks_dir, is_under_dir, is_skipped}
use choix.Scanner.Walk.Reference.{found}
use choix.Scanner.Walk.Whole.{scanned_all, walk-scanned_all}
use choix.Scanner.Walk.Settled.{Standing, media_files, walk-Standing}

abbrev plain : Text
plain = record { lower = λ s. s; go_lower = λ s. s; equal_fold = str_eq; xxhash = λ bytes. "00" }

abbrev calm : Faults
calm = record {
  read_fails = λ p. false;
  stat_fails = λ p. false;
  hash_fails = λ p. false;
  upsert_fails = λ p. false;
  evict_fails = false;
  root_fails = false;
  mark_fails = false;
  ctx_err = λ n. false;
}

abbrev content : Content
content = record { mtime = pos 7; bytes = 1 ∷ 2 ∷ [] }

abbrev tree : Entries
tree = next (folder ".git" (next (file "x.jpg" content) none_left)) (
    next (folder "day" (next (file "a.jpg" content) (next (file "b.txt" content) none_left))) (
      next (folder "picks" (next (file "a.jpg" content) none_left))
        (next (file "c.mov" content) none_left)))

abbrev row : ℕ → String → String → String → String → File
row id path kind format status = record {
  id = id;
  path = path;
  size = 2;
  mtime = pos 7;
  content_hash = "00";
  kind = kind;
  format = format;
  device_key = none;
  captured_at = none;
  width = none;
  height = none;
  iso = none;
  shutter = none;
  scan_status = status;
  err_msg = none;
}

abbrev before : Scan
before = record {
  rows =
      row 1 "day/a.jpg" "photo" "jpeg" "analyzed"
      ∷ row 2 "gone.png" "photo" "png" "analyzed"
      ∷ row 3 "picks/old.jpg" "photo" "jpeg" "analyzed"
      ∷ [];
  seen = [];
  calls = 0;
}

abbrev after : Scan
after = record {
  rows =
      row 1 "day/a.jpg" "photo" "jpeg" "analyzed"
      ∷ row 2 "gone.png" "photo" "png" "missing"
      ∷ row 3 "c.mov" "video" "mov" "discovered"
      ∷ [];
  seen = ("day/a.jpg", 1) ∷ ("c.mov", 3) ∷ [];
  calls = 7;
}

walk-1 : walk plain calm "picks" "/m" tree before ≡ (true, after)
unfolding walk
walk-1 = refl

-- A file that was missing and is found again as it was keeps its status.
walk-2 :
    (walk plain calm "picks" "/m"
      (next (file "a.jpg" content) none_left)
      (record { rows = row 1 "a.jpg" "photo" "jpeg" "missing" ∷ []; seen = []; calls = 0 })).1.rows
    ≡ row 1 "a.jpg" "photo" "jpeg" "missing" ∷ []
unfolding walk
walk-2 = refl

set_picks_dir-1 : set_picks_dir "/exports/best//" ≡ "exports/best"
unfolding set_picks_dir
set_picks_dir-1 = refl

set_picks_dir-2 : set_picks_dir "//" ≡ "picks"
unfolding set_picks_dir
set_picks_dir-2 = refl

is_under_dir-1 : is_under_dir plain calm "picks" "picks/a" "picks" ≡ true
unfolding is_under_dir
is_under_dir-1 = refl

is_under_dir-2 : is_under_dir plain calm "picks" "picks2/a" "picks" ≡ false
unfolding is_under_dir
is_under_dir-2 = refl

detect-1 : detect_from_ext (λ s. s) "a.b.dng" ≡ some (photo "raf")
unfolding detect_from_ext
detect-1 = refl

found-1 :
    found plain calm "picks" "." tree
    ≡ row 0 "day/a.jpg" "photo" "jpeg" "discovered" ∷ row 0 "c.mov" "video" "mov" "discovered" ∷ []
unfolding found is_skipped
found-1 = refl

walk-scanned_all_example :
    (after.rows
      ≡ mark_missing_except plain.lower plain.go_lower
          (map (λ e. e.0) ((scanned_all plain calm "picks" tree before).1))
          ((scanned_all plain calm "picks" tree before).0))
    × (after.seen ≡ (scanned_all plain calm "picks" tree before).1)
walk-scanned_all_example = walk-scanned_all plain calm "picks" "/m" tree before after walk-1

distinct_1 : ¬ In {A = ℕ} 1 (2 ∷ 3 ∷ [])
distinct_1 m = ground arith

distinct_2 : ¬ In {A = ℕ} 2 (3 ∷ [])
distinct_2 m = ground arith

distinct_path : ¬ In {A = String} "day/a.jpg" ("c.mov" ∷ [])
distinct_path (inl e) = absurd cc
distinct_path (inr m) = m

walk-Standing_example :
    All
      (λ f.
        Standing plain calm "picks" f ((scanned_all plain calm "picks" tree before).0) after.rows)
      (media_files plain calm "picks" tree)
unfolding found is_skipped
walk-Standing_example =
    walk-Standing plain calm "picks" "/m" tree before after
      (distinct_1, (distinct_2, ((λ m. m), tt))) (distinct_path, ((λ m. m), tt)) (refl, (refl, tt))
      walk-1

delete_under_path-LiesUnder_example :
    All (λ f. ¬ LiesUnder (λ s. s) "picks" f) (delete_under_path (λ s. s) "picks" before.rows)
delete_under_path-LiesUnder_example =
    delete_under_path-LiesUnder (λ s. s) "picks" before.rows (λ e. cc)

-- A file of n bytes.
abbrev zeros : ℕ → List ℕ
zeros zero = []
zeros (suc n) = 0 ∷ zeros n
