-- ===== src/Picks/ExportExamples.antt =====
-- internal/picks/export.go on a folder whose contents are texts and hash to themselves.
use Prim.Native.Char.{code}
use Prim.Native.String.{String, ◌++◌}
use text.Mathlib.TextLemmas.{cons-append}
use choix.Base.{
  ℕ, some, none, List, [], ◌∷◌, true, false, ◌≡◌, refl, sym, ap, ◌∙◌, inl, inr, ◌≢◌, arith,
}
use choix.Base.Int.{pos}
use choix.Base.Paths.{join}
use choix.Store.Files.{File}
use choix.Store.Picks.{get}
use choix.Picks.Service.{World, pick, file_by_id}
use choix.Picks.Export.{
  Os, Slot, is_under, suffixed_path, resolve_target, tmp_of, source_path, copy_path, export_file,
  remove_copy, exporter, escapes_export_root, copy_content,
}
use choix.Picks.Export.Target.{IsFirst, resolve_target-IsFirst}
use choix.Picks.Export.Effects.{Exported, export_file-Exported}
use choix.Picks.Export.Removal.{Removed, remove_copy-Removed}
use choix.Picks.Delivery.{DeliveredTo, pick-DeliveredTo}

abbrev calm : Os String
calm = record {
  content_hash = λ c. "#" ++ c;
  empty = "";
  partial = λ c. "part";
  open_fails = λ p. false;
  probe_fails = λ p. false;
  mkdir_fails = λ p. false;
  create_fails = λ p. false;
  copy_fails = λ p. false;
  close_fails = λ p. false;
  rename_fails = λ p. false;
  remove_fails = λ p. false;
}

abbrev stuck : Os String
stuck = record calm { copy_fails = λ p. true; remove_fails = λ p. true }

abbrev cat : File
cat = record {
  id = 1;
  path = "2024/cat.jpg";
  size = 3;
  mtime = pos 5;
  content_hash = "#cat";
  kind = "photo";
  format = "jpeg";
  device_key = none;
  captured_at = none;
  width = none;
  height = none;
  iso = none;
  shutter = none;
  scan_status = "analyzed";
  err_msg = none;
}

abbrev folder : List (String × String)
folder = ("/m/2024/cat.jpg", "cat") ∷ ("/m/picks/2024/cat.jpg", "dog") ∷ []

suffixed_path-1 : suffixed_path "picks/2024/cat.jpg" 12 ≡ "picks/2024/cat_12.jpg"
unfolding suffixed_path
suffixed_path-1 = refl

is_under-1 : is_under "/m/picks" "/m/picks/a" ≡ true
unfolding is_under
is_under-1 = refl

is_under-2 : is_under "/m/picks" "/m/picks2/a" ≡ false
unfolding is_under
is_under-2 = refl

export_file-1 : export_file calm "/m" "picks" cat folder ≡ (
  inr "picks/2024/cat_2.jpg",
  ("/m/2024/cat.jpg", "cat")
      ∷ ("/m/picks/2024/cat.jpg", "dog")
      ∷ ("/m/picks/2024/cat_2.jpg", "cat")
      ∷ [],
)
unfolding export_file
export_file-1 = refl

export_file-2 : export_file stuck "/m" "picks" cat folder ≡ (
  inl copy_content,
  ("/m/2024/cat.jpg", "cat")
      ∷ ("/m/picks/2024/cat.jpg", "dog")
      ∷ ("/m/picks/2024/cat_2.jpg.tmp", "part")
      ∷ [],
)
unfolding export_file
export_file-2 = refl

remove_copy-1 :
    remove_copy calm "/m" "picks" "picks/../2024/cat.jpg" folder
    ≡ (some escapes_export_root, folder)
unfolding remove_copy
remove_copy-1 = refl

-- The number of the last character.
abbrev last_code : ℕ → String → ℕ
last_code n String.[] = n
last_code n (String.◌∷◌ c s) = last_code (code c) s

last_code-tmp : (n : ℕ) (p : String) → last_code n (tmp_of p) ≡ 112
last_code-tmp n String.[] = refl
last_code-tmp n (String.◌∷◌ c p) = rw (cons-append c p ".tmp") (last_code-tmp (code c) p)

source-cat : source_path calm "/m" "picks" cat ≡ "/m/2024/cat.jpg"
unfolding source_path
source-cat = refl

not_tmp : (p : String) → source_path calm "/m" "picks" cat ≢ tmp_of p
not_tmp p e =
    let q : ◌≡◌ {A = ℕ} 103 112 = ap (last_code 0) (sym source-cat ∙ e) ∙ last_code-tmp 0 p in
    omega (arith, q)

hashed : (c : String) → "#" ++ c ≢ ""
hashed c e = let q = sym (cons-append "#" "" c) ∙ e in absurd cc

resolve_target-IsFirst_example :
    (t : Slot) × (resolve_target calm "/m" "picks" cat folder ≡ some t)
    × IsFirst calm "/m" "picks" "#cat" (join "picks" "2024/cat.jpg") folder 1 t
resolve_target-IsFirst_example = resolve_target-IsFirst calm "/m" "picks" cat folder hashed

export_file-Exported_example :
    Exported calm "/m" "picks" cat folder (export_file calm "/m" "picks" cat folder)
export_file-Exported_example =
    export_file-Exported calm "/m" "picks" cat folder (λ e. cc) hashed not_tmp

remove_copy-Removed_example :
    Removed calm "/m" "picks"
      (copy_path calm "/m" "picks" "picks/2024/cat.jpg")
      folder
      (remove_copy calm "/m" "picks" "picks/2024/cat.jpg" folder)
remove_copy-Removed_example = remove_copy-Removed calm "/m" "picks" "picks/2024/cat.jpg" folder

abbrev before : World (List (String × String))
before = record { files = cat ∷ []; rows = []; disk = folder }

abbrev after : World (List (String × String))
after = (pick (exporter calm "/m" "picks") (pos 9) (λ n. false) 1 before).1

picked : pick (exporter calm "/m" "picks") (pos 9) (λ n. false) 1 before ≡ (none, after)
unfolding pick exporter
picked = refl

known : file_by_id 1 (cat ∷ []) ≡ some cat
unfolding file_by_id
known = refl

pick-DeliveredTo_example : DeliveredTo calm "/m" "picks" (pos 9) (λ n. false) 1 cat before after
unfolding get
pick-DeliveredTo_example =
    pick-DeliveredTo calm "/m" "picks" (pos 9) (λ n. false) 1 before after cat (λ n. refl) (λ e. cc)
      hashed not_tmp known refl picked
