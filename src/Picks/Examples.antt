-- ===== src/Picks/Examples.antt =====
-- internal/picks on a folder of two files; the disk is the list of the copies.
use Prim.Native.String.{String}
use text.Mathlib.Text.{◌==◌ as str_eq}
use choix.Base.{
  ℕ, some, none, List, [], ◌∷◌, Bool, true, false, ◌==◌, ◌≡◌, refl, inl, inr, arith, if◌then◌else◌,
  keep, not,
}
use choix.Base.Int.{pos}
use choix.Store.Files.{File}
use choix.Store.Picks.{Pick, get, delete, put, change_row, new_pick}
use choix.Picks.Service.{
  export_failed, Exporter, World, pick, unpick, reject, unreject, file_for, unexport, is_state,
  file_by_id,
}
use choix.Picks.Service.Laws.{IsPicked, IsNot, IsRejected}
use choix.Picks.Service.Contract.{
  pick-IsPicked, unpick-IsNot, reject-IsRejected, others_kept, pick-rollback,
}

abbrev photo : ℕ → String → File
photo id path = record {
  id = id;
  path = path;
  size = 10;
  mtime = pos 5;
  content_hash = "00";
  kind = "photo";
  format = "jpeg";
  device_key = none;
  captured_at = none;
  width = none;
  height = none;
  iso = none;
  shutter = none;
  scan_status = "analyzed";
  err_msg = none;
}

-- File 2 cannot be read.
abbrev copier : Exporter (List String) String
copier = record {
  export_file = λ f d. if f.id == 2 then (inl "unreadable", d) else (inr f.path, f.path ∷ d);
  remove_copy = λ path d. (none, keep (λ p. not (str_eq p path)) d);
  root_inside = true;
}

abbrev no_fault : ℕ → Bool
no_fault n = false

abbrev before : World (List String)
before = record {
  files = photo 1 "a.jpg" ∷ photo 2 "b.jpg" ∷ [];
  rows = new_pick (pos 3) 2 "rejected" ∷ [];
  disk = [];
}

abbrev row_of_1 : Pick
row_of_1 = record (new_pick (pos 9) 1 "picked") { exported_path = some "a.jpg" }

abbrev after_pick : World (List String)
after_pick = record before {
  rows = new_pick (pos 3) 2 "rejected" ∷ row_of_1 ∷ [];
  disk = "a.jpg" ∷ [];
}

abbrev after_reject : World (List String)
after_reject = record before {
  rows = new_pick (pos 3) 2 "rejected" ∷ new_pick (pos 9) 1 "rejected" ∷ [];
}

pick-1 : pick copier (pos 9) no_fault 1 before ≡ (none, after_pick)
unfolding pick file_for file_by_id get put change_row
pick-1 = refl

unpick-1 : unpick copier (pos 9) no_fault 1 after_pick ≡ (none, before)
unfolding unpick unexport file_for file_by_id get put change_row delete
unpick-1 = refl

reject-1 : reject copier (pos 9) no_fault 1 after_pick ≡ (none, after_reject)
unfolding reject unexport file_for file_by_id get put change_row delete
reject-1 = refl

unreject-1 : unreject copier (pos 9) no_fault 1 after_reject ≡ (none, before)
unfolding unreject file_for file_by_id get delete
unreject-1 = refl

known-2 : file_by_id 2 before.files ≡ some (photo 2 "b.jpg")
unfolding file_by_id
known-2 = refl

unpicked-2 : is_state "picked" (get 2 before.rows) ≡ false
unfolding get
unpicked-2 = refl

IsPicked-1 : IsPicked copier (pos 9) no_fault 1 after_pick
unfolding get file_by_id
IsPicked-1 = (refl, (photo 1 "a.jpg", refl))

pick-IsPicked_example : IsPicked copier (pos 9) no_fault 1 after_pick
pick-IsPicked_example = pick-IsPicked copier (pos 9) no_fault 1 before after_pick pick-1

unpick-IsNot_example : IsNot copier (pos 9) no_fault "picked" 1 before
unpick-IsNot_example = unpick-IsNot copier (pos 9) no_fault 1 after_pick before refl unpick-1

reject-IsRejected_example : IsRejected copier (pos 9) no_fault 1 after_reject
reject-IsRejected_example =
    reject-IsRejected copier (pos 9) no_fault 1 after_pick after_reject reject-1

others_kept_example :
    (get 2 (pick copier (pos 9) no_fault 1 before).1.rows ≡ get 2 before.rows)
    × (get 2 (reject copier (pos 9) no_fault 1 before).1.rows ≡ get 2 before.rows)
    × (no_fault 1 ≡ false
        → (get 2 (unpick copier (pos 9) no_fault 1 before).1.rows ≡ get 2 before.rows)
          × (get 2 (unreject copier (pos 9) no_fault 1 before).1.rows ≡ get 2 before.rows))
others_kept_example = others_kept copier (pos 9) no_fault 1 2 before (λ e. omega (arith, e))

pick-rollback_example :
    ((pick copier (pos 9) no_fault 2 before).0 ≡ some (export_failed "unreadable"))
    × (get 2 (pick copier (pos 9) no_fault 2 before).1.rows ≡ none)
pick-rollback_example =
    pick-rollback copier (pos 9) no_fault 2 before (photo 2 "b.jpg") "unreadable" [] (λ n. refl)
      known-2 unpicked-2 refl
