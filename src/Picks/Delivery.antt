-- ===== src/Picks/Delivery.antt =====
-- The pick service over its exporter: what a successful Pick leaves on the disk and in the row.
use Prim.Native.String.{String}
use choix.Base.{
  ℕ, Option, some, none, List, Bool, true, false, ◌≡◌, refl, ap, subst, ◌∙◌, inl, inr, ◌⊎◌, ◌≢◌,
}
use choix.Base.Int.{ℤ}
use choix.Store.Files.{File}
use choix.Store.Picks.{Pick, get, set_state, set_exported_path}
use choix.Store.Picks.Table.{get-change_row, on_some}
use choix.Picks.Service.{World, file_by_id, file_for, is_state, exported, pick}
use choix.Picks.Service.Rows.{is_state-set_state}
use choix.Picks.Disk.{read}
use choix.Picks.Export.{Os, ExportError, tmp_of, source_path, export_file, exporter}
use choix.Picks.Export.Effects.{Exported, Delivered, export_file-Exported}
use choix.Base.Paths.{join}

is_state-some :
    (state : String) (o : Option Pick) → is_state state o ≡ true → (p : Pick) × (o ≡ some p)
is_state-some state none h = absurd cc
is_state-some state (some p) h = (p, refl)

module _ {C : Type 0} (os : Os C) (scan_root picks_dir : String) (now : ℤ) (fault : ℕ → Bool) where
  abbrev pub DeliveredTo : ℕ → File → World (List (String × C)) → World (List (String × C)) → Type 0
  DeliveredTo id f w u =
      (rel : String) × (p : Pick) × (get id u.rows ≡ some p)
      × (p.exported_path ≡ some rel)
      × (c : C) × (read (source_path os scan_root picks_dir f) w.disk ≡ some c)
      × Delivered os scan_root picks_dir f c (join scan_root rel) w.disk u.disk

  recorded :
      (id : ℕ) (rel : String) (rows : List Pick)
      → (p : Pick) × (get id (set_exported_path id rel (set_state now id "picked" rows)) ≡ some p)
        × (p.exported_path ≡ some rel)
  recorded id rel rows =
      let marked = set_state now id "picked" rows in
      let change : Pick → Pick = λ r. record r { exported_path = some rel } in
      let (p, e) =
        is_state-some "picked" (get id marked) (is_state-set_state now id "picked" rows) in
      (change p, get-change_row id change marked (λ q. refl) ∙ ap (on_some change) e, refl)

  exported-DeliveredTo :
      (id : ℕ) (f : File) (w v u : World (List (String × C)))
      (r : (ExportError ⊎ String) × List (String × C))
      → ((n : ℕ) → fault n ≡ false)
      → v.rows ≡ set_state now id "picked" w.rows
      → Exported os scan_root picks_dir f w.disk r
      → exported (exporter os scan_root picks_dir) now fault id v r ≡ (none, u)
      → DeliveredTo id f w u
  exported-DeliveredTo id f w v u (inl e, d) ok s x h = let q = ap (λ a. a.0) h in absurd cc
  exported-DeliveredTo id f w v u (inr rel, d) ok s x h =
      let q : record v { rows = set_exported_path id rel v.rows; disk = d } ≡ u =
        ap (λ a. a.1) (rw (ok 4) at h) in
      let (p, e, k) = recorded id rel w.rows in
      subst (DeliveredTo id f w) q
        (rel, p, ap (λ z. get id (set_exported_path id rel z)) s ∙ e, k, x.0, x.1, x.2)

  -- When no call of the database fails and Pick of a known file that is not picked ends with no
  -- error, its row records a path, and the copy is delivered at that path, taken from the scan root:
  -- either a file with the content hash of the picked file was there and the disk is unchanged, or
  -- the path is under the export root, no file was there, the content of the original is there now,
  -- and no other file differs except the temporary one. The scan root is not empty, no content has
  -- the empty hash, and the original is not itself a temporary file (`.tmp`).
  pub pick-DeliveredTo :
      (id : ℕ) (w u : World (List (String × C))) (f : File)
      → ((n : ℕ) → fault n ≡ false)
      → ¬ (scan_root ≡ "")
      → ((c : C) → os.content_hash c ≢ "")
      → ((p : String) → source_path os scan_root picks_dir f ≢ tmp_of p)
      → file_by_id id w.files ≡ some f
      → is_state "picked" (get id w.rows) ≡ false
      → pick (exporter os scan_root picks_dir) now fault id w ≡ (none, u)
      → DeliveredTo id f w u
  unfolding pick file_for exporter
  pick-DeliveredTo id w u f ok root nonempty src k p h =
      exported-DeliveredTo id f w (record w { rows = set_state now id "picked" w.rows }) u
        (export_file os scan_root picks_dir f w.disk) ok refl
        (export_file-Exported os scan_root picks_dir f w.disk root nonempty src)
        (rw (ok 0, k, ok 1, p, ok 2) at h)
