-- ===== src/Meta/Extract/Progress.antt =====
-- Every file of a batch leaves the queue.
use Prim.Native.String.{String}
use choix.Base.{
  ℕ, suc, Option, some, none, List, [], ◌∷◌, Bool, false, ◌⊎◌, inl, inr, ◌≡◌, refl, sym, ◌∙◌, All,
  Bool-cases, ◌==◌, ==_iff,
}
use choix.Base.Paths.{join}
use choix.Store.Files.{File}
use choix.Store.FilesRepo.{find_file, has_id, update_where, pick_by_status}
use choix.Store.FilesRepo.Keep.{row_ids, ids-update_where}
use choix.Store.Metadata.{update_metadata_full, rows_with, with_metadata}
use choix.Meta.Fields.{Metadata}
use choix.Meta.Extract.{
  Tools, update_of, record_failure, store_update, zipped, parsed, extracted, loaded, process,
  process_batch, process_by_status,
}

-- The metadata stage is through with the file.
abbrev pub IsDone : String → Type 0
IsDone status = (status ≡ "metadata") ⊎ (status ≡ "failed")

abbrev pub AllDone : ℕ → List File → Type 0
AllDone id t = All (λ (f : File). f.id ≡ id → IsDone f.scan_status) t

-- A change of one row that ends the stage for it keeps its id.
abbrev Finishes : (File → File) → Type 0
Finishes change = (f : File) → ((change f).id ≡ f.id) × IsDone (change f).scan_status

update-own :
    (id : ℕ) (change : File → File) (t : List File)
    → Finishes change
    → AllDone id (update_where (has_id id) change t)
unfolding update_where
update-own id change [] h = tt
update-own id change (f ∷ fs) h = elim (Bool-cases (f.id == id)) [
  | inl e ↦ rw e ((λ q. (h f).1), update-own id change fs h)
  | inr e ↦
      rw e ((λ q. let r = sym e ∙ (==_iff f.id id).1 q in absurd cc), update-own id change fs h)
]

update-other :
    (id j : ℕ) (change : File → File) (t : List File)
    → Finishes change
    → AllDone j t
    → AllDone j (update_where (has_id id) change t)
unfolding update_where
update-other id j change [] h d = tt
update-other id j change (f ∷ fs) h d = elim (Bool-cases (f.id == id)) [
  | inl e ↦ rw e ((λ q. (h f).1), update-other id j change fs h d.1)
  | inr e ↦ rw e (d.0, update-other id j change fs h d.1)
]

absent : (id : ℕ) (t : List File) → find_file (has_id id) t ≡ none → AllDone id t
unfolding find_file
absent id [] h = tt
absent id (f ∷ fs) h = elim (Bool-cases (f.id == id)) [
  | inl e ↦ let q = rw e at h in absurd cc
  | inr e ↦ ((λ q. let r = sym e ∙ (==_iff f.id id).1 q in absurd cc), absent id fs (rw e at h))
]

module _ {Raw : Type 0} (tools : Tools Raw) (calm_load : (id : ℕ) → tools.load_fails id ≡ false)
    (calm_update : (id : ℕ) → tools.update_error id ≡ none)
    (calm_record : (id : ℕ) → tools.record_fails id ≡ false) where
  -- The row with this id is done, so is every row that was, and the table has the same rows.
  abbrev Moves : ℕ → List File → Bool × List File → Type 0
  Moves id t r =
      AllDone id (r.1) × ((j : ℕ) → AllDone j t → AllDone j (r.1)) × (row_ids (r.1) ≡ row_ids t)

  failed-Moves :
      (id : ℕ) (msg : String) (t : List File) → Moves id t (record_failure tools id msg t)
  failed-Moves id msg t =
      let change : File → File = λ f. record f { scan_status = "failed"; err_msg = some msg } in
      let h : Finishes change = λ f. (refl, inr refl) in
      rw (calm_record id) (
        update-own id change t h,
        λ j d. update-other id j change t h d,
        ids-update_where (has_id id) change t (λ f. (h f).0),
      )

  stored-Moves : (id : ℕ) (m : Metadata) (t : List File) → Moves id t (store_update tools id m t)
  unfolding update_metadata_full update_of
  stored-Moves id m t =
      let change = with_metadata (update_of m) in
      let h : Finishes change = λ f. (refl, inl refl) in
      elim (Bool-cases (rows_with id t == 0)) [
        | inl e ↦ rw (calm_update id, e) (failed-Moves id _ t)
        | inr e ↦
            rw (calm_update id, e)
              (
                update-own id change t h,
                λ j d. update-other id j change t h d,
                ids-update_where (has_id id) change t (λ f. (h f).0),
              )
      ]

  zipped-Moves :
      (id : ℕ) (m : Metadata) (o : String ⊎ Raw) (t : List File)
      → Moves id t (zipped tools id m o t)
  zipped-Moves id m (inl e) t = failed-Moves id _ t
  zipped-Moves id m (inr gz) t = stored-Moves id m t

  parsed-Moves :
      (id : ℕ) (raw : Raw) (o : String ⊎ Metadata) (t : List File)
      → Moves id t (parsed tools id raw o t)
  parsed-Moves id raw (inl e) t = failed-Moves id _ t
  parsed-Moves id raw (inr m) t = zipped-Moves id m (tools.gzip raw) t

  extracted-Moves :
      (id : ℕ) (o : String ⊎ Raw) (t : List File) → Moves id t (extracted tools id o t)
  extracted-Moves id (inl e) t = failed-Moves id _ t
  extracted-Moves id (inr raw) t = parsed-Moves id raw (tools.parse raw) t

  process-Moves : (id : ℕ) (path : String) (t : List File) → Moves id t (process tools id path t)
  unfolding process
  process-Moves id path t = rw (calm_load id) (by_row (find_file (has_id id) t) refl)
    where
      by_row :
          (o : Option File) → find_file (has_id id) t ≡ o → Moves id t (loaded tools id path o t)
      by_row none e = (absent id t e, λ j d. d, refl)
      by_row (some f) e = extracted-Moves id (tools.run path) t

  batch-kept :
      (n : ℕ) (root : String) (fs : List File) (s : ℕ) (t : List File) (j : ℕ)
      → AllDone j t
      → AllDone j ((process_batch tools (λ k. false) n root fs s t).2)
  unfolding process_batch
  batch-kept n root [] s t j d = d
  batch-kept n root (f ∷ fs) s t j d =
      batch-kept (suc n) root fs _ _ j ((process-Moves f.id (join root f.path) t).1 j d)

  batch-ids :
      (n : ℕ) (root : String) (fs : List File) (s : ℕ) (t : List File)
      → row_ids ((process_batch tools (λ k. false) n root fs s t).2) ≡ row_ids t
  unfolding process_batch
  batch-ids n root [] s t = refl
  batch-ids n root (f ∷ fs) s t =
      batch-ids (suc n) root fs _ _ ∙ (process-Moves f.id (join root f.path) t).2

  batch-AllDone :
      (n : ℕ) (root : String) (fs : List File) (s : ℕ) (t : List File)
      → All (λ (f : File). AllDone f.id ((process_batch tools (λ k. false) n root fs s t).2)) fs
  unfolding process_batch
  batch-AllDone n root [] s t = tt
  batch-AllDone n root (f ∷ fs) s t = (
    batch-kept (suc n) root fs _ _ f.id (process-Moves f.id (join root f.path) t).0,
    batch-AllDone (suc n) root fs _ _,
  )

  -- ProcessByStatus gets every file of its batch out of the queue: afterwards its row has the status
  -- metadata or failed, whichever of exiftool, Parse and gzip fail on it, and the table has the rows
  -- that it had, in their order. The context is not cancelled, and no call of the database fails.
  pub process_by_status-AllDone :
      (root status : String) (limit : ℕ) (t : List File)
      → tools.query_fails ≡ false
      → All
          (λ (f : File).
            AllDone f.id ((process_by_status tools (λ k. false) root status limit t).2))
          (pick_by_status status limit t)
        × (row_ids ((process_by_status tools (λ k. false) root status limit t).2) ≡ row_ids t)
  unfolding process_by_status
  process_by_status-AllDone root status limit t q =
      let batch = pick_by_status status limit t in
      rw q (batch-AllDone 0 root batch 0 t, batch-ids 0 root batch 0 t)
