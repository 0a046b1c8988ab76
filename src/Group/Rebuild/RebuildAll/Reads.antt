-- ===== src/Group/Rebuild/RebuildAll/Reads.antt =====
-- A rebuild as a reader of the tables sees it: every analyzed file is in one cluster.
use mathlib.Core.List.Perm
use mathlib.Core.List.{append-nil, append_assoc}
use choix.Base.{
  ℕ, Option, some, none, List, [], ◌∷◌, ◌++◌, map, Bool, true, false, ◌==◌, ◌&&◌, ◌≡◌, refl, sym,
  subst, ◌∙◌, Perm, In, inl, inr, Bool-cases, ==_iff, In-append_right, ltb,
}
use choix.Base.Sort.{sort_by-perm}
use choix.Base.Int.{ℤ}
use choix.Base.Floats.{Floats}
use choix.Base.Distinct.{Distinct, Distinct-append_left, Distinct-append_right, Distinct-perm}
use choix.Store.Files.{File}
use choix.Store.FilesRepo.{at_status}
use choix.Store.Analyzed.{list_all_analyzed, list_all_analyzed-perm}
use choix.Store.Clusters.{ClusterDef, Tables, write_clusters, read_back}
use choix.Store.Clusters.Write.{once, add_once, is_listed}
use choix.Store.Clusters.Replace.{write_clusters-Replaced}
use choix.Group.Visual.{Embeds}
use choix.Group.Rebuild.Members.{all_members}
use choix.Group.Rebuild.PerDevice.{per_device_defs-perm}
use choix.Group.Rebuild.CrossDevice.Whole.{cross_device_defs-perm}
use choix.Group.Rebuild.RebuildAll.{
  Faults, any_embedding, all_defs, write_defs, rebuild_listed, rebuild_all,
}

unlisted : (x : ℕ) (ys : List ℕ) → ¬ In x ys → is_listed x ys ≡ false
unlisted x [] n = refl
unlisted x (y ∷ ys) n = elim (Bool-cases (y == x)) [
  | inl t ↦ absurd (n (inl (sym ((==_iff y x).0 t))))
  | inr t ↦ rw t (unlisted x ys (λ i. n (inr i)))
]

head-fresh : (x : ℕ) (seen xs : List ℕ) → Distinct (seen ++ x ∷ xs) → ¬ In x seen
head-fresh x [] xs d i = i
head-fresh x (s ∷ seen) xs d (inl e) = d.0 (In-append_right s seen (x ∷ xs) (inl (sym e)))
head-fresh x (s ∷ seen) xs d (inr i) = head-fresh x seen xs d.1 i

-- Members without repetitions are stored as they are.
add_once-Distinct : (seen xs : List ℕ) → Distinct (seen ++ xs) → add_once seen xs ≡ seen ++ xs
add_once-Distinct seen [] d = sym (append-nil seen)
add_once-Distinct seen (x ∷ xs) d = rw (unlisted x seen (head-fresh x seen xs d)) (
    add_once-Distinct (seen ++ x ∷ []) xs (subst Distinct (sym (append_assoc seen (x ∷ []) xs)) d)
    ∙ append_assoc seen (x ∷ []) xs)

once-all :
    (defs : List ClusterDef)
    → Distinct (all_members defs)
    → Perm (all_members (map once defs)) (all_members defs)
once-all [] d = Perm.rfl
once-all (c ∷ defs) d =
    let same =
      add_once-Distinct [] c.members (Distinct-append_left c.members (all_members defs) d) in
    let rest = once-all defs (Distinct-append_right c.members (all_members defs) d) in
    Perm.append (subst (Perm (once c).members) same (sort_by-perm ltb (add_once [] c.members))) rest

module _ (fl : Floats) (range : List (ℕ × List ℕ) → List (ℕ × List ℕ))
    (range_perm : (m : List (ℕ × List ℕ)) → Perm (range m) m) (embeds : Embeds fl)
    (threshold : fl.Float64) (bucket_sec : ℤ) (cross_device : Bool) (faults : Faults) where
  abbrev pub file_ids : List File → List ℕ
  file_ids = map (λ f. f.id)

  all_defs-perm :
      (files : List File) (defs : List ClusterDef)
      → Distinct (file_ids files)
      → all_defs fl range embeds threshold bucket_sec cross_device faults files ≡ some defs
      → Perm (all_members defs) (file_ids files)
  unfolding all_defs
  all_defs-perm files defs d e =
      elim (Bool-cases (
        cross_device
        && any_embedding fl range embeds threshold bucket_sec cross_device faults embeds)) [
          | inl t ↦
              cross_device_defs-perm fl range range_perm embeds threshold bucket_sec
                (faults.ctx_err 0) files defs d (rw t at e)
          | inr t ↦
              per_device_defs-perm fl range range_perm embeds threshold bucket_sec faults.ctx_err
                files defs d (rw t at e)
        ]

  -- An error leaves the tables as they were; a success shows every id once.
  abbrev pub Rebuilt : List ℕ → Tables → Bool × Tables → Type 0
  Rebuilt ids old (false, u) = u ≡ old
  Rebuilt ids old (true, u) = Perm (all_members (read_back u)) ids

  write-Rebuilt :
      (defs : List ClusterDef) (ids : List ℕ) (old : Tables) (r : Bool × Tables)
      → Distinct ids
      → Perm (all_members defs) ids
      → write_clusters faults.write_fault defs old ≡ r
      → Rebuilt ids old r
  write-Rebuilt defs ids old (false, u) d p e =
      (write_clusters-Replaced faults.write_fault defs old).0 u e
  write-Rebuilt defs ids old (true, u) d p e =
      let reads = (write_clusters-Replaced faults.write_fault defs old).1 u e in
      let stored = once-all defs (Distinct-perm ids (all_members defs) (Perm.symm p) d) in
      subst (λ z. Perm (all_members z) ids) (sym reads) (Perm.trans stored p)

  rebuild_listed-Rebuilt :
      (files : List File) (old : Tables)
      → Distinct (file_ids files)
      → Rebuilt
          (file_ids files)
          old
          (rebuild_listed fl range embeds threshold bucket_sec cross_device faults files old)
  unfolding rebuild_listed
  rebuild_listed-Rebuilt [] old d = write-Rebuilt [] [] old _ d Perm.rfl refl
  rebuild_listed-Rebuilt (f ∷ fs) old d = elim (Bool-cases faults.embeds_fail) [
    | inl t ↦ rw t refl
    | inr t ↦
        rw t (
          written (all_defs fl range embeds threshold bucket_sec cross_device faults (f ∷ fs)) refl)
  ]
    where
      written :
          (o : Option (List ClusterDef))
          → all_defs fl range embeds threshold bucket_sec cross_device faults (f ∷ fs) ≡ o
          → Rebuilt
              (file_ids (f ∷ fs))
              old
              (write_defs fl range embeds threshold bucket_sec cross_device faults o old)
      written none e = refl
      written (some defs) e =
          write-Rebuilt defs (file_ids (f ∷ fs)) old _ d (all_defs-perm (f ∷ fs) defs d e) refl

  -- RebuildAll is all or nothing, in both modes and at every failure: on an error the tables are as
  -- they were; on success the members of the clusters that a reader finds are the ids of the analyzed
  -- files, each once. The ids of the table are distinct, and the map is ranged over in some order.
  pub rebuild_all-Rebuilt :
      (rows : List File) (old : Tables)
      → Distinct (file_ids (at_status "analyzed" rows))
      → Rebuilt
          (file_ids (at_status "analyzed" rows))
          old
          (rebuild_all fl range embeds threshold bucket_sec cross_device faults rows old)
  unfolding rebuild_all
  rebuild_all-Rebuilt rows old d = elim (Bool-cases faults.list_fails) [
    | inl t ↦ rw t refl
    | inr t ↦ rw t (
        through
          (rebuild_listed fl range embeds threshold bucket_sec cross_device faults
            (list_all_analyzed rows) old)
          (rebuild_listed-Rebuilt (list_all_analyzed rows) old
            (Distinct-perm (file_ids (at_status "analyzed" rows)) _ (Perm.symm same) d)))
  ]
    where
      same : Perm (file_ids (list_all_analyzed rows)) (file_ids (at_status "analyzed" rows))
      same = Perm.map (λ f. f.id) (list_all_analyzed-perm rows)

      through :
          (r : Bool × Tables)
          → Rebuilt (file_ids (list_all_analyzed rows)) old r
          → Rebuilt (file_ids (at_status "analyzed" rows)) old r
      through (false, u) h = h
      through (true, u) h = Perm.trans h same
