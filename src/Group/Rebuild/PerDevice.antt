-- ===== src/Group/Rebuild/PerDevice.antt =====
-- Per-device mode: every analyzed file is in one cluster.
use Prim.Native.String.{String}
use text.Mathlib.Text.{◌==◌ as str_eq}
use text.Mathlib.TextEquality.{eq_iff}
use mathlib.Core.List.Perm
use mathlib.Core.List.{append-nil, append_assoc, map-append, perm_middle}
use choix.Base.{
  ℕ, suc, Option, some, none, List, [], ◌∷◌, ◌++◌, map, Bool, ◌≡◌, refl, sym, subst, ap, ◌∙◌, Perm,
  concat, Bool-cases, inl, inr,
}
use choix.Base.Int.{ℤ}
use choix.Base.Floats.{Floats}
use choix.Base.Distinct.{Distinct, Distinct-append_left, Distinct-append_right, Distinct-perm}
use choix.Base.Multimap.{
  values_of, keys, values, push-perm, keys-push, Distinct-push, values_of-keys,
}
use choix.Store.Files.{File}
use choix.Store.Clusters.{ClusterDef}
use choix.Group.Visual.{Embeds}
use choix.Group.Bucket.{RunFile, sort_run_files}
use choix.Group.Bucket.Laws.{cluster_ids-perm, sort_run_files-perm}
use choix.Group.Rebuild.Members.{
  all_members, all_members-append, all_members-defs, run_ids, walk-perm,
}
use choix.Group.Rebuild.{
  device_of, run_file, Devices, add_file, add_files, emit, device_defs, device_loop,
  per_device_defs,
}

module _ (fl : Floats) (range : List (ℕ × List ℕ) → List (ℕ × List ℕ))
    (range_perm : (m : List (ℕ × List ℕ)) → Perm (range m) m) (embeds : Embeds fl)
    (threshold : fl.Float64) (bucket_sec : ℤ) where
  emit-perm :
      (dev : String) (s : Option ℤ) (r : List RunFile)
      → Distinct (run_ids r)
      → Perm (all_members (emit fl range embeds threshold bucket_sec dev s r)) (run_ids r)
  unfolding emit
  emit-perm dev s r d =
      rw all_members-defs (cluster_ids-perm fl range range_perm (run_ids r) embeds threshold d)

  pub device_defs-perm :
      (dev : String) (seq : List RunFile)
      → Distinct (run_ids seq)
      → Perm (all_members (device_defs fl range embeds threshold bucket_sec dev seq)) (run_ids seq)
  unfolding device_defs
  device_defs-perm dev seq d =
      let same : Perm (run_ids (sort_run_files seq)) (run_ids seq) =
        Perm.map (λ f. f.id) (sort_run_files-perm seq) in
      Perm.trans
        (walk-perm (emit fl range embeds threshold bucket_sec dev) bucket_sec (λ f. f.captured_at)
          (emit-perm dev) (sort_run_files seq) (Distinct-perm _ _ (Perm.symm same) d))
        same

  -- The loop adds the clusters of each device, unless the context ends it.
  loop_lem :
      (ctx_err : ℕ → Bool) (n : ℕ) (devs : List String) (by : List (String × List RunFile))
      (defs out : List ClusterDef)
      → device_loop fl range embeds threshold bucket_sec ctx_err n devs by defs ≡ some out
      → out
        ≡ defs
          ++ concat (
              map
                (λ dev.
                  device_defs fl range embeds threshold bucket_sec dev (values_of str_eq dev by))
                devs)
  unfolding device_loop
  loop_lem ctx_err n [] by defs out e = let q : defs ≡ out = cc in sym q ∙ sym (append-nil defs)
  loop_lem ctx_err n (dev ∷ devs) by defs out e = elim (Bool-cases (ctx_err n)) [
    | inl t ↦ let q : ◌≡◌ {A = Option (List ClusterDef)} none (some out) = rw t at e in cc
    | inr t ↦ loop_lem ctx_err (suc n) devs by _ out (rw t at e) ∙ append_assoc defs _ _
  ]

-- byDevice holds the files `all`, and deviceOrder lists its keys.
record IsIndex (all : List RunFile) (d : Devices) : Type 0 where
  order : d.device_order ≡ keys str_eq d.by_device
  distinct : Distinct (keys str_eq d.by_device)
  whole : Perm (concat (values str_eq d.by_device)) all

add_file-IsIndex :
    (f : File) (all : List RunFile) (d : Devices)
    → IsIndex all d
    → IsIndex (run_file f ∷ all) (add_file f d)
unfolding add_file
add_file-IsIndex f all d i =
    let dev = device_of f.device_key in
    record {
      order = rw (keys-push str_eq dev (run_file f) d.by_device, i.order);
      distinct = Distinct-push str_eq eq_iff dev (run_file f) d.by_device i.distinct;
      whole =
          Perm.trans (push-perm str_eq dev (run_file f) d.by_device)
            (Perm.cons (run_file f) i.whole);
    }

add_files-IsIndex :
    (fs : List File) (all : List RunFile) (d : Devices)
    → IsIndex all d
    → IsIndex (map run_file fs ++ all) (add_files fs d)
unfolding add_files
add_files-IsIndex [] all d i = i
add_files-IsIndex (f ∷ fs) all d i =
    let j = add_files-IsIndex fs (run_file f ∷ all) (add_file f d) (add_file-IsIndex f all d i) in
    record {
      order = j.order;
      distinct = j.distinct;
      whole = Perm.trans j.whole (perm_middle (map run_file fs) all);
    }

map-run_ids : (fs : List File) → run_ids (map run_file fs) ≡ map (λ f. f.id) fs
map-run_ids [] = refl
map-run_ids (f ∷ fs) = rw (map-run_ids fs)

module _ (fl : Floats) (range : List (ℕ × List ℕ) → List (ℕ × List ℕ))
    (range_perm : (m : List (ℕ × List ℕ)) → Perm (range m) m) (embeds : Embeds fl)
    (threshold : fl.Float64) (bucket_sec : ℤ) where
  devices-perm :
      (devs : List String) (seqs : String → List RunFile)
      → Distinct (run_ids (concat (map seqs devs)))
      → Perm
          (all_members (
            concat
              (map (λ dev. device_defs fl range embeds threshold bucket_sec dev (seqs dev)) devs)))
          (run_ids (concat (map seqs devs)))
  devices-perm [] seqs d = Perm.rfl
  devices-perm (dev ∷ devs) seqs d =
      let rest = concat (map seqs devs) in
      let d' = subst Distinct (map-append (λ (f : RunFile). f.id) (seqs dev) rest) d in
      rw (all_members-append, map-append)
        (Perm.append
          (device_defs-perm fl range range_perm embeds threshold bucket_sec dev (seqs dev)
            (Distinct-append_left (run_ids (seqs dev)) (run_ids rest) d'))
          (devices-perm devs seqs (Distinct-append_right (run_ids (seqs dev)) (run_ids rest) d')))

  -- If the context does not end it, rebuildAllPerDevice hands WriteClusters clusters whose members
  -- are the ids of the analyzed files, each as often as it is listed: once, as ids are distinct.
  pub per_device_defs-perm :
      (ctx_err : ℕ → Bool) (files : List File) (defs : List ClusterDef)
      → Distinct (map (λ (f : File). f.id) files)
      → per_device_defs fl range embeds threshold bucket_sec ctx_err files ≡ some defs
      → Perm (all_members defs) (map (λ f. f.id) files)
  unfolding per_device_defs
  per_device_defs-perm ctx_err files defs d e =
      let index = add_files files (record { by_device = []; device_order = [] }) in
      let i =
        add_files-IsIndex files [] (record { by_device = []; device_order = [] })
          (record { order = refl; distinct = tt; whole = Perm.rfl }) in
      let seqs : String → List RunFile = λ dev. values_of str_eq dev index.by_device in
      let read : map seqs index.device_order ≡ values str_eq index.by_device =
        ap (map seqs) i.order ∙ values_of-keys str_eq eq_iff index.by_device i.distinct in
      let same : Perm (run_ids (concat (map seqs index.device_order))) (map (λ f. f.id) files) =
        rw (read, ← map-run_ids files)
          (Perm.map (λ f. f.id) (subst (Perm _) (append-nil (map run_file files)) i.whole)) in
      rw
        (loop_lem fl range range_perm embeds threshold bucket_sec ctx_err 0 index.device_order
          index.by_device [] defs e)
        (Perm.trans (devices-perm index.device_order seqs (Distinct-perm _ _ (Perm.symm same) d))
          same)
