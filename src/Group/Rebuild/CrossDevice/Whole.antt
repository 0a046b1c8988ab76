-- ===== src/Group/Rebuild/CrossDevice/Whole.antt =====
-- Cross-device mode: every analyzed file is in one cluster.
use Prim.Native.String.{String}
use text.Mathlib.Text.{◌==◌ as str_eq}
use mathlib.Core.List.Perm
use mathlib.Core.List.{append-nil}
use choix.Base.{
  ℕ, Option, some, none, List, [], ◌∷◌, ◌++◌, map, Bool, true, false, ltb, ◌≡◌, refl, sym, subst,
  ap, Perm,
}
use choix.Base.Int.{ℤ}
use choix.Base.Floats.{Floats}
use choix.Base.Sort.{sort_by-perm}
use choix.Base.Distinct.{Distinct, Distinct-append_left, Distinct-append_right, Distinct-perm}
use choix.Base.Multimap.{values_of}
use choix.Store.Files.{File}
use choix.Store.Clusters.{ClusterDef}
use choix.Group.Visual.{Embeds, sort_ids}
use choix.Group.Bucket.{RunFile, cluster_ids}
use choix.Group.Bucket.Laws.{cluster_ids-perm, sort_run_files-perm}
use choix.Group.Rebuild.{cluster_def}
use choix.Group.Rebuild.Members.{
  all_members, all_members-append, run_ids, walk-perm, devices-perm, run_ids-concat,
  all_members-keyed,
}
use choix.Group.Skew.{estimate_skew}
use choix.Group.Rebuild.CrossDevice.{
  Parts, skew_of, timed_less, id_device, device_set, key_of, timed_at, emit_plain, plain_defs,
  untimed_defs, add_parts, emit_merged, timed_defs, parts_defs, cross_device_defs,
}
use choix.Group.Rebuild.CrossDevice.Collect.{IsParts, add_parts-IsParts}
use choix.Group.Rebuild.CrossDevice.Sides.{total, Covers-nil}

module _ (fl : Floats) (range : List (ℕ × List ℕ) → List (ℕ × List ℕ))
    (range_perm : (m : List (ℕ × List ℕ)) → Perm (range m) m) (embeds : Embeds fl)
    (threshold : fl.Float64) (bucket_sec : ℤ) where
  emit_merged-perm :
      (s : Option ℤ) (r : List RunFile)
      → Distinct (run_ids r)
      → Perm (all_members (emit_merged fl range embeds threshold bucket_sec s r)) (run_ids r)
  unfolding emit_merged
  emit_merged-perm s r d =
      rw
        (all_members-keyed (λ g. key_of (device_set (λ id. id_device "" id r) g [])) s
          (cluster_ids fl range (run_ids r) embeds threshold))
        (cluster_ids-perm fl range range_perm (run_ids r) embeds threshold d)

  timed_defs-perm :
      (timed : List RunFile)
      → Distinct (run_ids timed)
      → Perm (all_members (timed_defs fl range embeds threshold bucket_sec timed)) (run_ids timed)
  unfolding timed_defs
  timed_defs-perm timed d =
      let same = Perm.map (λ f. f.id) (sort_by-perm timed_less timed) in
      Perm.trans
        (walk-perm (emit_merged fl range embeds threshold bucket_sec) bucket_sec timed_at
          emit_merged-perm _ (Distinct-perm _ _ (Perm.symm same) d))
        same

  plain_defs-perm :
      (dev : String) (seq : List RunFile)
      → Distinct (run_ids seq)
      → Perm (all_members (plain_defs bucket_sec dev seq)) (run_ids seq)
  unfolding plain_defs
  plain_defs-perm dev [] d = Perm.rfl
  plain_defs-perm dev (f ∷ fs) d =
      let same = Perm.map (λ g. g.id) (sort_run_files-perm (f ∷ fs)) in
      Perm.trans
        (walk-perm (emit_plain dev) bucket_sec timed_at
          (λ s r h. subst (λ z. Perm z (run_ids r)) (sym (append-nil (run_ids r))) Perm.rfl) _
          (Distinct-perm _ _ (Perm.symm same) d))
        same

  singles :
      (dev : String) (ids : List ℕ)
      → all_members (map (λ id. cluster_def dev none (id ∷ [])) ids) ≡ ids
  singles dev [] = refl
  singles dev (id ∷ ids) = ap (λ z. id ∷ z) (singles dev ids)

  untimed_defs-perm : (dev : String) (ids : List ℕ) → Perm (all_members (untimed_defs dev ids)) ids
  unfolding untimed_defs
  untimed_defs-perm dev ids = rw (singles dev (sort_ids ids)) (sort_by-perm ltb ids)

  parts_defs-perm :
      (all : List ℕ) (p : Parts)
      → Distinct all
      → IsParts all p
      → Perm (all_members (parts_defs fl range embeds threshold bucket_sec p)) all
  unfolding parts_defs
  parts_defs-perm all p d i =
      let timed = run_ids p.timed in
      let emb = run_ids (total p.no_emb p.order) in
      let time = total p.no_time p.order in
      let d' = Distinct-perm all (timed ++ (emb ++ time)) (Perm.symm i.whole) d in
      let rest = Distinct-append_right timed (emb ++ time) d' in
      let split = run_ids-concat (λ dev. values_of str_eq dev p.no_emb) p.order in
      let plain : Perm _ emb = rw split (
        devices-perm (λ dev. plain_defs bucket_sec dev (values_of str_eq dev p.no_emb))
          (λ dev. run_ids (values_of str_eq dev p.no_emb)) (λ dev. plain_defs-perm dev _) p.order
          (subst Distinct split (Distinct-append_left emb time rest))) in
      let untimed : Perm _ time =
        devices-perm (λ dev. untimed_defs dev (values_of str_eq dev p.no_time))
          (λ dev. values_of str_eq dev p.no_time) (λ dev h. untimed_defs-perm dev _) p.order
          (Distinct-append_right emb time rest) in
      Perm.trans
        (rw (all_members-append, all_members-append)
          (Perm.append (timed_defs-perm p.timed (Distinct-append_left timed (emb ++ time) d'))
            (Perm.append plain untimed)))
        i.whole

  -- If the context has not ended, rebuildAllCrossDevice hands WriteClusters clusters whose members
  -- are the ids of the analyzed files, each as often as it is listed: once, as ids are distinct.
  pub cross_device_defs-perm :
      (ctx_err : Bool) (files : List File) (defs : List ClusterDef)
      → Distinct (map (λ (f : File). f.id) files)
      → cross_device_defs fl range embeds threshold bucket_sec ctx_err files ≡ some defs
      → Perm (all_members defs) (map (λ f. f.id) files)
  unfolding cross_device_defs
  cross_device_defs-perm true files defs d e =
      let q : ◌≡◌ {A = Option (List ClusterDef)} none (some defs) = e in absurd cc
  cross_device_defs-perm false files defs d e =
      let ids = map (λ (f : File). f.id) files in
      let start : Parts = record { timed = []; no_emb = []; no_time = []; order = [] } in
      let i =
        add_parts-IsParts fl range range_perm embeds threshold bucket_sec
          (λ dev. skew_of dev (estimate_skew fl files embeds)) files [] start
          (record {
            distinct = tt;
            no_emb = Covers-nil [];
            no_time = Covers-nil [];
            whole = Perm.rfl;
          }) in
      let p =
        add_parts fl range embeds threshold bucket_sec
          (λ dev. skew_of dev (estimate_skew fl files embeds)) files start in
      let same : parts_defs fl range embeds threshold bucket_sec p ≡ defs = cc in
      subst (λ z. Perm (all_members z) ids) same
        (parts_defs-perm ids p d (subst (λ z. IsParts z p) (append-nil ids) i))
