-- ===== src/Group/RebuildExamples.antt =====
-- RebuildAll of internal/group/group.go on files of two devices.
use Prim.Native.String.{String}
use mathlib.Core.List.Perm
use choix.Base.{ℕ, some, none, List, [], ◌∷◌, Perm, refl, ◌≡◌, All, In, arith, false, true, Option}
use choix.Base.Int.{ℤ, pos, ◌-ℤ◌, ◌+ℤ◌}
use choix.Base.Sort.{sort_by}
use choix.Store.Files.{File}
use choix.Store.Clusters.{ClusterDef, Tables}
use choix.Group.Examples.{numbers, in_order, embeds}
use choix.Group.Visual.{cluster, cosine, embedding}
use choix.Group.Bucket.{RunFile}
use choix.Group.Rebuild.{cluster_def}
use choix.Group.Rebuild.Members.{all_members}
use choix.Group.Rebuild.CrossDevice.{cross_device_defs, emit_merged}
use choix.Group.Rebuild.CrossDevice.Whole.{cross_device_defs-perm}
use choix.Group.Rebuild.CrossDevice.Keys.{Names, emit_merged-IsKeyed}
use choix.Group.Rebuild.RebuildAll.{Faults, rebuild_all}
use choix.Group.Rebuild.RebuildAll.Reads.{Rebuilt, rebuild_all-Rebuilt}

abbrev file : ℕ → String → Option ℤ → File
file id device t = record {
  id = id;
  path = "a.jpg";
  size = 1;
  mtime = pos 0;
  content_hash = "00";
  kind = "photo";
  format = "jpeg";
  device_key = some device;
  captured_at = t;
  width = none;
  height = none;
  iso = none;
  shutter = none;
  scan_status = "analyzed";
  err_msg = none;
}

-- Files 5 and 2 look alike, 8 has no embedding and 7 no time.
abbrev mixed : List File
mixed =
    file 5 "A" (some (pos 100))
    ∷ file 2 "B" (some (pos 160))
    ∷ file 8 "A" (some (pos 120))
    ∷ file 7 "B" none
    ∷ []

abbrev mixed_defs : List ClusterDef
mixed_defs =
    cluster_def "*merged*" (some (pos 100)) (2 ∷ 5 ∷ [])
    ∷ cluster_def "A" (some (pos 120)) (8 ∷ [])
    ∷ cluster_def "B" none (7 ∷ [])
    ∷ []

cross_run : cross_device_defs numbers in_order embeds 50 (pos 600) false mixed ≡ some mixed_defs
unfolding cross_device_defs cluster cosine embedding sort_by ◌-ℤ◌ ◌+ℤ◌
cross_run = refl

distinct_5 : ¬ In {A = ℕ} 5 (2 ∷ 8 ∷ 7 ∷ [])
distinct_5 m = ground arith

distinct_2 : ¬ In {A = ℕ} 2 (8 ∷ 7 ∷ [])
distinct_2 m = ground arith

distinct_8 : ¬ In {A = ℕ} 8 (7 ∷ [])
distinct_8 m = ground arith

cross_device_defs-perm_example : Perm (all_members mixed_defs) (5 ∷ 2 ∷ 8 ∷ 7 ∷ [])
cross_device_defs-perm_example =
    cross_device_defs-perm numbers in_order (λ m. Perm.rfl) embeds 50 (pos 600) false mixed
      mixed_defs (distinct_5, (distinct_2, (distinct_8, (λ m. m, tt)))) cross_run

abbrev bucket : List RunFile
bucket =
    record { id = 5; device_key = "A"; captured_at = some (pos 100) }
    ∷ record { id = 2; device_key = "B"; captured_at = some (pos 160) }
    ∷ record { id = 4; device_key = "B"; captured_at = some (pos 170) }
    ∷ []

merged_run :
    emit_merged numbers in_order embeds 50 (pos 600) (some (pos 100)) bucket
    ≡ cluster_def "*merged*" (some (pos 100)) (2 ∷ 5 ∷ [])
      ∷ cluster_def "B" (some (pos 100)) (4 ∷ [])
      ∷ []
unfolding emit_merged cluster cosine embedding sort_by
merged_run = refl

emit_merged-IsKeyed_example :
    All (Names bucket) (emit_merged numbers in_order embeds 50 (pos 600) (some (pos 100)) bucket)
emit_merged-IsKeyed_example =
    emit_merged-IsKeyed numbers in_order (λ m. Perm.rfl) embeds 50 (pos 600) (some (pos 100)) bucket
      (λ m. ground arith, (λ m. ground arith, (λ m. m, tt)))

abbrev calm : Faults
calm = record {
  list_fails = false;
  embeds_fail = false;
  ctx_err = λ n. false;
  write_fault = λ n. false;
}

abbrev old : Tables
old = record { clusters = []; members = [] }

rebuild_all-Rebuilt_example :
    Rebuilt numbers in_order
      (λ m. Perm.rfl)
      embeds
      50
      (pos 600)
      true
      calm
      (5 ∷ 2 ∷ 8 ∷ 7 ∷ [])
      old
      (rebuild_all numbers in_order embeds 50 (pos 600) true calm mixed old)
rebuild_all-Rebuilt_example =
    rebuild_all-Rebuilt numbers in_order (λ m. Perm.rfl) embeds 50 (pos 600) true calm mixed old
      (distinct_5, (distinct_2, (distinct_8, (λ m. m, tt))))
