-- ===== src/Group/Rebuild.antt =====
-- internal/group/group.go: rebuildAllPerDevice and what RebuildAll does before it.
pub mod Members
pub mod PerDevice
pub mod CrossDevice
pub mod RebuildAll
use Prim.Native.String.{String}
use text.Mathlib.Text.{◌==◌ as str_eq}
use choix.Base.{
  ℕ, zero, suc, Option, some, none, List, [], ◌∷◌, ◌++◌, map, if◌then◌else◌, Bool, true, false,
}
use choix.Base.Int.{ℤ}
use choix.Base.Floats.{Floats}
use choix.Base.Multimap.{push, has, values_of}
use choix.Store.Files.{File}
use choix.Store.Clusters.{ClusterDef}
use choix.Group.Visual.{Embeds}
use choix.Group.Walk.{walk}
use choix.Group.Bucket.{RunFile, sort_run_files, cluster_ids}

-- The device of a file: "Unknown" for a NULL or empty key.
unfoldable pub device_of : Option String → String
device_of none = "Unknown"
device_of (some s) = if str_eq s "" then "Unknown" else s

abbrev pub run_file : File → RunFile
run_file f = record { id = f.id; device_key = device_of f.device_key; captured_at = f.captured_at }

-- byDevice, and deviceOrder: the devices in the order of their first files.
pub record Devices : Type 0 where
  pub by_device : List (String × List RunFile)
  pub device_order : List String

unfoldable pub add_file : File → Devices → Devices
unfolding push has device_of
add_file f d =
    let dev = device_of f.device_key in
    record {
      by_device = push str_eq dev (run_file f) d.by_device;
      device_order =
          if has str_eq dev d.by_device then d.device_order else d.device_order ++ dev ∷ [];
    }

unfoldable pub add_files : List File → Devices → Devices
unfolding add_file
add_files [] d = d
add_files (f ∷ fs) d = add_files fs (add_file f d)

abbrev pub cluster_def : String → Option ℤ → List ℕ → ClusterDef
cluster_def dev start ids = record { device_key = dev; time_bucket = start; members = ids }

module _ (fl : Floats) (range : List (ℕ × List ℕ) → List (ℕ × List ℕ)) (embeds : Embeds fl)
    (threshold : fl.Float64) (bucket_sec : ℤ) where
  -- `emit`: one cluster for each visual group of a bucket.
  unfoldable pub emit : String → Option ℤ → List RunFile → List ClusterDef
  unfolding cluster_ids
  emit dev start fs =
      map (cluster_def dev start) (cluster_ids fl range (map (λ f. f.id) fs) embeds threshold)

  unfoldable pub device_defs : String → List RunFile → List ClusterDef
  unfolding emit walk sort_run_files
  device_defs dev seq = walk (emit dev) bucket_sec (λ f. f.captured_at) (sort_run_files seq)

  -- The loop over deviceOrder. `ctx_err n` is what the n-th call of ctx.Err() returns; an error ends
  -- the loop, and nothing is written.
  unfoldable pub device_loop :
      (ctx_err : ℕ → Bool) (n : ℕ)
      → List String
      → List (String × List RunFile)
      → List ClusterDef
      → Option (List ClusterDef)
  unfolding device_defs values_of
  device_loop ctx_err n [] by_device defs = some defs
  device_loop ctx_err n (dev ∷ devs) by_device defs =
      if ctx_err n
      then none
      else device_loop ctx_err (suc n) devs by_device
          (defs ++ device_defs dev (values_of str_eq dev by_device))

  -- The clusters that rebuildAllPerDevice hands to WriteClusters.
  unfoldable pub per_device_defs : (ctx_err : ℕ → Bool) → List File → Option (List ClusterDef)
  unfolding device_loop add_files
  per_device_defs ctx_err files =
      let d = add_files files (record { by_device = []; device_order = [] }) in
      device_loop ctx_err 0 d.device_order d.by_device []
