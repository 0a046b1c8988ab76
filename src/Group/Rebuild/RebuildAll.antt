-- ===== src/Group/Rebuild/RebuildAll.antt =====
-- internal/group/group.go: RebuildAll and RebuildBucket, from the tables to the tables.
pub mod Reads
use Prim.Native.String.{String}
use choix.Base.{ℕ, Option, some, none, List, [], ◌∷◌, map, if◌then◌else◌, Bool, true, false, ◌&&◌}
use choix.Base.Int.{ℤ}
use choix.Base.Floats.{Floats}
use choix.Store.Files.{File}
use choix.Store.Analyzed.{list_all_analyzed, list_analyzed_in_bucket}
use choix.Store.Clusters.{ClusterDef, Tables, write_clusters, write_bucket}
use choix.Group.Visual.{Embeds}
use choix.Group.Bucket.{cluster_ids}
use choix.Group.Rebuild.{cluster_def, per_device_defs}
use choix.Group.Rebuild.CrossDevice.{cross_device_defs}

-- The failures that a rebuild can meet: the two reads, the context, call by call, and the statements
-- of the transaction that writes.
pub record Faults : Type 0 where
  pub list_fails : Bool
  pub embeds_fail : Bool
  pub ctx_err : ℕ → Bool
  pub write_fault : ℕ → Bool

module _ (fl : Floats) (range : List (ℕ × List ℕ) → List (ℕ × List ℕ)) (embeds : Embeds fl)
    (threshold : fl.Float64) (bucket_sec : ℤ) (cross_device : Bool) (faults : Faults) where
  abbrev pub any_embedding : Embeds fl → Bool
  any_embedding [] = false
  any_embedding (e ∷ es) = true

  unfoldable pub all_defs : List File → Option (List ClusterDef)
  unfolding per_device_defs cross_device_defs
  all_defs files =
      if cross_device && any_embedding embeds
      then cross_device_defs fl range embeds threshold bucket_sec (faults.ctx_err 0) files
      else per_device_defs fl range embeds threshold bucket_sec faults.ctx_err files

  -- `false` is an error.
  abbrev pub write_defs : Option (List ClusterDef) → Tables → Bool × Tables
  write_defs none old = (false, old)
  write_defs (some defs) old = write_clusters faults.write_fault defs old

  unfoldable pub rebuild_listed : List File → Tables → Bool × Tables
  unfolding all_defs write_clusters
  rebuild_listed [] old = write_clusters faults.write_fault [] old
  rebuild_listed (f ∷ fs) old =
      if faults.embeds_fail then (false, old) else write_defs (all_defs (f ∷ fs)) old

  unfoldable pub rebuild_all : List File → Tables → Bool × Tables
  unfolding rebuild_listed list_all_analyzed
  rebuild_all rows old =
      if faults.list_fails then (false, old) else rebuild_listed (list_all_analyzed rows) old

  abbrev pub bucket_defs : String → Option ℤ → List File → List ClusterDef
  bucket_defs device bucket [] = []
  bucket_defs device bucket (f ∷ fs) =
      map (cluster_def device bucket)
        (cluster_ids fl range (map (λ g. g.id) (f ∷ fs)) embeds threshold)

  -- RebuildBucket; a row of signals that cannot be read counts as one without an embedding.
  unfoldable pub rebuild_bucket : String → Option ℤ → List File → Tables → Bool × Tables
  unfolding cluster_ids write_bucket list_analyzed_in_bucket
  rebuild_bucket device bucket rows old =
      if faults.list_fails
      then (false, old)
      else write_bucket faults.write_fault device bucket
          (bucket_defs device bucket (list_analyzed_in_bucket device bucket bucket_sec rows)) old
