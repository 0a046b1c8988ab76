-- ===== src/Store/ClusterExamples.antt =====
-- internal/store/clusters_write.go on small tables.
use choix.Base.{ℕ, some, none, List, [], ◌∷◌, ◌++◌, map, Bool, true, false, ◌==◌, ◌≡◌, refl}
use choix.Base.Int.{pos}
use choix.Base.Sort.{sort_by}
use choix.Store.Clusters.{
  ClusterDef, Tables, write_clusters, write_bucket, read_back, read_cluster, list_all,
}
use choix.Store.Clusters.Write.{once}
use choix.Store.Clusters.Replace.{write_clusters-Replaced}
use choix.Store.Clusters.Bucket.{other_rows, write_bucket-Replaced}

abbrev old : Tables
old = record {
  clusters =
      record { id = 3; device_key = "X-T5#1"; time_bucket = some (pos 600) }
      ∷ record { id = 7; device_key = "X-T5#1"; time_bucket = none }
      ∷ [];
  members = (3, 11) ∷ (7, 12) ∷ (3, 13) ∷ [];
}

abbrev defs : List ClusterDef
defs =
    record { device_key = "X-T5#1"; time_bucket = none; members = 14 ∷ 12 ∷ 14 ∷ [] }
    ∷ record { device_key = "X-T5#1"; time_bucket = none; members = 15 ∷ [] }
    ∷ []

abbrev no_fault : ℕ → Bool
no_fault n = false

-- The second member of the first definition fails.
abbrev at_6 : ℕ → Bool
at_6 n = n == 6

write_run : write_bucket no_fault "X-T5#1" none defs old ≡ (
  true,
  record {
    clusters =
        record { id = 3; device_key = "X-T5#1"; time_bucket = some (pos 600) }
        ∷ record { id = 4; device_key = "X-T5#1"; time_bucket = none }
        ∷ record { id = 5; device_key = "X-T5#1"; time_bucket = none }
        ∷ [];
    members = (3, 11) ∷ (3, 13) ∷ (4, 14) ∷ (4, 12) ∷ (5, 15) ∷ [];
  },
)
unfolding write_bucket
write_run = refl

read_run :
    read_back ((write_clusters no_fault defs old).1)
    ≡ record { device_key = "X-T5#1"; time_bucket = none; members = 12 ∷ 14 ∷ [] }
      ∷ record { device_key = "X-T5#1"; time_bucket = none; members = 15 ∷ [] }
      ∷ []
unfolding write_clusters sort_by
read_run = refl

fault_run : write_bucket at_6 "X-T5#1" none defs old ≡ (false, old)
unfolding write_bucket
fault_run = refl

write_bucket-Replaced_example :
    ((u : Tables) → write_bucket at_6 "X-T5#1" none defs old ≡ (false, u) → u ≡ old)
    × ((u : Tables)
        → write_bucket at_6 "X-T5#1" none defs old ≡ (true, u)
        → read_back u
          ≡ map (read_cluster old.members) (list_all (other_rows "X-T5#1" none old.clusters))
            ++ map once defs)
write_bucket-Replaced_example = write_bucket-Replaced at_6 "X-T5#1" none defs old

write_clusters-Replaced_example :
    ((u : Tables) → write_clusters no_fault defs old ≡ (false, u) → u ≡ old)
    × ((u : Tables) → write_clusters no_fault defs old ≡ (true, u) → read_back u ≡ map once defs)
write_clusters-Replaced_example = write_clusters-Replaced no_fault defs old
