-- ===== src/Store/Clusters.antt =====
-- internal/store/clusters_write.go: the transactions that replace clusters.
pub mod Write
pub mod Replace
pub mod Bucket
use Prim.Native.String.{String}
use text.Mathlib.Text.{◌==◌ as str_eq}
use choix.Base.{
  ℕ, zero, suc, Option, some, none, List, [], ◌∷◌, ◌++◌, map, keep, if◌then◌else◌, Bool, true,
  false, not, ◌&&◌, ◌==◌, ltb,
}
use choix.Base.Int.{ℤ, eqb_ℤ}
use choix.Base.Sort.{sort_by}

-- One cluster that is ready to be written.
pub record ClusterDef : Type 0 where
  pub device_key : String
  pub time_bucket : Option ℤ
  pub members : List ℕ

-- A row of clusters.
pub record ClusterRow : Type 0 where
  pub id : ℕ
  pub device_key : String
  pub time_bucket : Option ℤ

-- The tables clusters and cluster_members, the latter as pairs of a cluster id and a file id.
pub record Tables : Type 0 where
  pub clusters : List ClusterRow
  pub members : List (ℕ × ℕ)

-- An INTEGER PRIMARY KEY gets one more than the largest id.
abbrev pub next_cluster_id : List ClusterRow → ℕ
next_cluster_id [] = 1
next_cluster_id (c ∷ cs) = if ltb c.id (next_cluster_id cs) then next_cluster_id cs else suc c.id

abbrev pub member_of : ℕ → ℕ → List (ℕ × ℕ) → Bool
member_of cid fid [] = false
member_of cid fid (m ∷ ms) = if m.0 == cid && m.1 == fid then true else member_of cid fid ms

-- `ON CONFLICT(cluster_id, file_id) DO NOTHING`
abbrev pub add_member : ℕ → ℕ → List (ℕ × ℕ) → List (ℕ × ℕ)
add_member cid fid ms = if member_of cid fid ms then ms else ms ++ (cid, fid) ∷ []

abbrev pub same_bucket : Option ℤ → Option ℤ → Bool
same_bucket none none = true
same_bucket (some a) (some b) = eqb_ℤ a b
same_bucket _ _ = false

abbrev pub in_bucket : String → Option ℤ → ClusterRow → Bool
in_bucket device bucket c = str_eq c.device_key device && same_bucket c.time_bucket bucket

abbrev pub is_row : ℕ → List ClusterRow → Bool
is_row id [] = false
is_row id (c ∷ cs) = if c.id == id then true else is_row id cs

-- The clusters that stay, and the members of those: the rest cascades.
abbrev pub without_bucket : String → Option ℤ → Tables → Tables
without_bucket device bucket t =
    let kept = keep (λ c. not (in_bucket device bucket c)) t.clusters in
    record { clusters = kept; members = keep (λ m. is_row m.0 kept) t.members }

-- `fault n` tells that the n-th statement of the transaction fails, which also stands for a file id
-- that the foreign key refuses; `none` is a failure.
module _ (fault : ℕ → Bool) where
  unfoldable pub insert_members : ℕ → ℕ → List ℕ → List (ℕ × ℕ) → Option (ℕ × List (ℕ × ℕ))
  insert_members n cid [] ms = some (n, ms)
  insert_members n cid (fid ∷ fids) ms =
      let rest = insert_members (suc n) cid fids (add_member cid fid ms) in
      if fault n then none else rest

  abbrev pub new_cluster : ClusterDef → Tables → ClusterRow
  new_cluster d t = record {
    id = next_cluster_id t.clusters;
    device_key = d.device_key;
    time_bucket = d.time_bucket;
  }

  -- The loop over defs.
  unfoldable pub insert_defs : ℕ → List ClusterDef → Tables → Option (ℕ × Tables)
  unfolding insert_members
  insert_defs n [] t = some (n, t)
  insert_defs n (d ∷ ds) t =
      elim (insert_members (suc n) (next_cluster_id t.clusters) d.members t.members) [
        | none ↦ none
        | some (m, ms) ↦
            let u : Tables = record {
              clusters = t.clusters ++ new_cluster d t ∷ [];
              members = ms;
            } in
            let rest = insert_defs m ds u in if fault n then none else rest
      ]

  -- Commit keeps what was written; without it the deferred rollback restores the old tables.
  abbrev pub commit : Tables → Option (ℕ × Tables) → Bool × Tables
  commit old none = (false, old)
  commit old (some (n, t)) = if fault n then (false, old) else (true, t)

  -- What follows the DELETE: with no defs a commit at once, else the two prepares and the loop.
  abbrev pub after_delete : List ClusterDef → Tables → Option (ℕ × Tables)
  after_delete [] t = some (2, t)
  after_delete (d ∷ ds) t =
      if fault 2 then none else if fault 3 then none else insert_defs 4 (d ∷ ds) t

  abbrev pub replace : Tables → Tables → List ClusterDef → Bool × Tables
  replace old emptied defs =
      if fault 0
      then (false, old)
      else if fault 1
      then (false, old)
      else commit old (after_delete defs emptied)

  -- `DELETE FROM clusters`; the members cascade.
  unfoldable pub write_clusters : List ClusterDef → Tables → Bool × Tables
  unfolding insert_defs
  write_clusters defs old = replace old (record { clusters = []; members = [] }) defs

  unfoldable pub write_bucket : String → Option ℤ → List ClusterDef → Tables → Bool × Tables
  unfolding insert_defs
  write_bucket device bucket defs old = replace old (without_bucket device bucket old) defs

-- The files of a cluster, in the order of the rows.
abbrev pub member_rows : ℕ → List (ℕ × ℕ) → List ℕ
member_rows cid [] = []
member_rows cid (m ∷ ms) = if m.0 == cid then m.1 ∷ member_rows cid ms else member_rows cid ms

-- MembersOf: `ORDER BY file_id`.
abbrev pub members_of : ℕ → List (ℕ × ℕ) → List ℕ
members_of cid ms = sort_by ltb (member_rows cid ms)

abbrev pub id_less : ClusterRow → ClusterRow → Bool
id_less c d = ltb c.id d.id

-- ListAll: `ORDER BY id`.
abbrev pub list_all : List ClusterRow → List ClusterRow
list_all = sort_by id_less

-- Each cluster of ListAll with its MembersOf.
abbrev pub read_cluster : List (ℕ × ℕ) → ClusterRow → ClusterDef
read_cluster ms c = record {
  device_key = c.device_key;
  time_bucket = c.time_bucket;
  members = members_of c.id ms;
}

abbrev pub read_back : Tables → List ClusterDef
read_back t = map (read_cluster t.members) (list_all t.clusters)
