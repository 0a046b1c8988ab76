-- ===== src/Store/Clusters/Bucket.antt =====
-- WriteBucket: one bucket is replaced, and the clusters of the others stay.
use Prim.Native.String.{String}
use choix.Base.{
  ℕ, ◌<◌, Option, List, [], ◌∷◌, ◌++◌, map, keep, Bool, true, false, not, ◌==◌, ◌≡◌, refl, ap, ◌∙◌,
  arith, All, All-imp, Bool-cases, inl, inr, subst,
}
use choix.Base.Int.{ℤ}
use choix.Base.Sort.{sort_by-All}
use choix.Store.Clusters.{
  id_less, list_all, ClusterDef, ClusterRow, Tables, next_cluster_id, write_bucket, without_bucket,
  in_bucket, is_row, member_rows, read_cluster, read_back,
}
use choix.Store.Clusters.Write.{once, Below}
use choix.Store.Clusters.Replace.{Replaced, replace-Replaced}

is_row-below : (id : ℕ) (cs : List ClusterRow) → is_row id cs ≡ true → id < next_cluster_id cs
is_row-below id [] h = absurd cc
is_row-below id (c ∷ cs) h = ground (arith, is_row-below id cs)

keep-Below :
    (cs : List ClusterRow) (ms : List (ℕ × ℕ))
    → Below (next_cluster_id cs) (keep (λ m. is_row m.0 cs) ms)
keep-Below cs [] = tt
keep-Below cs (m ∷ ms) = elim (Bool-cases (is_row m.0 cs)) [
  | inl t ↦ rw t (is_row-below m.0 cs t, keep-Below cs ms)
  | inr t ↦ rw t (keep-Below cs ms)
]

is_row_self : (cs : List ClusterRow) → All (λ c. is_row c.id cs ≡ true) cs
is_row_self [] = tt
is_row_self (c ∷ cs) = (ground arith, All-imp cs (λ d h. ground (arith, h)) (is_row_self cs))

member_rows-keep :
    (id : ℕ) (cs : List ClusterRow) (ms : List (ℕ × ℕ))
    → is_row id cs ≡ true
    → member_rows id (keep (λ m. is_row m.0 cs) ms) ≡ member_rows id ms
member_rows-keep id cs [] h = refl
member_rows-keep id cs (m ∷ ms) h = elim (Bool-cases (is_row m.0 cs)) [
  | inl t ↦ ground (arith, t, member_rows-keep id cs ms h)
  | inr t ↦ elim (Bool-cases (m.0 == id)) [
    | inl u ↦ let same : m.0 ≡ id = ground (arith, u) in absurd (let r = rw same at t in cc)
    | inr u ↦ rw (t, u) (member_rows-keep id cs ms h)
  ]
]

map-read_cluster :
    (rows cs : List ClusterRow) (ms : List (ℕ × ℕ))
    → All (λ c. is_row c.id cs ≡ true) rows
    → map (read_cluster (keep (λ m. is_row m.0 cs) ms)) rows ≡ map (read_cluster ms) rows
map-read_cluster [] cs ms h = refl
map-read_cluster (c ∷ rows) cs ms h =
    rw (member_rows-keep c.id cs ms h.0, map-read_cluster rows cs ms h.1)

-- The rows of the other buckets.
abbrev pub other_rows : String → Option ℤ → List ClusterRow → List ClusterRow
other_rows device bucket = keep (λ c. not (in_bucket device bucket c))

module _ (fault : ℕ → Bool) where
  -- WriteBucket is all or nothing: if it fails, at whichever statement, the tables are as they were;
  -- if it succeeds, ListAll and MembersOf show the clusters of the other buckets as before, and after
  -- them one cluster for each definition that was written, in their order, with its members in
  -- ascending order, each once.
  pub write_bucket-Replaced :
      (device : String) (bucket : Option ℤ) (ds : List ClusterDef) (old : Tables)
      → ((u : Tables) → write_bucket fault device bucket ds old ≡ (false, u) → u ≡ old)
        × ((u : Tables)
            → write_bucket fault device bucket ds old ≡ (true, u)
            → read_back u
              ≡ map (read_cluster old.members) (list_all (other_rows device bucket old.clusters))
                ++ map once ds)
  unfolding write_bucket
  write_bucket-Replaced device bucket ds old =
      let kept = other_rows device bucket old.clusters in
      let left = without_bucket device bucket old in
      let h = replace-Replaced fault ds left old (keep-Below kept old.members) in
      (
        λ u e. subst (Replaced fault ds left old) e h,
        λ u e.
            subst (Replaced fault ds left old) e h
            ∙ ap (λ l. l ++ map once ds)
                (map-read_cluster (list_all kept) kept old.members
                  (sort_by-All id_less (λ c. is_row c.id kept ≡ true) kept (is_row_self kept))),
      )
