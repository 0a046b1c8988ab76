-- ===== src/Group/Bucket.antt =====
-- internal/group/group.go: clusterIDs and sortRunFiles.
pub mod Laws
use Prim.Native.String.{String}
use choix.Base.{
  ℕ, Option, some, none, List, [], ◌∷◌, ◌++◌, if◌then◌else◌, Bool, true, false, ltb, ◌==◌,
}
use choix.Base.Int.{ℤ, ltb_ℤ, eqb_ℤ}
use choix.Base.Floats.{Floats}
use choix.Base.Maps.{lookup, insert}
use choix.Base.Sort.{sort_by}
use choix.Group.Visual.{Embeds, cluster, sort_ids, sort_groups}

pub record RunFile : Type 0 where
  pub id : ℕ
  pub device_key : String
  pub captured_at : Option ℤ

-- sortRunFiles: the shots with a time first, by time; ties, and shots without a time, by id.
unfoldable pub run_less : RunFile → RunFile → Bool
run_less f g = elim f.captured_at [
  | none ↦ elim g.captured_at [ none ↦ ltb f.id g.id | some _ ↦ false ]
  | some t ↦ elim g.captured_at [
    | none ↦ true
    | some u ↦ if eqb_ℤ t u then ltb f.id g.id else ltb_ℤ t u
  ]
]

unfoldable pub sort_run_files : List RunFile → List RunFile
unfolding run_less
sort_run_files = sort_by run_less

module _ (fl : Floats) (range : List (ℕ × List ℕ) → List (ℕ × List ℕ)) where
  -- The ids that have an embedding, with it, and those that have none.
  unfoldable pub route : Option (List fl.Float32) → ℕ → Embeds fl × List ℕ → Embeds fl × List ℕ
  unfolding insert
  route none id (bucket, no_emb) = (bucket, no_emb ++ id ∷ [])
  route (some e) id (bucket, no_emb) = (insert id e bucket, no_emb)

  unfoldable pub split_embeds : Embeds fl → List ℕ → Embeds fl × List ℕ → Embeds fl × List ℕ
  unfolding lookup route
  split_embeds embeds [] sides = sides
  split_embeds embeds (id ∷ ids) sides = split_embeds embeds ids (route (lookup id embeds) id sides)

  -- The groups, with one more for the ids that have no embedding.
  abbrev pub with_fallback : List (List ℕ) → List ℕ → List (List ℕ)
  with_fallback groups [] = groups
  with_fallback groups (x ∷ xs) = sort_groups (groups ++ sort_ids (x ∷ xs) ∷ [])

  unfoldable pub cluster_ids : List ℕ → Embeds fl → fl.Float64 → List (List ℕ)
  unfolding split_embeds cluster
  cluster_ids [] embeds threshold = []
  cluster_ids (i ∷ is) embeds threshold =
      let (bucket, no_emb) = split_embeds embeds (i ∷ is) ([], []) in
      with_fallback (cluster fl range bucket threshold) no_emb
