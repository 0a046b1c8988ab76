-- ===== src/Group/Examples.antt =====
-- internal/group on small inputs. Floats are stood in for by natural numbers.
use mathlib.Core.List.Perm
use choix.Base.{
  ℕ, ◌+◌, ◌*◌, ◌/◌, some, none, List, [], ◌∷◌, Perm, refl, ◌≡◌, ◌≢◌, ◌↔◌, inl, inr, concat, All, In,
  ltb, arith, false,
}
use choix.Base.Floats.{Floats}
use choix.Base.Int.{pos, ◌-ℤ◌}
use choix.Base.Sort.{sort_by, Sorted}
use choix.Store.Files.{File}
use choix.Group.Visual.{Embeds, cluster, cosine, embedding, similar, first_less}
use choix.Group.Visual.Links.{Linked, Similar}
use choix.Group.Visual.Cluster.{cluster-perm, cluster-Linked, cluster-Sorted}
use choix.Group.Walk.{walk}
use choix.Group.Walk.Runs.{runs}
use choix.Group.Walk.Agree.{buckets, walk-runs}
use choix.Store.Clusters.{ClusterDef}
use choix.Group.Rebuild.{per_device_defs, cluster_def}
use choix.Group.Rebuild.Members.{all_members}
use choix.Group.Rebuild.PerDevice.{per_device_defs-perm}

abbrev pub numbers : Floats
numbers = record {
  Float32 = ℕ;
  Float64 = ℕ;
  widen = λ x. x;
  zero = 0;
  add = ◌+◌;
  mul = ◌*◌;
  lt = ltb;
  decimal = λ n d. n / d;
}

abbrev pub in_order : List (ℕ × List ℕ) → List (ℕ × List ℕ)
in_order m = m

-- Ids 5 and 2 look alike, and so do 2 and 9; 4 is alone.
abbrev pub embeds : Embeds numbers
embeds = (5, 9 ∷ 0 ∷ 0 ∷ []) ∷ (9, 0 ∷ 9 ∷ 0 ∷ []) ∷ (2, 9 ∷ 9 ∷ 0 ∷ []) ∷ (4, 0 ∷ 0 ∷ 9 ∷ []) ∷ []

cluster_run : cluster numbers in_order embeds 50 ≡ (2 ∷ 5 ∷ 9 ∷ []) ∷ (4 ∷ []) ∷ []
unfolding cluster cosine embedding sort_by
cluster_run = refl

cluster-perm_example : Perm (concat (cluster numbers in_order embeds 50)) (5 ∷ 9 ∷ 2 ∷ 4 ∷ [])
cluster-perm_example = cluster-perm numbers in_order (λ m. Perm.rfl) embeds 50

cluster-Linked_example :
    ((g : List ℕ) × In g (cluster numbers in_order embeds 50) × In 5 g × In 9 g)
    ↔ Linked (Similar (similar numbers embeds 50) (5 ∷ 9 ∷ 2 ∷ 4 ∷ [])) 5 9
cluster-Linked_example =
    cluster-Linked numbers in_order (λ m. Perm.rfl) embeds 50 5 9 (inl refl) (inr (inl refl))

cluster-Sorted_example :
    All (λ g. (g ≢ []) × Sorted ltb g) (cluster numbers in_order embeds 50)
    × Sorted first_less (cluster numbers in_order embeds 50)
cluster-Sorted_example = cluster-Sorted numbers in_order (λ m. Perm.rfl) embeds 50

abbrev pub shot : ℕ → ℕ → File
shot id t = record {
  id = id;
  path = "a.jpg";
  size = 1;
  mtime = pos 0;
  content_hash = "00";
  kind = "photo";
  format = "jpeg";
  device_key = some "X-T5#1";
  captured_at = some (pos t);
  width = none;
  height = none;
  iso = none;
  shutter = none;
  scan_status = "analyzed";
  err_msg = none;
}

abbrev pub shots : List File
shots = shot 5 100 ∷ shot 2 160 ∷ shot 4 900 ∷ []

walk_run :
    walk (λ s xs. xs ∷ []) (pos 600) (λ (f : File). f.captured_at) shots
    ≡ (shot 5 100 ∷ shot 2 160 ∷ []) ∷ (shot 4 900 ∷ []) ∷ []
unfolding walk ◌-ℤ◌
walk_run = refl

walk-runs_example :
    walk (λ s xs. xs ∷ []) (pos 600) (λ (f : File). f.captured_at) shots
    ≡ buckets
        (λ s xs. xs ∷ [])
        (pos 600)
        (λ (f : File). f.captured_at)
        (runs (pos 600) (λ (f : File). f.captured_at) shots)
walk-runs_example = walk-runs (λ s xs. xs ∷ []) (pos 600) (λ (f : File). f.captured_at) shots

-- The clusters of the three shots: the first two are close in time and look alike.
abbrev shot_defs : List ClusterDef
shot_defs =
    cluster_def "X-T5#1" (some (pos 100)) (2 ∷ 5 ∷ [])
    ∷ cluster_def "X-T5#1" (some (pos 900)) (4 ∷ [])
    ∷ []

per_device_run :
    per_device_defs numbers in_order embeds 50 (pos 600) (λ n. false) shots ≡ some shot_defs
unfolding per_device_defs cluster cosine embedding sort_by ◌-ℤ◌
per_device_run = refl

per_device_defs-perm_example : Perm (all_members shot_defs) (5 ∷ 2 ∷ 4 ∷ [])
per_device_defs-perm_example =
    per_device_defs-perm numbers in_order (λ m. Perm.rfl) embeds 50 (pos 600) (λ n. false) shots
      shot_defs (distinct, (distinct', (λ m. m, tt))) per_device_run
  where
    distinct : ¬ In {A = ℕ} 5 (2 ∷ 4 ∷ [])
    distinct m = ground arith

    distinct' : ¬ In {A = ℕ} 2 (4 ∷ [])
    distinct' m = ground arith
