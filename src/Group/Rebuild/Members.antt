-- ===== src/Group/Rebuild/Members.antt =====
-- The members of the clusters that a walk emits.
use Prim.Native.String.{String}
use mathlib.Core.List.Perm
use mathlib.Core.List.{append_assoc, map-append}
use choix.Base.{Option, List, [], ◌∷◌, ◌++◌, map, ◌≡◌, refl, subst, Perm, concat, ℕ}
use choix.Base.Int.{ℤ}
use choix.Base.Distinct.{Distinct, Distinct-append_left, Distinct-append_right}
use choix.Store.Clusters.{ClusterDef}
use choix.Group.Walk.{walk}
use choix.Group.Walk.Runs.{runs, concat-runs}
use choix.Group.Walk.Agree.{buckets, walk-runs}
use choix.Group.Bucket.{RunFile}
use choix.Group.Rebuild.{cluster_def}

-- All member ids of clusters, in order.
abbrev pub all_members : List ClusterDef → List ℕ
all_members defs = concat (map (λ (d : ClusterDef). d.members) defs)

abbrev pub run_ids : List RunFile → List ℕ
run_ids = map (λ f. f.id)

pub all_members-append :
    (xs ys : List ClusterDef) → all_members (xs ++ ys) ≡ all_members xs ++ all_members ys
all_members-append [] ys = refl
all_members-append (x ∷ xs) ys = rw (all_members-append xs ys, append_assoc)

pub all_members-defs :
    (dev : String) (s : Option ℤ) (gs : List (List ℕ))
    → all_members (map (cluster_def dev s) gs) ≡ concat gs
all_members-defs dev s [] = refl
all_members-defs dev s (g ∷ gs) = rw (all_members-defs dev s gs)

module _ (emit : Option ℤ → List RunFile → List ClusterDef) (bucket_sec : ℤ)
    (captured_at : RunFile → Option ℤ)
    (emit_perm : (s : Option ℤ) (r : List RunFile)
      → Distinct (run_ids r)
      → Perm (all_members (emit s r)) (run_ids r)) where
  buckets-perm :
      (rs : List (List RunFile))
      → Distinct (run_ids (concat rs))
      → Perm (all_members (buckets emit bucket_sec captured_at rs)) (run_ids (concat rs))
  buckets-perm [] d = Perm.rfl
  buckets-perm (r ∷ rs) d =
      let d' = subst Distinct (map-append (λ (f : RunFile). f.id) r (concat rs)) d in
      rw (all_members-append, map-append)
        (Perm.append (emit_perm _ r (Distinct-append_left (run_ids r) (run_ids (concat rs)) d'))
          (buckets-perm rs (Distinct-append_right (run_ids r) (run_ids (concat rs)) d')))

  -- A walk that emits the ids of every bucket once emits the ids of all shots once.
  pub walk-perm :
      (seq : List RunFile)
      → Distinct (run_ids seq)
      → Perm (all_members (walk emit bucket_sec captured_at seq)) (run_ids seq)
  walk-perm seq d =
      let whole = concat-runs bucket_sec captured_at seq in
      rw walk-runs (
        subst
          (λ z.
            Perm
              (all_members (buckets emit bucket_sec captured_at (runs bucket_sec captured_at seq)))
              (run_ids z))
          whole (buckets-perm (runs bucket_sec captured_at seq) (rw whole d)))

-- Devices one after the other: if each emits its ids once, so do all together.
pub devices-perm :
    (defs : String → List ClusterDef) (ids : String → List ℕ)
    → ((dev : String) → Distinct (ids dev) → Perm (all_members (defs dev)) (ids dev))
    → (devs : List String) → Distinct (concat (map ids devs))
    → Perm (all_members (concat (map defs devs))) (concat (map ids devs))
devices-perm defs ids h [] d = Perm.rfl
devices-perm defs ids h (dev ∷ devs) d = rw all_members-append (
    Perm.append (h dev (Distinct-append_left (ids dev) (concat (map ids devs)) d))
      (devices-perm defs ids h devs (Distinct-append_right (ids dev) (concat (map ids devs)) d)))

pub run_ids-concat :
    (seqs : String → List RunFile) (devs : List String)
    → run_ids (concat (map seqs devs)) ≡ concat (map (λ dev. run_ids (seqs dev)) devs)
run_ids-concat seqs [] = refl
run_ids-concat seqs (dev ∷ devs) = rw (map-append, run_ids-concat seqs devs) refl

-- Clusters made of groups, whatever keys they get.
pub all_members-keyed :
    (key : List ℕ → String) (s : Option ℤ) (gs : List (List ℕ))
    → all_members (map (λ g. cluster_def (key g) s g) gs) ≡ concat gs
all_members-keyed key s [] = refl
all_members-keyed key s (g ∷ gs) = rw (all_members-keyed key s gs) refl
