-- ===== src/Group/Visual/Cluster.antt =====
-- What Cluster returns: a partition of the ids into the classes that similar pairs connect.
use mathlib.Core.List.Perm
use mathlib.Core.List.{append-nil}
use native.Mathlib.Decide.{ℕ_discrete}
use choix.Base.{
  ℕ, ◌≡◌, ◌≢◌, ◌↔◌, sym, ◌∙◌, inl, inr, Bool, some, List, [], ◌∷◌, map, Perm, concat, All, In, ltb,
  ◌==◌, All-In, All-of_In, Bool-cases, ==_iff, arith,
}
use mathlib.Core.Path.{ap}
use choix.Base.Floats.{Floats}
use choix.Base.Maps.{lookup, keys}
use choix.Base.Perms.{In-perm, In-perm_ids, concat-perm, concat-map_perm, In-map, In-map_cases}
use choix.Base.Sort.{sort_by-perm, Sorted}
use choix.Group.Visual.{first_less, sort_ids, sort_groups, cluster_by, Embeds, similar, cluster}
use choix.Group.Visual.Links.{Linked, Similar}
use choix.Group.Visual.Groups.{gather-perm, gather-Home, gather-OfRoot, OfRoot}
use choix.Group.Visual.Roots.{
  ids, root, groups, to_ids, network, Linked-root, collected, sort_ids-Sorted, sort_groups-Sorted,
}

abbrev Entry : Type 0
Entry = ℕ × List ℕ

Entry-discrete : Discrete Entry
Entry-discrete = hlevel ℕ_discrete

group-discrete : Discrete (List ℕ)
group-discrete = hlevel ℕ_discrete

lookup-In : (k : ℕ) (gs : List Entry) (ms : List ℕ) → lookup k gs ≡ some ms → In (k, ms) gs
unfolding lookup
lookup-In k [] ms e = cc
lookup-In k ((j, ns) ∷ gs) ms e = elim (Bool-cases (j == k)) [
  | inl t ↦ inl (ground (arith, ==_iff j k))
  | inr t ↦ inr (lookup-In k gs ms (rw t at e))
]

sort_ids-nil : (xs : List ℕ) → sort_ids xs ≡ [] → xs ≡ []
sort_ids-nil xs e = sym (Perm.nil-eq (rw e at (sort_by-perm ltb xs)))

module _ (range : List Entry → List Entry) (range_perm : (m : List Entry) → Perm (range m) m)
    (sim : ℕ → ℕ → Bool) (unsorted : List ℕ) where
  abbrev sorted_groups : List (List ℕ)
  sorted_groups = map (λ g. sort_ids (g.1)) (range (groups sim unsorted))

  cluster_by_lem : cluster_by range sim unsorted ≡ sort_groups sorted_groups
  unfolding cluster_by
  cluster_by_lem = rw (collected sim unsorted)

  pub cluster_by-perm : Perm (concat (cluster_by range sim unsorted)) unsorted
  cluster_by-perm = rw cluster_by_lem (
      Perm.trans (concat-perm (sort_by-perm first_less sorted_groups)) (
        Perm.trans
          (concat-map_perm (λ g. sort_ids (g.1)) (λ g. g.1) (λ g. sort_by-perm ltb g.1)
            (range (groups sim unsorted)))
          (Perm.trans (concat-perm (Perm.map (λ g. g.1) (range_perm (groups sim unsorted)))) (
            Perm.trans (gather-perm (root sim unsorted) (ids sim unsorted) [])
              (rw append-nil (sort_by-perm ltb unsorted))))))

  -- The groups of the result are the collected groups, each sorted.
  In-cluster_by :
      (g : Entry) → In g (groups sim unsorted) → In (sort_ids (g.1)) (cluster_by range sim unsorted)
  In-cluster_by g m = rw cluster_by_lem (
      In-perm group-discrete (sort_ids (g.1)) sorted_groups (sort_groups sorted_groups)
        (Perm.symm (sort_by-perm first_less sorted_groups))
        (In-map (λ g. sort_ids (g.1)) g (range (groups sim unsorted))
          (In-perm Entry-discrete g (groups sim unsorted) (range (groups sim unsorted))
            (Perm.symm (range_perm (groups sim unsorted))) m)))

  of_cluster_by :
      (ms : List ℕ)
      → In ms (cluster_by range sim unsorted)
      → (g : Entry) × In g (groups sim unsorted) × (ms ≡ sort_ids (g.1))
  of_cluster_by ms m =
      let (g, mg, e) =
        In-map_cases (λ g. sort_ids (g.1)) ms (range (groups sim unsorted))
          (In-perm group-discrete ms (sort_groups sorted_groups) sorted_groups
            (sort_by-perm first_less sorted_groups) (rw cluster_by_lem at m)) in
      (
        g,
        In-perm Entry-discrete g (range (groups sim unsorted)) (groups sim unsorted)
            (range_perm (groups sim unsorted)) mg,
        e,
      )

  of_root : (g : Entry) → In g (groups sim unsorted) → OfRoot (root sim unsorted) g
  of_root g m =
      All-In (OfRoot (root sim unsorted)) g (groups sim unsorted)
        (gather-OfRoot (root sim unsorted) (ids sim unsorted) [] tt) m

  -- One group of the result holds both.
  abbrev pub Together : ℕ → ℕ → Type 0
  Together x y = (g : List ℕ) × In g (cluster_by range sim unsorted) × In x g × In y g

  pub Together-Linked :
      (x y : ℕ) → In x unsorted → In y unsorted → Together x y ↔ Linked (Similar sim unsorted) x y
  Together-Linked x y mx my = (split, meet)
    where
      split : Together x y → Linked (Similar sim unsorted) x y
      split (ms, m, hx, hy) =
          let (g, mg, e) = of_cluster_by ms m in
          let at_root = λ (z : ℕ) (h : In z ms).
            All-In (λ m. root sim unsorted m ≡ g.0) z g.1 (of_root g mg).1
              (In-perm_ids z (sort_ids (g.1)) g.1 (sort_by-perm ltb g.1) (rw e at h)) in
          (network sim unsorted).sound x y mx my (at_root x hx ∙ sym (at_root y hy))

      meet : Linked (Similar sim unsorted) x y → Together x y
      meet l =
          let home = λ (z : ℕ) (h : In z unsorted).
            gather-Home (root sim unsorted) (ids sim unsorted) [] z
              (inl (to_ids sim unsorted z h)) in
          let (ms, ex, hx) = home x mx in
          let (ns, ey, hy) = home y my in
          let same : some ms ≡ some ns =
            sym ex ∙ ap (λ r. lookup r (groups sim unsorted)) (Linked-root sim unsorted l) ∙ ey in
          let e : ms ≡ ns = cc in
          let sorted =
            λ (z : ℕ). In-perm_ids z ms (sort_ids ms) (Perm.symm (sort_by-perm ltb ms)) in
          (
            sort_ids ms,
            In-cluster_by (root sim unsorted x, ms) (lookup-In _ (groups sim unsorted) ms ex),
            sorted x hx,
            sorted y (rw e hy),
          )

  abbrev pub IsAscending : List ℕ → Type 0
  IsAscending g = (g ≢ []) × Sorted ltb g

  pub cluster_by-Sorted :
      All IsAscending (cluster_by range sim unsorted)
      × Sorted first_less (cluster_by range sim unsorted)
  cluster_by-Sorted = (
    All-of_In IsAscending (cluster_by range sim unsorted) λ ms m.
        let (g, mg, e) = of_cluster_by ms m in
        rw e (λ q. (of_root g mg).0 (sort_ids-nil g.1 q), sort_ids-Sorted g.1),
    rw cluster_by_lem (sort_groups-Sorted sorted_groups),
  )

module _ (fl : Floats) (range : List Entry → List Entry)
    (range_perm : (m : List Entry) → Perm (range m) m) (embeds : Embeds fl)
    (threshold : fl.Float64) where
  -- Cluster returns each file id of the map in exactly one group, as often as the map has it,
  -- whatever the order in which maps are iterated.
  pub cluster-perm : Perm (concat (cluster fl range embeds threshold)) (keys embeds)
  unfolding cluster
  cluster-perm = cluster_by-perm range range_perm (similar fl embeds threshold) (keys embeds)

  -- Two ids of the map are in one group of Cluster's result exactly when a chain of pairs connects
  -- them, each pair of a smaller and a larger id whose cosine is above the threshold.
  pub cluster-Linked :
      (x y : ℕ)
      → In x (keys embeds)
      → In y (keys embeds)
      → ((g : List ℕ) × In g (cluster fl range embeds threshold) × In x g × In y g)
        ↔ Linked (Similar (similar fl embeds threshold) (keys embeds)) x y
  unfolding cluster
  cluster-Linked = Together-Linked range range_perm (similar fl embeds threshold) (keys embeds)

  -- No group of Cluster's result is empty, the ids of each ascend, and the groups ascend by their
  -- first ids.
  pub cluster-Sorted :
      All (λ g. (g ≢ []) × Sorted ltb g) (cluster fl range embeds threshold)
      × Sorted first_less (cluster fl range embeds threshold)
  unfolding cluster
  cluster-Sorted = cluster_by-Sorted range range_perm (similar fl embeds threshold) (keys embeds)
