-- ===== src/Group/Bucket/Laws.antt =====
-- clusterIDs returns every id of the bucket once, and sortRunFiles only reorders.
use mathlib.Core.List.Perm
use mathlib.Core.List.{append-nil, perm_middle, append_assoc, perm_append_singleton}
use choix.Base.{
  ℕ, Option, some, none, List, [], ◌∷◌, ◌++◌, ◌≡◌, refl, sym, subst, inl, inr, Perm, concat, In,
  Bool-cases, ==_iff, ◌==◌, ltb, In-append_left, In-append_right,
}
use choix.Base.Floats.{Floats}
use choix.Base.Maps.{lookup, insert, keys}
use choix.Base.Perms.{concat-perm}
use choix.Base.Distinct.{Distinct, Distinct-perm}
use choix.Base.Sort.{sort_by-perm}
use choix.Group.Visual.{Embeds, cluster, sort_ids, first_less}
use choix.Group.Visual.Cluster.{cluster-perm}
use choix.Group.Bucket.{
  RunFile, run_less, sort_run_files, route, split_embeds, with_fallback, cluster_ids,
}

pub sort_run_files-perm : (seq : List RunFile) → Perm (sort_run_files seq) seq
unfolding sort_run_files
sort_run_files-perm = sort_by-perm run_less

-- A new key goes to the end.
keys-insert :
    {V : Type 0} (k : ℕ) (v : V) (m : List (ℕ × V))
    → ¬ In k (keys m)
    → keys (insert k v m) ≡ keys m ++ k ∷ []
unfolding insert
keys-insert k v [] n = refl
keys-insert k v ((j, w) ∷ m) n = elim (Bool-cases (j == k)) [
  | inl e ↦ absurd (n (inl (sym ((==_iff j k).0 e))))
  | inr e ↦ rw (e, keys-insert k v m (λ i. n (inr i)))
]

concat-snoc :
    {A : Type 0} (xss : List (List A)) (ys : List A) → concat (xss ++ ys ∷ []) ≡ concat xss ++ ys
concat-snoc [] ys = append-nil ys
concat-snoc (xs ∷ xss) ys = rw (concat-snoc xss ys, append_assoc)

with_fallback-perm :
    (fl : Floats) (range : List (ℕ × List ℕ) → List (ℕ × List ℕ)) (groups : List (List ℕ))
    (no_emb : List ℕ)
    → Perm (concat (with_fallback fl range groups no_emb)) (concat groups ++ no_emb)
with_fallback-perm fl range groups [] = rw append-nil Perm.rfl
with_fallback-perm fl range groups (x ∷ xs) =
    Perm.trans (concat-perm (sort_by-perm first_less (groups ++ sort_ids (x ∷ xs) ∷ [])))
      (rw concat-snoc (Perm.append_left (concat groups) (sort_by-perm ltb (x ∷ xs))))

module _ (fl : Floats) (range : List (ℕ × List ℕ) → List (ℕ × List ℕ))
    (range_perm : (m : List (ℕ × List ℕ)) → Perm (range m) m) where
  abbrev both : Embeds fl × List ℕ → List ℕ
  both sides = keys (sides.0) ++ sides.1

  route-perm :
      (o : Option (List fl.Float32)) (id : ℕ) (sides : Embeds fl × List ℕ)
      → ¬ In id (keys (sides.0))
      → Perm (both (route fl range o id sides)) (id ∷ both sides)
  unfolding route
  route-perm none id (bucket, no_emb) n =
      rw (← append_assoc (keys bucket) no_emb (id ∷ []))
        (perm_append_singleton id (keys bucket ++ no_emb))
  route-perm (some e) id (bucket, no_emb) n =
      rw (keys-insert id e bucket n, append_assoc (keys bucket) (id ∷ []) no_emb)
        (perm_middle (keys bucket) no_emb)

  -- Every id goes to one side, as long as no id comes twice.
  split_embeds-perm :
      (embeds : Embeds fl) (ids : List ℕ) (sides : Embeds fl × List ℕ)
      → Distinct (ids ++ both sides)
      → Perm (both (split_embeds fl range embeds ids sides)) (ids ++ both sides)
  unfolding split_embeds
  split_embeds-perm embeds [] sides d = Perm.rfl
  split_embeds-perm embeds (i ∷ is) sides d =
      let fresh = λ (m : In i (keys (sides.0))).
        d.0 (In-append_right i is (both sides) (In-append_left i (keys (sides.0)) (sides.1) m)) in
      let sides' = route fl range (lookup i embeds) i sides in
      let step : Perm (is ++ both sides') (i ∷ (is ++ both sides)) =
        Perm.trans (Perm.append_left is (route-perm (lookup i embeds) i sides fresh))
          (perm_middle is (both sides)) in
      Perm.trans
        (split_embeds-perm embeds is sides'
          (Distinct-perm _ (is ++ both sides') (Perm.symm step) d))
        step

  -- The groups of clusterIDs hold each id of a bucket once, with or without an embedding.
  pub cluster_ids-perm :
      (ids : List ℕ) (embeds : Embeds fl) (threshold : fl.Float64)
      → Distinct ids
      → Perm (concat (cluster_ids fl range ids embeds threshold)) ids
  unfolding cluster_ids
  cluster_ids-perm [] embeds threshold d = Perm.rfl
  cluster_ids-perm (i ∷ is) embeds threshold d =
      let sides = split_embeds fl range embeds (i ∷ is) ([], []) in
      Perm.trans (with_fallback-perm fl range (cluster fl range (sides.0) threshold) (sides.1)) (
        Perm.trans
          (Perm.append_right (sides.1) (cluster-perm fl range range_perm (sides.0) threshold))
          (subst (Perm (both sides)) (append-nil (i ∷ is)) (
            split_embeds-perm embeds (i ∷ is) ([], [])
              (subst Distinct (sym (append-nil (i ∷ is))) d))))
