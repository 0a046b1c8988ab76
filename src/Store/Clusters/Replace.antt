-- ===== src/Store/Clusters/Replace.antt =====
-- WriteClusters and WriteBucket: what is read back is what was written.
use mathlib.Core.List.{append_assoc, append-nil}
use choix.Base.{
  ℕ, suc, ◌<◌, Option, some, none, List, [], ◌∷◌, ◌++◌, map, Bool, true, false, ◌≡◌, refl, sym, ap,
  ◌∙◌, arith, All-append_right, All-imp, Bool-cases, Option-cases, inl, inr, subst,
}
use choix.Base.Sort.{sort_by, sort_by-All, sort_by-append}
use choix.Store.Clusters.{
  id_less, list_all, ClusterDef, Tables, next_cluster_id, insert_members, insert_defs, new_cluster,
  commit, after_delete, replace, write_clusters, member_rows, read_cluster, read_back,
}
use choix.Store.Clusters.Write.{
  once, add_once, Below, member_rows-Below, Filled, insert_members-Filled, next_cluster_id-above,
  next_cluster_id-append, read_same,
}

map-append_one :
    {A B : Type 0} (f : A → B) (xs : List A) (x : A) → map f (xs ++ x ∷ []) ≡ map f xs ++ f x ∷ []
map-append_one f [] x = refl
map-append_one f (y ∷ xs) x = rw (map-append_one f xs x)

module _ (fault : ℕ → Bool) where
  -- Members refer to ids that are in use.
  abbrev pub IsFresh : Tables → Type 0
  IsFresh t = Below (next_cluster_id t.clusters) t.members

  -- The tables after one round of the outer loop.
  abbrev extended : ClusterDef → Tables → List (ℕ × ℕ) → Tables
  extended d t ms = record { clusters = t.clusters ++ new_cluster fault d t ∷ []; members = ms }

  extended-IsFresh :
      (d : ClusterDef) (t : Tables) (ms : List (ℕ × ℕ))
      → Filled fault (next_cluster_id t.clusters) d.members t.members ms
      → IsFresh t
      → IsFresh (extended d t ms)
  extended-IsFresh d t ms h b =
      let c = new_cluster fault d t in
      let up = next_cluster_id-append t.clusters c in
      let above =
        All-append_right (λ e. e.id < next_cluster_id (t.clusters ++ c ∷ [])) t.clusters (c ∷ [])
          (next_cluster_id-above (t.clusters ++ c ∷ [])) in
      h.below (next_cluster_id (t.clusters ++ c ∷ [])) above.0
        (All-imp t.members (λ m q. omega (arith, q, up)) b)

  read_back-extended :
      (d : ClusterDef) (t : Tables) (ms : List (ℕ × ℕ))
      → Filled fault (next_cluster_id t.clusters) d.members t.members ms
      → IsFresh t
      → read_back (extended d t ms) ≡ read_back t ++ once d ∷ []
  read_back-extended d t ms h b =
      let cid = next_cluster_id t.clusters in
      let above =
        sort_by-All id_less (λ c. c.id < cid) t.clusters (next_cluster_id-above t.clusters) in
      let old = read_same (list_all t.clusters) cid t.members ms above h.others in
      let sorted : list_all (t.clusters ++ new_cluster fault d t ∷ [])
          ≡ list_all t.clusters ++ new_cluster fault d t ∷ [] =
        sort_by-append id_less (new_cluster fault d t) t.clusters
          (All-imp t.clusters (λ c q. ground (arith, q)) (next_cluster_id-above t.clusters)) in
      let new : member_rows cid ms ≡ add_once [] d.members =
        h.listed ∙ ap (λ l. add_once l d.members) (member_rows-Below cid t.members b) in
      ap (map (read_cluster ms)) sorted
      ∙ map-append_one (read_cluster ms) (list_all t.clusters) (new_cluster fault d t)
      ∙ rw (old, new)

  insert_defs-reads :
      (n : ℕ) (ds : List ClusterDef) (t : Tables) (m : ℕ) (u : Tables)
      → IsFresh t
      → insert_defs fault n ds t ≡ some (m, u)
      → read_back u ≡ read_back t ++ map once ds
  unfolding insert_defs
  insert_defs-reads n [] t m u b e =
      let q : t ≡ u = cc in
      subst (λ u. read_back u ≡ read_back t ++ []) q (sym (append-nil (read_back t)))
  insert_defs-reads n (d ∷ ds) t m u b e =
      elim (Option-cases
        (insert_members fault (suc n) (next_cluster_id t.clusters) d.members t.members)) [
          | inl q ↦ absurd (let r = rw (q, insert_defs) at e in cc)
          | inr ((k, ms), q) ↦ elim (Bool-cases (fault n)) [
            | inl v ↦ absurd (let r = rw (q, v, insert_defs) at e in cc)
            | inr v ↦
                let filled =
                  insert_members-Filled fault (suc n) (next_cluster_id t.clusters) d.members
                    t.members k ms q in
                insert_defs-reads k ds (extended d t ms) m u (extended-IsFresh d t ms filled b)
                  (rw (q, v, insert_defs) at e)
                ∙ ap (λ l. l ++ map once ds) (read_back-extended d t ms filled b)
                ∙ append_assoc (read_back t) (once d ∷ []) (map once ds)
          ]
        ]

  after_delete-reads :
      (ds : List ClusterDef) (t : Tables) (m : ℕ) (u : Tables)
      → IsFresh t
      → after_delete fault ds t ≡ some (m, u)
      → read_back u ≡ read_back t ++ map once ds
  after_delete-reads [] t m u b e =
      let q : t ≡ u = cc in
      subst (λ u. read_back u ≡ read_back t ++ []) q (sym (append-nil (read_back t)))
  after_delete-reads (d ∷ ds) t m u b e = elim (Bool-cases (fault 2)) [
    | inl v ↦ absurd (let r = rw v at e in cc)
    | inr v ↦ elim (Bool-cases (fault 3)) [
      | inl w ↦ absurd (let r = rw (v, w) at e in cc)
      | inr w ↦ insert_defs-reads 4 (d ∷ ds) t m u b (rw (v, w) at e)
    ]
  ]

  -- Either nothing has changed, or everything was written.
  abbrev pub Replaced : List ClusterDef → Tables → Tables → Bool × Tables → Type 0
  Replaced ds emptied old (false, u) = u ≡ old
  Replaced ds emptied old (true, u) = read_back u ≡ read_back emptied ++ map once ds

  committed :
      (ds : List ClusterDef) (emptied old : Tables) (o : Option (ℕ × Tables))
      → after_delete fault ds emptied ≡ o
      → IsFresh emptied
      → Replaced ds emptied old (commit fault old o)
  committed ds emptied old none e b = refl
  committed ds emptied old (some (n, u)) e b = elim (Bool-cases (fault n)) [
    | inl v ↦ rw v refl
    | inr v ↦ rw v (after_delete-reads ds emptied n u b e)
  ]

  pub replace-Replaced :
      (ds : List ClusterDef) (emptied old : Tables)
      → IsFresh emptied
      → Replaced ds emptied old (replace fault old emptied ds)
  replace-Replaced ds emptied old b = elim (Bool-cases (fault 0)) [
    | inl v ↦ rw v refl
    | inr v ↦ elim (Bool-cases (fault 1)) [
      | inl w ↦ rw (v, w) refl
      | inr w ↦ rw (v, w) (committed ds emptied old (after_delete fault ds emptied) refl b)
    ]
  ]

  -- WriteClusters is all or nothing: if it fails, at whichever statement, the tables are as they
  -- were; if it succeeds, ListAll finds one cluster for each definition that was written, in their
  -- order, and MembersOf its members in ascending order, each once.
  pub write_clusters-Replaced :
      (ds : List ClusterDef) (old : Tables)
      → ((u : Tables) → write_clusters fault ds old ≡ (false, u) → u ≡ old)
        × ((u : Tables) → write_clusters fault ds old ≡ (true, u) → read_back u ≡ map once ds)
  unfolding write_clusters sort_by
  write_clusters-Replaced ds old =
      let empty : Tables = record { clusters = []; members = [] } in
      let h = replace-Replaced ds empty old tt in
      (λ u e. subst (Replaced ds empty old) e h, λ u e. subst (Replaced ds empty old) e h)
