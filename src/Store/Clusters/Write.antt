-- ===== src/Store/Clusters/Write.antt =====
-- The inner loop of WriteClusters and WriteBucket: the members of one cluster.
use choix.Base.{
  ℕ, suc, ◌≤◌, ◌<◌, some, List, [], ◌∷◌, ◌++◌, map, if◌then◌else◌, Bool, true, false, ◌==◌, ◌≡◌,
  ◌≢◌, refl, ap, ◌∙◌, arith, All, All-append, All-imp, Bool-cases, inl, inr, subst, ltb,
}
use choix.Base.Sort.{sort_by}
use choix.Store.Clusters.{
  ClusterDef, ClusterRow, next_cluster_id, member_of, add_member, insert_members, member_rows,
  read_cluster,
}

-- Each file once, where it came first.
abbrev pub is_listed : ℕ → List ℕ → Bool
is_listed x [] = false
is_listed x (y ∷ ys) = if y == x then true else is_listed x ys

abbrev pub add_once : List ℕ → List ℕ → List ℕ
add_once seen [] = seen
add_once seen (x ∷ xs) = add_once (if is_listed x seen then seen else seen ++ x ∷ []) xs

-- The definition with its members in ascending order, each once.
abbrev pub once : ClusterDef → ClusterDef
once d = record d { members = sort_by ltb (add_once [] d.members) }

member_of_lem :
    (cid fid : ℕ) (ms : List (ℕ × ℕ)) → member_of cid fid ms ≡ is_listed fid (member_rows cid ms)
member_of_lem cid fid [] = refl
member_of_lem cid fid (m ∷ ms) = ground (arith, member_of_lem cid fid ms)

member_rows-append :
    (cid : ℕ) (ms : List (ℕ × ℕ)) (fid : ℕ)
    → member_rows cid (ms ++ (cid, fid) ∷ []) ≡ member_rows cid ms ++ fid ∷ []
member_rows-append cid [] fid = ground arith
member_rows-append cid (m ∷ ms) fid = ground (arith, member_rows-append cid ms fid)

member_rows-append_other :
    (cid other : ℕ) (ms : List (ℕ × ℕ)) (fid : ℕ)
    → other ≢ cid
    → member_rows other (ms ++ (cid, fid) ∷ []) ≡ member_rows other ms
member_rows-append_other cid other [] fid n = ground arith
member_rows-append_other cid other (m ∷ ms) fid n =
    ground (arith, member_rows-append_other cid other ms fid n)

member_rows-add_member :
    (cid fid : ℕ) (ms : List (ℕ × ℕ))
    → member_rows cid (add_member cid fid ms) ≡ (
        if is_listed fid (member_rows cid ms)
        then member_rows cid ms
        else member_rows cid ms ++ fid ∷ [])
member_rows-add_member cid fid ms =
    rw (← member_of_lem cid fid ms) (elim (Bool-cases (member_of cid fid ms)) [
      | inl t ↦ rw t
      | inr t ↦ rw t (member_rows-append cid ms fid)
    ])

member_rows-add_member_other :
    (cid other fid : ℕ) (ms : List (ℕ × ℕ))
    → other ≢ cid
    → member_rows other (add_member cid fid ms) ≡ member_rows other ms
member_rows-add_member_other cid other fid ms n = elim (Bool-cases (member_of cid fid ms)) [
  | inl t ↦ rw t
  | inr t ↦ rw t (member_rows-append_other cid other ms fid n)
]

-- Every member belongs to a cluster with an id below k.
abbrev pub Below : ℕ → List (ℕ × ℕ) → Type 0
Below k ms = All (λ m. m.0 < k) ms

add_member-Below :
    (k cid fid : ℕ) (ms : List (ℕ × ℕ)) → cid < k → Below k ms → Below k (add_member cid fid ms)
add_member-Below k cid fid ms h b = elim (Bool-cases (member_of cid fid ms)) [
  | inl t ↦ rw t b
  | inr t ↦ rw t (All-append (λ m. m.0 < k) ms ((cid, fid) ∷ []) b (h, tt))
]

pub member_rows-Below : (k : ℕ) (ms : List (ℕ × ℕ)) → Below k ms → member_rows k ms ≡ []
member_rows-Below k [] b = refl
member_rows-Below k (m ∷ ms) b = ground (arith, b.0, member_rows-Below k ms b.1)

module _ (fault : ℕ → Bool) where
  -- What the inner loop leaves behind.
  pub record Filled (cid : ℕ) (fids : List ℕ) (ms ms' : List (ℕ × ℕ)) : Type 0 where
    pub listed : member_rows cid ms' ≡ add_once (member_rows cid ms) fids
    pub others : (other : ℕ) → other ≢ cid → member_rows other ms' ≡ member_rows other ms
    pub below : (k : ℕ) → cid < k → Below k ms → Below k ms'

  pub insert_members-Filled :
      (n cid : ℕ) (fids : List ℕ) (ms : List (ℕ × ℕ)) (m : ℕ) (ms' : List (ℕ × ℕ))
      → insert_members fault n cid fids ms ≡ some (m, ms')
      → Filled cid fids ms ms'
  unfolding insert_members
  insert_members-Filled n cid [] ms m ms' e =
      let q : ms ≡ ms' = cc in
      subst (Filled cid [] ms) q
        (record { listed = refl; others = λ o h. refl; below = λ k h b. b })
  insert_members-Filled n cid (fid ∷ fids) ms m ms' e = elim (Bool-cases (fault n)) [
    | inl t ↦ absurd (let r = rw t at e in cc)
    | inr t ↦
        let h = insert_members-Filled (suc n) cid fids (add_member cid fid ms) m ms' (rw t at e) in
        record {
          listed = h.listed ∙ ap (λ l. add_once l fids) (member_rows-add_member cid fid ms);
          others = λ o q. h.others o q ∙ member_rows-add_member_other cid o fid ms q;
          below = λ k q b. h.below k q (add_member-Below k cid fid ms q b);
        }
  ]

-- New ids are above all that are in use.
pub next_cluster_id-above : (cs : List ClusterRow) → All (λ c. c.id < next_cluster_id cs) cs
next_cluster_id-above [] = tt
next_cluster_id-above (c ∷ cs) =
    (ground arith, All-imp cs (λ d h. ground (arith, h)) (next_cluster_id-above cs))

pub next_cluster_id-append :
    (cs : List ClusterRow) (c : ClusterRow) → next_cluster_id cs ≤ next_cluster_id (cs ++ c ∷ [])
next_cluster_id-append [] c = ground arith
next_cluster_id-append (d ∷ cs) c = ground (arith, next_cluster_id-append cs c)

-- Clusters whose members did not change read as before.
pub read_same :
    (cs : List ClusterRow) (cid : ℕ) (ms ms' : List (ℕ × ℕ))
    → All (λ c. c.id < cid) cs
    → ((other : ℕ) → other ≢ cid → member_rows other ms' ≡ member_rows other ms)
    → map (read_cluster ms') cs ≡ map (read_cluster ms) cs
read_same [] cid ms ms' a h = refl
read_same (c ∷ cs) cid ms ms' a h =
    let e = h c.id (λ q. omega (arith, q, a.0)) in rw (e, read_same cs cid ms ms' a.1 h)
