-- ===== src/Picks/Service/Contract.antt =====
-- The pick state machine as its callers see it.
use choix.Base.{ℕ, Option, some, none, Bool, false, inl, ◌≡◌, ◌≢◌, refl, ap, subst}
use choix.Base.Int.{ℤ}
use choix.Store.Files.{File}
use choix.Store.Picks.{get, set_state}
use choix.Store.Picks.Table.{get-delete}
use choix.Picks.Service.{
  Failure, export_failed, Exporter, World, file_by_id, is_state, file_for, pick, unpick, reject,
  unreject,
}
use choix.Picks.Service.Ends.{Ends}
use choix.Picks.Service.Laws.{
  IsPicked, IsNot, IsRejected, Untouched, pick-Ends, unpick-Ends, unreject-Ends, reject-Ends,
}

module _ {D E : Type 0} (exporter : Exporter D E) (now : ℤ) (fault : ℕ → Bool) where
  success :
      (P Q : World D → Type 0) (a : Option (Failure E) × World D) (u : World D)
      → Ends exporter now fault P Q a
      → a ≡ (none, u)
      → P u
  success P Q (none, w) u h e = let q : w ≡ u = ap (λ a. a.1) e in subst P q h.0
  success P Q (some d, w) u h e = let q : some d ≡ none = ap (λ a. a.0) e in absurd cc

  always :
      (P Q : World D → Type 0) (a : Option (Failure E) × World D)
      → Ends exporter now fault P Q a
      → Q a.1
  always P Q (none, w) h = h.1
  always P Q (some d, w) h = h

  -- If Pick ends with no error, the file is in the table and marked as picked, whichever calls of
  -- the database fail.
  pub pick-IsPicked :
      (id : ℕ) (w u : World D)
      → pick exporter now fault id w ≡ (none, u)
      → IsPicked exporter now fault id u
  pick-IsPicked id w u =
      success (IsPicked exporter now fault id) (Untouched exporter now fault id w)
        (pick exporter now fault id w) u (pick-Ends exporter now fault id w)

  -- If Unpick ends with no error, the file is not picked, provided that the read of its row did not
  -- fail.
  pub unpick-IsNot :
      (id : ℕ) (w u : World D)
      → fault 1 ≡ false
      → unpick exporter now fault id w ≡ (none, u)
      → IsNot exporter now fault "picked" id u
  unpick-IsNot id w u q =
      success (IsNot exporter now fault "picked" id) (Untouched exporter now fault id w)
        (unpick exporter now fault id w) u (unpick-Ends exporter now fault id w q)

  -- If Reject ends with no error, the file is marked as rejected and no copy of it is recorded,
  -- whichever calls of the database fail.
  pub reject-IsRejected :
      (id : ℕ) (w u : World D)
      → reject exporter now fault id w ≡ (none, u)
      → IsRejected exporter now fault id u
  reject-IsRejected id w u =
      success (IsRejected exporter now fault id) (Untouched exporter now fault id w)
        (reject exporter now fault id w) u (reject-Ends exporter now fault id w)

  -- If Unreject ends with no error, the file is not marked as rejected, provided that the read of
  -- its row did not fail.
  pub unreject-IsNot :
      (id : ℕ) (w u : World D)
      → fault 1 ≡ false
      → unreject exporter now fault id w ≡ (none, u)
      → IsNot exporter now fault "rejected" id u
  unreject-IsNot id w u q =
      success (IsNot exporter now fault "rejected" id) (Untouched exporter now fault id w)
        (unreject exporter now fault id w) u (unreject-Ends exporter now fault id w q)

  -- On every branch, errors included, Pick and Reject leave the rows of all other files as they
  -- were, and so do Unpick and Unreject, if the read of the row did not fail.
  pub others_kept :
      (id j : ℕ) (w : World D)
      → j ≢ id
      → (get j (pick exporter now fault id w).1.rows ≡ get j w.rows)
        × (get j (reject exporter now fault id w).1.rows ≡ get j w.rows)
        × (fault 1 ≡ false
            → (get j (unpick exporter now fault id w).1.rows ≡ get j w.rows)
              × (get j (unreject exporter now fault id w).1.rows ≡ get j w.rows))
  others_kept id j w n =
      let same = Untouched exporter now fault id w in
      (
        always (IsPicked exporter now fault id) same _ (pick-Ends exporter now fault id w) j n,
        always (IsRejected exporter now fault id) same _ (reject-Ends exporter now fault id w) j n,
        λ q. (
          always (IsNot exporter now fault "picked" id) same _
              (unpick-Ends exporter now fault id w q) j n,
          always (IsNot exporter now fault "rejected" id) same _
              (unreject-Ends exporter now fault id w q) j n,
        ),
      )

  -- When the export of a known file that is not picked fails, and no call of the database does,
  -- Pick reports the error of the export and leaves the file with no row, also if it was marked as
  -- rejected before.
  pub pick-rollback :
      (id : ℕ) (w : World D) (f : File) (e : E) (d : D)
      → ((n : ℕ) → fault n ≡ false)
      → file_by_id id w.files ≡ some f
      → is_state "picked" (get id w.rows) ≡ false
      → exporter.export_file f w.disk ≡ (inl e, d)
      → ((pick exporter now fault id w).0 ≡ some (export_failed e))
        × (get id (pick exporter now fault id w).1.rows ≡ none)
  unfolding pick file_for
  pick-rollback id w f e d ok k p x =
      rw (ok 0, k, ok 1, p, ok 2, x, ok 3) (refl, get-delete id (set_state now id "picked" w.rows))
