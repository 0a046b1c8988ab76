-- ===== src/Picks/Service/Laws.antt =====
-- The pick state machine: what each operation ensures, on success and on failure.
use Prim.Native.String.{String}
use text.Mathlib.Text.{◌==◌ as str_eq}
use choix.Base.{
  ℕ, Option, some, none, List, Bool, true, false, ◌⊎◌, inl, inr, ◌≡◌, refl, ap, ◌∙◌, Bool-cases,
  subst,
}
use choix.Base.Int.{ℤ}
use choix.Store.Files.{File}
use choix.Store.Picks.{Pick, get, set_state, set_exported_path, clear_exported_path, delete}
use choix.Store.Picks.Table.{get-change_row, get-delete, on_some}
use choix.Picks.Service.Rows.{
  is_state-set_state, is_state-change_row, SameOthers, set_state-SameOthers, path-SameOthers,
  delete-SameOthers, SameOthers-trans,
}
use choix.Picks.Service.{
  Failure, Exporter, World, file_by_id, is_state, get_row, exec, done, exported, pick, removed,
  unexport_row, unexport, unpick, reject, unreject,
}
use choix.Picks.Service.Ends.{Ends, exec-Ends, file_for-Ends, if-Ends, get_row-state}

-- The file is in the table of files.
abbrev pub IsKnown : {D : Type 0} → ℕ → World D → Type 0
IsKnown id w = (f : File) × (file_by_id id w.files ≡ some f)

module _ {D E : Type 0} (exporter : Exporter D E) (now : ℤ) (fault : ℕ → Bool) where
  abbrev pub IsPicked : ℕ → World D → Type 0
  IsPicked id u = (is_state "picked" (get id u.rows) ≡ true) × IsKnown id u

  abbrev pub Untouched : ℕ → World D → World D → Type 0
  Untouched id w u = SameOthers id w.rows u.rows

  exported-Ends :
      (id : ℕ) (w u : World D) (r : (E ⊎ String) × D)
      → IsPicked id u
      → Untouched id w u
      → Ends exporter now fault (IsPicked id) (Untouched id w) (exported exporter now fault id u r)
  exported-Ends id w u (inl e, d) p h = elim (Bool-cases (fault 3)) [
    | inl t ↦ rw t h
    | inr t ↦
        rw t (SameOthers-trans id w.rows u.rows (delete id u.rows) h (delete-SameOthers id u.rows))
  ]
  exported-Ends id w u (inr rel, d) p h =
      exec-Ends exporter now fault (IsPicked id) (Untouched id w) 4 (set_exported_path id rel)
        (record u { disk = d }) (done exporter now fault) h
        (λ t. (
          (is_state-change_row id (some rel) "picked" u.rows ∙ p.0, p.1),
          SameOthers-trans id w.rows u.rows (set_exported_path id rel u.rows) h
              (path-SameOthers id (some rel) u.rows),
        ))

  pub pick-Ends :
      (id : ℕ) (w : World D)
      → Ends exporter now fault (IsPicked id) (Untouched id w) (pick exporter now fault id w)
  unfolding pick
  pick-Ends id w =
      file_for-Ends exporter now fault (IsPicked id) (Untouched id w) id w _ (λ j n. refl)
        (λ f k.
          if-Ends exporter now fault (IsPicked id) (Untouched id w)
            (is_state "picked" (get_row exporter now fault 1 id w)) (none, w) _
            (λ t. ((get_row-state exporter now fault 1 id "picked" w t, (f, k)), λ j n. refl))
            (λ t.
              exec-Ends exporter now fault (IsPicked id) (Untouched id w) 2
                (set_state now id "picked") w
                (λ u. exported exporter now fault id u (exporter.export_file f u.disk))
                (λ j n. refl)
                (λ q.
                  exported-Ends id w (record w { rows = set_state now id "picked" w.rows })
                    (exporter.export_file f w.disk)
                    (is_state-set_state now id "picked" w.rows, (f, k))
                    (set_state-SameOthers now id "picked" w.rows))))

  -- What ends an operation with no error has cleared the mark.
  abbrev pub IsNot : String → ℕ → World D → Type 0
  IsNot state id u = is_state state (get id u.rows) ≡ false

  abbrev pub Clears : (D → D → Type 0) → Type 0
  Clears R = (path : String) (d : D) → R d ((exporter.remove_copy path d).1)

  deleted-IsNot :
      (state : String) (id : ℕ) (rows : List Pick)
      → is_state state (get id (delete id rows)) ≡ false
  deleted-IsNot state id rows = ap (is_state state) (get-delete id rows)

  -- Unexport leaves the other rows alone, and hands on a world with the same files.
  unexport_row-Ends :
      (P : World D → Type 0) (id m : ℕ) (w : World D) (o : Option Pick)
      (rest : World D → Option (Failure E) × World D)
      → ((u : World D) → Untouched id w u → Ends exporter now fault P (Untouched id w) (rest u))
      → Ends exporter now fault P (Untouched id w) (unexport_row exporter now fault m id w o rest)
  unexport_row-Ends P id m w none rest h = h w (λ j n. refl)
  unexport_row-Ends P id m w (some p) rest h = go p.exported_path
    where
      cleared :
          (d : D)
          → Ends exporter now fault P
              (Untouched id w)
              (exec exporter now fault m (clear_exported_path id) (record w { disk = d }) rest)
      cleared d =
          exec-Ends exporter now fault P (Untouched id w) m (clear_exported_path id)
            (record w { disk = d }) rest (λ j n. refl) (λ t. h _ (path-SameOthers id none w.rows))

      gone :
          (r : Option E × D)
          → Ends exporter now fault P (Untouched id w) (removed exporter now fault m id w r rest)
      gone (some e, d) = λ j n. refl
      gone (none, d) = cleared d

      go :
          (path : Option String)
          → Ends exporter now fault P (Untouched id w) (
              unexport_row exporter now fault m id w
                (some (record p { exported_path = path }))
                rest)
      go none = cleared w.disk
      go (some path) =
          if-Ends exporter now fault P (Untouched id w) (str_eq path "")
            (exec exporter now fault m (clear_exported_path id) w rest)
            (removed exporter now fault m id w (exporter.remove_copy path w.disk) rest)
            (λ t. cleared w.disk) (λ t. gone (exporter.remove_copy path w.disk))

  unexport-Ends :
      (P : World D → Type 0) (n m id : ℕ) (w : World D)
      (rest : World D → Option (Failure E) × World D)
      → ((u : World D) → Untouched id w u → Ends exporter now fault P (Untouched id w) (rest u))
      → Ends exporter now fault P (Untouched id w) (unexport exporter now fault n m id w rest)
  unfolding unexport
  unexport-Ends P n m id w rest h =
      if-Ends exporter now fault P (Untouched id w) exporter.root_inside
        (unexport_row exporter now fault m id w (get_row exporter now fault n id w) rest) _
        (λ t. unexport_row-Ends P id m w (get_row exporter now fault n id w) rest h)
        (λ t. λ j n. refl)

  pub unpick-Ends :
      (id : ℕ) (w : World D)
      → fault 1 ≡ false
      → Ends exporter now fault
          (IsNot "picked" id)
          (Untouched id w)
          (unpick exporter now fault id w)
  unfolding unpick
  unpick-Ends id w q =
      file_for-Ends exporter now fault (IsNot "picked" id) (Untouched id w) id w _ (λ j n. refl)
        (λ f k.
          if-Ends exporter now fault (IsNot "picked" id) (Untouched id w)
            (is_state "picked" (get_row exporter now fault 1 id w)) _ (none, w)
            (λ t. unexport-Ends (IsNot "picked" id) 2 3 id w _ (λ u h.
              exec-Ends exporter now fault (IsNot "picked" id) (Untouched id w) 4 (delete id) u
                (done exporter now fault) h
                (λ b. (
                  deleted-IsNot "picked" id u.rows,
                  SameOthers-trans id w.rows u.rows (delete id u.rows) h
                      (delete-SameOthers id u.rows),
                ))))
            (λ t. (rw q at t, λ j n. refl)))

  pub unreject-Ends :
      (id : ℕ) (w : World D)
      → fault 1 ≡ false
      → Ends exporter now fault
          (IsNot "rejected" id)
          (Untouched id w)
          (unreject exporter now fault id w)
  unfolding unreject
  unreject-Ends id w q =
      file_for-Ends exporter now fault (IsNot "rejected" id) (Untouched id w) id w _ (λ j n. refl)
        (λ f k.
          if-Ends exporter now fault (IsNot "rejected" id) (Untouched id w)
            (is_state "rejected" (get_row exporter now fault 1 id w)) _ (none, w)
            (λ t.
              exec-Ends exporter now fault (IsNot "rejected" id) (Untouched id w) 2 (delete id) w
                (done exporter now fault) (λ j n. refl)
                (λ b. (deleted-IsNot "rejected" id w.rows, delete-SameOthers id w.rows)))
            (λ t. (rw q at t, λ j n. refl)))

  abbrev pub IsRejected : ℕ → World D → Type 0
  IsRejected id u =
      (p : Pick) × (get id u.rows ≡ some p)
      × (str_eq p.state "rejected" ≡ true)
      × (p.exported_path ≡ none)

  marked :
      (id : ℕ) (rows : List Pick)
      → (p : Pick) × (get id (clear_exported_path id (set_state now id "rejected" rows)) ≡ some p)
        × (str_eq p.state "rejected" ≡ true)
        × (p.exported_path ≡ none)
  marked id rows =
      let rows' = set_state now id "rejected" rows in
      let clear : Pick → Pick = λ r. record r { exported_path = none } in
      let (p, e) = there (get id rows') refl in
      (
        clear p,
        get-change_row id clear rows' (λ q. refl) ∙ ap (on_some clear) e,
        subst (λ o. is_state "rejected" o ≡ true) e (is_state-set_state now id "rejected" rows),
        refl,
      )
    where
      there :
          (o : Option Pick)
          → get id (set_state now id "rejected" rows) ≡ o
          → (p : Pick) × (get id (set_state now id "rejected" rows) ≡ some p)
      there (some p) e = (p, e)
      there none e =
          let q =
            subst (λ o. is_state "rejected" o ≡ true) e
              (is_state-set_state now id "rejected" rows) in
          absurd cc

  pub reject-Ends :
      (id : ℕ) (w : World D)
      → Ends exporter now fault (IsRejected id) (Untouched id w) (reject exporter now fault id w)
  unfolding reject
  reject-Ends id w =
      let mark : World D → Option (Failure E) × World D = λ u.
        exec exporter now fault 4 (set_state now id "rejected") u
          (λ v. exec exporter now fault 5 (clear_exported_path id) v (done exporter now fault)) in
      let marks : (u : World D)
          → Untouched id w u
          → Ends exporter now fault (IsRejected id) (Untouched id w) (mark u) =
        λ u h.
          let set =
            SameOthers-trans id w.rows u.rows (set_state now id "rejected" u.rows) h
              (set_state-SameOthers now id "rejected" u.rows) in
          exec-Ends exporter now fault (IsRejected id) (Untouched id w) 4
            (set_state now id "rejected") u
            (λ v. exec exporter now fault 5 (clear_exported_path id) v (done exporter now fault)) h
            (λ t.
              exec-Ends exporter now fault (IsRejected id) (Untouched id w) 5
                (clear_exported_path id) (record u { rows = set_state now id "rejected" u.rows })
                (done exporter now fault) set
                (λ t'. (
                  marked id u.rows,
                  SameOthers-trans id w.rows (set_state now id "rejected" u.rows)
                      (clear_exported_path id (set_state now id "rejected" u.rows)) set
                      (path-SameOthers id none (set_state now id "rejected" u.rows)),
                ))) in
      file_for-Ends exporter now fault (IsRejected id) (Untouched id w) id w _ (λ j n. refl)
        (λ f k.
          if-Ends exporter now fault (IsRejected id) (Untouched id w)
            (is_state "picked" (get_row exporter now fault 1 id w)) _ (mark w)
            (λ t. unexport-Ends (IsRejected id) 2 3 id w mark marks) (λ t. marks w (λ j n. refl)))
