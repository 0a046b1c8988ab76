-- ===== src/Store/FilesRepo/Rescan.antt =====
-- UpsertOnRescan and MarkMissingExcept.
use Prim.Native.String.{String}
use text.Mathlib.Text.{◌==◌ as str_eq}
use text.Mathlib.TextEquality.{eq_iff}
use text.Mathlib.TextPositions.{eq_refl}
use choix.Base.{
  ℕ, some, none, List, [], ◌∷◌, ◌++◌, map, ◌≡◌, refl, sym, ap, arith, if◌then◌else◌, Bool, true,
  false, Bool-cases, Option-cases, subst, inl, inr, ==_refl,
}
use choix.Base.Int.{ℤ, eqb_ℤ}
use choix.Store.Files.{File}
use choix.Store.FilesRepo.{
  find_file, same_path, get_by_path, insert, new_row, next_id, unchanged, refreshed,
  rescan_existing, upsert_on_rescan, update_where, has_id, is_in, mark_missing_except,
}

-- A change that the search does not see.
pub find_file-update_where :
    (p q : File → Bool) (change : File → File) (t : List File) (e : File)
    → ((f : File) → p (change f) ≡ p f)
    → find_file p t ≡ some e
    → find_file p (update_where q change t) ≡ some (if q e then change e else e)
unfolding find_file update_where
find_file-update_where p q change [] e s h = absurd cc
find_file-update_where p q change (f ∷ fs) e s h = elim (Bool-cases (p f)) [
  | inl t ↦
      let w : f ≡ e = let r = rw t at h in cc in
      subst (λ e. find_file p (update_where q change (f ∷ fs)) ≡ some (if q e then change e else e))
        w (elim (Bool-cases (q f)) [ inl u ↦ rw (u, s f, t) | inr u ↦ rw (u, t) ])
  | inr t ↦
      let rest = find_file-update_where p q change fs e s (rw t at h) in
      elim (Bool-cases (q f)) [ inl u ↦ rw (u, s f, t) rest | inr u ↦ rw (u, t) rest ]
]

pub find_file-append :
    (p : File → Bool) (t : List File) (f : File)
    → find_file p t ≡ none
    → p f ≡ true
    → find_file p (t ++ f ∷ []) ≡ some f
unfolding find_file
find_file-append p [] f h k = rw k
find_file-append p (g ∷ t) f h k = elim (Bool-cases (p g)) [
  | inl u ↦ absurd (let r = rw u at h in cc)
  | inr u ↦ rw u (find_file-append p t f (rw u at h) k)
]

-- Integers are equal to themselves.
eqb_ℤ_refl : (x : ℤ) → eqb_ℤ x x ≡ true
eqb_ℤ_refl x = ground arith

module _ (lower : String → String) where
  -- The table has a row for the path, with the id, that a scan of the same file finds unchanged.
  abbrev pub IsSettled : File → ℕ → List File → Type 0
  IsSettled f id t =
      (e : File) × (get_by_path lower f.path t ≡ some e)
      × (e.id ≡ id)
      × (unchanged lower f e ≡ true)

  unchanged_refl : (f e : File) → unchanged lower f (refreshed lower f e) ≡ true
  unchanged_refl f e = rw (==_refl f.size, eqb_ℤ_refl f.mtime, eq_refl f.content_hash)

  unchanged_new : (f : File) (id : ℕ) → unchanged lower f (new_row id f) ≡ true
  unchanged_new f id = rw (==_refl f.size, eqb_ℤ_refl f.mtime, eq_refl f.content_hash)

  pub exact_none :
      (path : String) (t : List File)
      → get_by_path lower path t ≡ none
      → find_file (λ e. str_eq e.path path) t ≡ none
  unfolding find_file
  exact_none path [] h = refl
  exact_none path (f ∷ fs) h = elim (Bool-cases (same_path lower path f)) [
    | inl u ↦ absurd (let r = rw u at h in cc)
    | inr u ↦ elim (Bool-cases (str_eq f.path path)) [
      | inl v ↦
          let same : f.path ≡ path = (eq_iff f.path path).0 v in
          let r : str_eq (lower f.path) (lower path) ≡ true = rw same (eq_refl (lower path)) in
          absurd cc
      | inr v ↦ rw v (exact_none path fs (rw u at h))
    ]
  ]

  insert-IsSettled :
      (f : File) (t : List File)
      → get_by_path lower f.path t ≡ none
      → IsSettled f (insert lower f t).0 (insert lower f t).1
  unfolding insert
  insert-IsSettled f t h =
      let row = new_row (next_id t) f in
      let ans : IsSettled f (next_id t) (t ++ row ∷ []) = (
        row,
        find_file-append (same_path lower f.path) t row h (eq_refl (lower f.path)),
        refl,
        unchanged_new f (next_id t),
      ) in
      let eq : insert lower f t ≡ (next_id t, t ++ row ∷ []) =
        rw (exact_none f.path t h, h, insert) in
      subst (λ r. IsSettled f r.0 r.1) (sym eq) ans

  -- After a rescan of a file, the table has a row for its path, with the id that the rescan
  -- returned, and with the size, time and hash that were seen.
  pub upsert_on_rescan-IsSettled :
      (f : File) (t : List File)
      → IsSettled f (upsert_on_rescan lower f t).0 (upsert_on_rescan lower f t).2
  unfolding upsert_on_rescan
  upsert_on_rescan-IsSettled f t = elim (Option-cases (get_by_path lower f.path t)) [
    | inl h ↦
        let eq : upsert_on_rescan lower f t ≡ ((insert lower f t).0, true, (insert lower f t).1) =
          ap (λ o. rescan_existing lower o f t) h in
        subst (λ r. IsSettled f r.0 r.2) (sym eq) (insert-IsSettled f t h)
    | inr (e, h) ↦ elim (Bool-cases (unchanged lower f e)) [
      | inl u ↦
          let eq : upsert_on_rescan lower f t ≡ (e.id, false, t) = rw (h, u, upsert_on_rescan) in
          subst (λ r. IsSettled f r.0 r.2) (sym eq) (e, h, refl, u)
      | inr u ↦
          let eq : upsert_on_rescan lower f t
              ≡ (e.id, false, update_where (has_id e.id) (refreshed lower f) t) =
            rw (h, u, upsert_on_rescan) in
          let found =
            find_file-update_where (same_path lower f.path) (has_id e.id) (refreshed lower f) t e
              (λ g. refl) h in
          subst (λ r. IsSettled f r.0 r.2) (sym eq)
            (refreshed lower f e, rw (==_refl e.id) at found, refl, unchanged_refl f e)
    ]
  ]

  -- Scanning the same file again returns the same id, adds no row and changes nothing.
  pub upsert_on_rescan_idem :
      (f : File) (t : List File)
      → upsert_on_rescan lower f (upsert_on_rescan lower f t).2
        ≡ ((upsert_on_rescan lower f t).0, false, (upsert_on_rescan lower f t).2)
  unfolding upsert_on_rescan
  upsert_on_rescan_idem f t =
      let (e, h, i, u) = upsert_on_rescan-IsSettled f t in
      again (upsert_on_rescan lower f t).2 (upsert_on_rescan lower f t).0 e h i u
    where
      again :
          (s : List File) (id : ℕ) (e : File)
          → get_by_path lower f.path s ≡ some e
          → e.id ≡ id
          → unchanged lower f e ≡ true
          → upsert_on_rescan lower f s ≡ (id, false, s)
      again s id e h i u = rw (h, u, i, upsert_on_rescan)

  abbrev pub after_scan : (String → String) → List String → File → File
  after_scan go_lower seen f = record f {
    scan_status =
        if is_in lower (lower f.path) (map go_lower seen) then f.scan_status else "missing";
  }

  -- Every row that was not seen is missing after MarkMissingExcept, and every other keeps its
  -- status; nothing else of a row changes, and no row is added or dropped. A row counts as seen if
  -- LOWER of its path is strings.ToLower of a path that was walked.
  pub mark_missing_except-rows :
      (go_lower : String → String) (seen : List String) (t : List File)
      → mark_missing_except lower go_lower seen t ≡ map (after_scan go_lower seen) t
  unfolding mark_missing_except update_where
  mark_missing_except-rows go_lower seen [] = refl
  mark_missing_except-rows go_lower seen (f ∷ fs) =
      let rest = mark_missing_except-rows go_lower seen fs in
      ground (arith, rest, eq_iff f.scan_status "missing")
