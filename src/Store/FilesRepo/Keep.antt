-- ===== src/Store/FilesRepo/Keep.antt =====
-- A rescan of one file leaves the rows of the other files alone.
use Prim.Native.String.{String}
use text.Mathlib.Text.{◌==◌ as str_eq}
use text.Mathlib.TextEquality.{eq_iff}
use choix.Base.{
  ℕ, ◌<◌, Option, some, none, List, [], ◌∷◌, ◌++◌, map, ◌≡◌, ◌≢◌, refl, sym, ap, ◌∙◌, arith,
  if◌then◌else◌, Bool, true, false, Bool-cases, subst, inl, inr, ==_iff, In, ◌==◌,
}
use choix.Base.Distinct.{Distinct, Distinct-snoc}
use choix.Store.Files.{File}
use choix.Store.FilesRepo.{
  find_file, same_path, get_by_path, insert, insert_unless, new_row, next_id, unchanged, refreshed,
  rescan_existing, upsert_on_rescan, update_where, has_id,
}
use choix.Store.FilesRepo.Rescan.{find_file-update_where}

abbrev pub row_ids : List File → List ℕ
row_ids = map (λ f. f.id)

pub ids-update_where :
    (q : File → Bool) (change : File → File) (t : List File)
    → ((f : File) → (change f).id ≡ f.id)
    → row_ids (update_where q change t) ≡ row_ids t
unfolding update_where
ids-update_where q change [] k = refl
ids-update_where q change (f ∷ fs) k = elim (Bool-cases (q f)) [
  | inl t ↦ rw (t, k f, ids-update_where q change fs k) refl
  | inr t ↦ rw (t, ids-update_where q change fs k) refl
]

id-lt-next_id : (id : ℕ) (t : List File) → In id (row_ids t) → id < next_id t
id-lt-next_id id [] m = absurd m
id-lt-next_id id (f ∷ fs) (inl e) = ground (arith, e)
id-lt-next_id id (f ∷ fs) (inr m) = ground (arith, id-lt-next_id id fs m)

ids-snoc : (t : List File) (f : File) → row_ids (t ++ f ∷ []) ≡ row_ids t ++ f.id ∷ []
ids-snoc [] f = refl
ids-snoc (g ∷ t) f = ap (λ z. g.id ∷ z) (ids-snoc t f)

pub find_file-holds :
    (p : File → Bool) (t : List File) (e : File) → find_file p t ≡ some e → p e ≡ true
unfolding find_file
find_file-holds p [] e h = absurd cc
find_file-holds p (f ∷ fs) e h = elim (Bool-cases (p f)) [
  | inl t ↦ let q : f ≡ e = let r = rw t at h in cc in subst (λ z. p z ≡ true) q t
  | inr t ↦ find_file-holds p fs e (rw t at h)
]

find_file-In : (p : File → Bool) (t : List File) (e : File) → find_file p t ≡ some e → In e t
unfolding find_file
find_file-In p [] e h = absurd cc
find_file-In p (f ∷ fs) e h = elim (Bool-cases (p f)) [
  | inl t ↦ inl (let r = rw t at h in cc)
  | inr t ↦ inr (find_file-In p fs e (rw t at h))
]

find_file-append_old :
    (p : File → Bool) (t : List File) (f e : File)
    → find_file p t ≡ some e
    → find_file p (t ++ f ∷ []) ≡ some e
unfolding find_file
find_file-append_old p [] f e h = absurd cc
find_file-append_old p (g ∷ t) f e h = elim (Bool-cases (p g)) [
  | inl u ↦ rw u (rw u at h)
  | inr u ↦ rw u (find_file-append_old p t f e (rw u at h))
]

In-row_ids : (f : File) (t : List File) → In f t → In f.id (row_ids t)
In-row_ids f [] m = absurd m
In-row_ids f (g ∷ t) (inl e) = inl (ap (λ z. z.id) e)
In-row_ids f (g ∷ t) (inr m) = inr (In-row_ids f t m)

-- Where ids differ, rows with one id are one row.
same_row :
    (t : List File) (e f : File) → Distinct (row_ids t) → In e t → In f t → e.id ≡ f.id → e ≡ f
same_row [] e f d m k q = absurd m
same_row (g ∷ t) e f d (inl a) (inl b) q = a ∙ sym b
same_row (g ∷ t) e f d (inl a) (inr m) q =
    absurd (d.0 (subst (λ z. In z (row_ids t)) (sym q ∙ ap (λ z. z.id) a) (In-row_ids f t m)))
same_row (g ∷ t) e f d (inr m) (inl b) q =
    absurd (d.0 (subst (λ z. In z (row_ids t)) (q ∙ ap (λ z. z.id) b) (In-row_ids e t m)))
same_row (g ∷ t) e f d (inr m) (inr k) q = same_row t e f d.1 m k q

module _ (lower : String → String) where
  insert-Distinct :
      (f : File) (t : List File) (o q : Option File)
      → Distinct (row_ids t)
      → Distinct (row_ids (insert_unless lower o q f t).1)
  insert-Distinct f t (some e) q d = d
  insert-Distinct f t none (some e) d = d
  insert-Distinct f t none none d = rw (ids-snoc t (new_row (next_id t) f)) (
      Distinct-snoc (next_id t) (row_ids t)
        (λ m. let l = id-lt-next_id (next_id t) t m in omega (arith, l)) d)

  existing-Distinct :
      (f : File) (t : List File) (o : Option File)
      → Distinct (row_ids t)
      → Distinct (row_ids (rescan_existing lower o f t).2)
  unfolding insert
  existing-Distinct f t none d =
      insert-Distinct f t (find_file (λ e. str_eq e.path f.path) t) (get_by_path lower f.path t) d
  existing-Distinct f t (some e) d = elim (Bool-cases (unchanged lower f e)) [
    | inl u ↦ rw u d
    | inr u ↦ rw (u, ids-update_where (has_id e.id) (refreshed lower f) t (λ g. refl)) d
  ]

  -- Ids stay distinct in a rescan.
  pub upsert-Distinct :
      (f : File) (t : List File)
      → Distinct (row_ids t)
      → Distinct (row_ids (upsert_on_rescan lower f t).2)
  unfolding upsert_on_rescan
  upsert-Distinct f t d = existing-Distinct f t (get_by_path lower f.path t) d

  insert-find :
      (f e : File) (path : String) (t : List File) (o q : Option File)
      → get_by_path lower path t ≡ some e
      → get_by_path lower path (insert_unless lower o q f t).1 ≡ some e
  insert-find f e path t (some x) q h = h
  insert-find f e path t none (some x) h = h
  insert-find f e path t none none h =
      find_file-append_old (same_path lower path) t (new_row (next_id t) f) e h

  -- A rescan of one file leaves the row of another file as it is.
  pub upsert-keep :
      (f e : File) (path : String) (t : List File)
      → Distinct (row_ids t)
      → lower f.path ≢ lower path
      → get_by_path lower path t ≡ some e
      → get_by_path lower path (upsert_on_rescan lower f t).2 ≡ some e
  unfolding upsert_on_rescan insert
  upsert-keep f e path t d n h = by_old (get_by_path lower f.path t) refl
    where
      by_old :
          (o : Option File)
          → get_by_path lower f.path t ≡ o
          → get_by_path lower path (rescan_existing lower o f t).2 ≡ some e
      by_old none k =
          insert-find f e path t (find_file (λ z. str_eq z.path f.path) t)
            (get_by_path lower f.path t) h
      by_old (some x) k = elim (Bool-cases (unchanged lower f x)) [
        | inl u ↦ rw u h
        | inr u ↦
            let other : (e.id == x.id) ≡ false = differs x k in
            let kept =
              find_file-update_where (same_path lower path) (has_id x.id) (refreshed lower f) t e
                (λ g. refl) h in
            rw u (kept ∙ ap (λ b. some (if b then refreshed lower f e else e)) other)
      ]
        where
          differs : (x : File) → get_by_path lower f.path t ≡ some x → (e.id == x.id) ≡ false
          differs x k = elim (Bool-cases (e.id == x.id)) [
            | inr u ↦ u
            | inl u ↦
                let one =
                  same_row t e x d (find_file-In (same_path lower path) t e h)
                    (find_file-In (same_path lower f.path) t x k) ((==_iff e.id x.id).0 u) in
                let a =
                  (eq_iff (lower e.path) (lower path)).0
                    (find_file-holds (same_path lower path) t e h) in
                let b =
                  (eq_iff (lower x.path) (lower f.path)).0
                    (find_file-holds (same_path lower f.path) t x k) in
                absurd (n (sym b ∙ ap (λ z. lower z.path) (sym one) ∙ a))
          ]
