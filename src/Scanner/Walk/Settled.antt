-- ===== src/Scanner/Walk/Settled.antt =====
-- After a Walk the table describes the media files of the tree.
use Prim.Native.String.{String}
use text.Mathlib.Text.{◌==◌ as str_eq}
use text.Mathlib.TextEquality.{eq_iff}
use text.Mathlib.TextPositions.{eq_refl}
use choix.Base.{
  ℕ, some, List, [], ◌∷◌, map, if◌then◌else◌, Bool, true, false, not, ◌≡◌, refl, sym, ap, subst,
  ◌∙◌, Bool-cases, inl, inr, In, All, arith, keep,
}
use choix.Base.Distinct.{Distinct}
use choix.Store.Files.{File}
use choix.Store.FilesRepo.{
  same_path, get_by_path, unchanged, upsert_on_rescan, is_in, unseen, mark_missing_except,
  delete_under_path, is_under_path,
}
use choix.Store.FilesRepo.Rescan.{find_file-update_where, upsert_on_rescan-IsSettled}
use choix.Store.FilesRepo.Keep.{row_ids, upsert-Distinct, upsert-keep, find_file-holds}
use choix.Scanner.Tree.{Entries}
use choix.Scanner.Walk.{Text, Faults, Scan, set_seen, walk}
use choix.Scanner.Walk.Reference.{found, absorb}
use choix.Scanner.Walk.Whole.{evicted, scanned_all, walk-scanned_all}

abbrev pub paths_of : List (String × ℕ) → List String
paths_of = map (λ e. e.0)

In-set_seen :
    (path : String) (id : ℕ) (m : List (String × ℕ)) → In path (paths_of (set_seen path id m))
unfolding set_seen
In-set_seen path id [] = inl refl
In-set_seen path id ((p, i) ∷ m) = elim (Bool-cases (str_eq p path)) [
  | inl t ↦ rw t (inl (sym ((eq_iff p path).0 t)))
  | inr t ↦ rw t (inr (In-set_seen path id m))
]

In-set_seen_old :
    (q path : String) (id : ℕ) (m : List (String × ℕ))
    → In q (paths_of m)
    → In q (paths_of (set_seen path id m))
unfolding set_seen
In-set_seen_old q path id [] h = absurd h
In-set_seen_old q path id ((p, i) ∷ m) h = elim (Bool-cases (str_eq p path)) [
  | inl t ↦ rw t h
  | inr t ↦ rw t (elim h [ inl e ↦ inl e | inr k ↦ inr (In-set_seen_old q path id m k) ])
]

row_ids-keep :
    (p : File → Bool) (t : List File) → Distinct (row_ids t) → Distinct (row_ids (keep p t))
row_ids-keep p [] d = tt
row_ids-keep p (f ∷ t) d = elim (Bool-cases (p f)) [
  | inl u ↦ rw u (λ i. d.0 (In-keep f.id p t i), row_ids-keep p t d.1)
  | inr u ↦ rw u (row_ids-keep p t d.1)
]
  where
    In-keep :
        (id : ℕ) (p : File → Bool) (t : List File) → In id (row_ids (keep p t)) → In id (row_ids t)
    In-keep id p [] i = i
    In-keep id p (f ∷ t) i = elim (Bool-cases (p f)) [
      | inl u ↦ elim (rw u at i) [ inl e ↦ inl e | inr k ↦ inr (In-keep id p t k) ]
      | inr u ↦ inr (In-keep id p t (rw u at i))
    ]

module _ (text : Text) (faults : Faults) (picks_dir : String) where
  -- The table has a row for the path, with the size, time and hash of the file.
  abbrev pub Described : File → List File → Type 0
  Described f t =
      (e : File) × (get_by_path text.lower f.path t ≡ some e) × (unchanged text.lower f e ≡ true)

  -- The same row describes the file in both tables.
  abbrev pub Standing : File → List File → List File → Type 0
  Standing f t t' =
      (e : File) × (get_by_path text.lower f.path t ≡ some e)
      × (get_by_path text.lower f.path t' ≡ some e)
      × (unchanged text.lower f e ≡ true)

  abbrev pub lower_paths : List File → List String
  lower_paths = map (λ f. text.lower f.path)

  abbrev absorbed : List File → List File × List (String × ℕ) → List File × List (String × ℕ)
  absorbed = absorb text faults picks_dir

  absorb-keep :
      (f : File) (fs : List File) (p : List File × List (String × ℕ))
      → Distinct (row_ids (p.0))
      → ¬ In (text.lower f.path) (lower_paths fs)
      → Described f (p.0)
      → Described f ((absorbed fs p).0)
  unfolding absorb
  absorb-keep f [] p d n h = h
  absorb-keep f (g ∷ fs) p d n (e, h, u) =
      absorb-keep f fs _ (upsert-Distinct text.lower g (p.0) d) (λ i. n (inr i))
        (e, upsert-keep text.lower g e f.path (p.0) d (λ q. n (inl (sym q))) h, u)

  absorb-Described :
      (fs : List File) (p : List File × List (String × ℕ))
      → Distinct (row_ids (p.0))
      → Distinct (lower_paths fs)
      → All (λ f. Described f ((absorbed fs p).0)) fs
  unfolding absorb
  absorb-Described [] p d n = tt
  absorb-Described (f ∷ fs) p d n =
      let (e, h, i, u) = upsert_on_rescan-IsSettled text.lower f (p.0) in
      let d' = upsert-Distinct text.lower f (p.0) d in
      (absorb-keep f fs _ d' n.0 (e, h, u), absorb-Described fs _ d' n.1)

  absorb-seen_old :
      (q : String) (fs : List File) (p : List File × List (String × ℕ))
      → In q (paths_of (p.1))
      → In q (paths_of ((absorbed fs p).1))
  unfolding absorb
  absorb-seen_old q [] p i = i
  absorb-seen_old q (f ∷ fs) p i =
      absorb-seen_old q fs _
        (In-set_seen_old q f.path (upsert_on_rescan text.lower f (p.0)).0 (p.1) i)

  absorb-seen :
      (fs : List File) (p : List File × List (String × ℕ))
      → All (λ (f : File). In f.path (paths_of ((absorbed fs p).1))) fs
  unfolding absorb
  absorb-seen [] p = tt
  absorb-seen (f ∷ fs) p = (
    absorb-seen_old f.path fs _ (In-set_seen f.path (upsert_on_rescan text.lower f (p.0)).0 (p.1)),
    absorb-seen fs _,
  )

  is_in-seen :
      (q : String) (seen : List String)
      → In q seen
      → is_in text.lower (text.go_lower q) (map text.go_lower seen) ≡ true
  is_in-seen q [] i = absurd i
  is_in-seen q (s ∷ seen) (inl e) = rw (e, eq_refl (text.go_lower s)) refl
  is_in-seen q (s ∷ seen) (inr i) = rw (is_in-seen q seen i) (ground arith)

  marked-Standing :
      (f : File) (seen : List String) (t : List File)
      → In f.path seen
      → text.go_lower f.path ≡ text.lower f.path
      → Described f t
      → Standing f t (mark_missing_except text.lower text.go_lower seen t)
  unfolding mark_missing_except
  marked-Standing f seen t i g (e, h, u) =
      let same =
        (eq_iff (text.lower e.path) (text.lower f.path)).0
          (find_file-holds (same_path text.lower f.path) t e h) in
      let there : is_in text.lower (text.lower e.path) (map text.go_lower seen) ≡ true =
        ap (λ z. is_in text.lower z (map text.go_lower seen)) (same ∙ sym g)
        ∙ is_in-seen f.path seen i in
      let stays : unseen text.lower text.go_lower seen e ≡ false = rw there (ground arith) in
      (
        e,
        h,
        find_file-update_where (same_path text.lower f.path) (unseen text.lower text.go_lower seen)
              (λ z. record z { scan_status = "missing" }) t e (λ z. refl) h
            ∙ ap (λ b. some (if b then record e { scan_status = "missing" } else e)) stays,
        u,
      )

  evicted-Distinct :
      (s : Scan) → Distinct (row_ids s.rows) → Distinct (row_ids (evicted text faults picks_dir s))
  unfolding delete_under_path
  evicted-Distinct s d = elim (Bool-cases (str_eq picks_dir "")) [
    | inl t ↦ rw t d
    | inr t ↦ rw t (row_ids-keep (λ f. not (is_under_path text.lower picks_dir f)) s.rows d)
  ]

  abbrev pub media_files : Entries → List File
  media_files es = found text faults picks_dir "." es

  marked-all :
      (fs : List File) (seen : List String) (t : List File)
      → All (λ (f : File). text.go_lower f.path ≡ text.lower f.path) fs
      → All (λ (f : File). In f.path seen) fs
      → All (λ f. Described f t) fs
      → All (λ f. Standing f t (mark_missing_except text.lower text.go_lower seen t)) fs
  marked-all [] seen t g i h = tt
  marked-all (f ∷ fs) seen t g i h =
      (marked-Standing f seen t i.0 g.0 h.0, marked-all fs seen t g.1 i.1 h.1)

  -- After a Walk that ends with no error, the table has for every media file of the tree without its
  -- skipped folders a row with its size, time and hash, and the marking of missing files has left
  -- that row as it was after the upserts. The ids of the table are distinct, no two of the paths
  -- differ only in case, and both ways to lower a letter agree on them.
  pub walk-Standing :
      (root : String) (es : Entries) (s u : Scan)
      → Distinct (row_ids s.rows)
      → Distinct (lower_paths (media_files es))
      → All (λ (f : File). text.go_lower f.path ≡ text.lower f.path) (media_files es)
      → walk text faults picks_dir root es s ≡ (true, u)
      → All (λ f. Standing f ((scanned_all text faults picks_dir es s).0) u.rows) (media_files es)
  walk-Standing root es s u d n g h =
      let start : List File × List (String × ℕ) = (evicted text faults picks_dir s, []) in
      let (rows, seen) = walk-scanned_all text faults picks_dir root es s u h in
      let after = scanned_all text faults picks_dir es s in
      subst (λ t. All (λ f. Standing f (after.0) t) (media_files es)) (sym rows)
        (marked-all (media_files es) (paths_of (after.1)) (after.0) g
          (absorb-seen (media_files es) start)
          (absorb-Described (media_files es) start (evicted-Distinct s d) n))
