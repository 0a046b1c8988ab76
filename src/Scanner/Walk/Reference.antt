-- ===== src/Scanner/Walk/Reference.antt =====
-- What Walk does, without its traversal: the media files of the pruned tree are upserted in order.
use Prim.Native.String.{String}
use mathlib.Core.List.{append_assoc}
use choix.Base.{
  ℕ, Option, some, none, List, [], ◌∷◌, ◌++◌, if◌then◌else◌, Bool, true, false, ◌≡◌, refl, sym, ap,
  subst, ◌∙◌, Bool-cases, inl, inr,
}
use choix.Store.Files.{File}
use choix.Store.FilesRepo.{upsert_on_rescan}
use choix.Scanner.Formats.{FormatInfo, detect_from_ext}
use choix.Scanner.Tree.{Content, Entries, file, folder, none_left, next, child}
use choix.Scanner.Walk.{
  Text, Faults, Scan, set_seen, and_then, called, is_under_dir, is_skipped, scanned, upsert,
  visit_media, visit_file, visit_folder, walk_entries,
}

-- The files below a folder, with their names and relative paths.
unfoldable pub leaves : String → Entries → List (String × String × Content)
leaves rel none_left = []
leaves rel (next (file name c) es) = (name, child rel name, c) ∷ leaves rel es
leaves rel (next (folder name below) es) = leaves (child rel name) below ++ leaves rel es

module _ (text : Text) (faults : Faults) (picks_dir : String) where
  -- The tree without the folders that are skipped.
  unfoldable pub pruned : String → Entries → Entries
  pruned rel none_left = none_left
  pruned rel (next (file name c) es) = next (file name c) (pruned rel es)
  pruned rel (next (folder name below) es) =
      let rest = pruned rel es in
      let kept = next (folder name (pruned (child rel name) below)) rest in
      if is_skipped text faults picks_dir name (child rel name) then rest else kept

  abbrev pub row_of : String → Content → Option FormatInfo → List File
  row_of rel c none = []
  row_of rel c (some info) =
      if is_under_dir text faults picks_dir rel picks_dir
      then []
      else scanned text faults picks_dir rel info c ∷ []

  -- The rows of the media files outside the picks folder.
  unfoldable pub media : List (String × String × Content) → List File
  unfolding is_under_dir detect_from_ext
  media [] = []
  media (l ∷ ls) = row_of (l.1) (l.2) (detect_from_ext text.go_lower (l.0)) ++ media ls

  unfoldable pub found : String → Entries → List File
  unfolding media leaves pruned
  found rel es = media (leaves rel (pruned rel es))

  -- The upserts of rows one after the other, with the map of what was seen.
  unfoldable pub absorb : List File → List File × List (String × ℕ) → List File × List (String × ℕ)
  unfolding upsert_on_rescan set_seen
  absorb [] p = p
  absorb (f ∷ fs) p = absorb fs (
    (upsert_on_rescan text.lower f (p.0)).2,
    set_seen f.path (upsert_on_rescan text.lower f (p.0)).0 (p.1),
  )

  abbrev pub view : Scan → List File × List (String × ℕ)
  view s = (s.rows, s.seen)

  absorb-append :
      (fs gs : List File) (p : List File × List (String × ℕ))
      → absorb (fs ++ gs) p ≡ absorb gs (absorb fs p)
  unfolding absorb
  absorb-append [] gs p = refl
  absorb-append (f ∷ fs) gs p = absorb-append fs gs _

  media-append :
      (xs ys : List (String × String × Content)) → media (xs ++ ys) ≡ media xs ++ media ys
  unfolding media
  media-append [] ys = refl
  media-append (l ∷ ls) ys =
      ap (λ z. row_of (l.1) (l.2) (detect_from_ext text.go_lower (l.0)) ++ z) (media-append ls ys)
      ∙ sym (
          append_assoc (row_of (l.1) (l.2) (detect_from_ext text.go_lower (l.0))) (media ls)
            (media ys))

  -- A step that ends well has upserted these rows.
  abbrev pub Did : List File → Scan → Bool × Scan → Type 0
  Did fs s (false, u) = Unit
  Did fs s (true, u) = view u ≡ absorb fs (view s)

  and_then-Did :
      (fs gs : List File) (s : Scan) (r : Bool × Scan) (rest : Scan → Bool × Scan)
      → Did fs s r
      → ((u : Scan) → Did gs u (rest u))
      → Did (fs ++ gs) s (and_then r rest)
  and_then-Did fs gs s (false, u) rest h k = tt
  and_then-Did fs gs s (true, u) rest h k = onward (rest u) (k u)
    where
      onward : (r : Bool × Scan) → Did gs u r → Did (fs ++ gs) s r
      onward (false, v) d = tt
      onward (true, v) d = d ∙ ap (absorb gs) h ∙ sym (absorb-append fs gs (view s))

  pub if-Did :
      (fs : List File) (s : Scan) (b : Bool) (x y : Bool × Scan)
      → (b ≡ true → Did fs s x)
      → (b ≡ false → Did fs s y)
      → Did fs s (if b then x else y)
  if-Did fs s true x y h k = h refl
  if-Did fs s false x y h k = k refl

  upsert-Did : (f : File) (s : Scan) → Did (f ∷ []) s (upsert text faults picks_dir f s)
  unfolding upsert absorb
  upsert-Did f s = if-Did (f ∷ []) s (faults.upsert_fails f.path) _ _ (λ t. tt) (λ t. refl)

  visit_media-Did :
      (rel : String) (c : Content) (o : Option FormatInfo) (s : Scan)
      → Did (row_of rel c o) s (visit_media text faults picks_dir rel c o s)
  unfolding absorb
  visit_media-Did rel c none s = refl
  visit_media-Did rel c (some info) s =
      elim (Bool-cases (is_under_dir text faults picks_dir rel picks_dir)) [
        | inl t ↦ rw t refl
        | inr t ↦
            let row = scanned text faults picks_dir rel info c in
            rw t (
              if-Did (row ∷ []) s (faults.stat_fails rel) _ _ (λ u. tt)
                (λ u.
                  if-Did (row ∷ []) s (faults.hash_fails rel) _ _ (λ v. tt)
                    (λ v. upsert-Did row s)))
      ]

  visit_file-Did :
      (name rel : String) (c : Content) (s : Scan)
      → Did
          (row_of rel c (detect_from_ext text.go_lower name))
          s
          (visit_file text faults picks_dir name rel c s)
  unfolding visit_file
  visit_file-Did name rel c s =
      let rows = row_of rel c (detect_from_ext text.go_lower name) in
      if-Did rows s (faults.ctx_err s.calls) _ _ (λ t. tt)
        (λ t. again _ (visit_media-Did rel c (detect_from_ext text.go_lower name) (called s)))
    where
      again :
          (r : Bool × Scan)
          → Did (row_of rel c (detect_from_ext text.go_lower name)) (called s) r
          → Did (row_of rel c (detect_from_ext text.go_lower name)) s r
      again (false, u) d = tt
      again (true, u) d = d

  visit_folder-Did :
      (name rel : String) (fs : List File) (below : Scan → Bool × Scan) (s : Scan)
      → (is_skipped text faults picks_dir name rel ≡ true → fs ≡ [])
      → (is_skipped text faults picks_dir name rel ≡ false → Did fs (called s) (below (called s)))
      → Did fs s (visit_folder text faults picks_dir name rel below s)
  unfolding absorb
  visit_folder-Did name rel fs below s h k =
      if-Did fs s (faults.ctx_err s.calls) _ _ (λ t. tt)
        (λ t.
          if-Did fs s (is_skipped text faults picks_dir name rel) _ _
            (λ u. ap (λ gs. absorb gs (view s)) (sym (h u)))
            (λ u.
              if-Did fs s (faults.read_fails rel) _ _ (λ v. tt)
                (λ v. again (below (called s)) (k u))))
    where
      again : (r : Bool × Scan) → Did fs (called s) r → Did fs s r
      again (false, u) d = tt
      again (true, u) d = d

  found_skipped :
      (rel name : String) (below es : Entries)
      → is_skipped text faults picks_dir name (child rel name) ≡ true
      → found rel (next (folder name below) es) ≡ found rel es
  unfolding found
  found_skipped rel name below es t =
      let same : pruned rel (next (folder name below) es) ≡ pruned rel es = rw (t, pruned) refl in
      ap (λ z. media (leaves rel z)) same

  found_kept :
      (rel name : String) (below es : Entries)
      → is_skipped text faults picks_dir name (child rel name) ≡ false
      → found rel (next (folder name below) es) ≡ found (child rel name) below ++ found rel es
  unfolding found
  found_kept rel name below es t =
      let same : pruned rel (next (folder name below) es)
          ≡ next (folder name (pruned (child rel name) below)) (pruned rel es) =
        rw (t, pruned) refl in
      ap (λ z. media (leaves rel z)) same
      ∙ media-append (leaves (child rel name) (pruned (child rel name) below))
          (leaves rel (pruned rel es))

  -- Below a folder that is visited, exactly the media files of the pruned tree are upserted.
  pub walk_entries-Did :
      (rel : String) (es : Entries) (s : Scan)
      → Did (found rel es) s (walk_entries text faults picks_dir rel es s)
  unfolding found walk_entries absorb
  walk_entries-Did rel none_left s = refl
  walk_entries-Did rel (next (file name c) es) s =
      and_then-Did (row_of (child rel name) c (detect_from_ext text.go_lower name)) (found rel es) s
        _ _ (visit_file-Did name (child rel name) c s) (λ u. walk_entries-Did rel es u)
  walk_entries-Did rel (next (folder name below) es) s =
      let path = child rel name in
      elim (Bool-cases (is_skipped text faults picks_dir name path)) [
        | inl t ↦
            subst
              (λ fs.
                Did fs s (walk_entries text faults picks_dir rel (next (folder name below) es) s))
              (sym (found_skipped rel name below es t))
              (and_then-Did [] (found rel es) s _ _
                (visit_folder-Did name path [] (walk_entries text faults picks_dir path below) s
                  (λ u. refl) (λ u. let q = sym t ∙ u in absurd cc))
                (λ u. walk_entries-Did rel es u))
        | inr t ↦
            subst
              (λ fs.
                Did fs s (walk_entries text faults picks_dir rel (next (folder name below) es) s))
              (sym (found_kept rel name below es t))
              (and_then-Did (found path below) (found rel es) s _ _
                (visit_folder-Did name path (found path below)
                  (walk_entries text faults picks_dir path below) s
                  (λ u. let q = sym t ∙ u in absurd cc)
                  (λ u. walk_entries-Did path below (called s)))
                (λ u. walk_entries-Did rel es u))
      ]
