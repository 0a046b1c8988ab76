-- ===== src/Picks/Export/Effects.antt =====
-- What exportFile and the removal of a copy change on the disk.
use Prim.Native.String.{String}
use text.Mathlib.Text.{◌==◌ as str_eq}
use text.Mathlib.TextLemmas.{append_cancel_left, append-nil}
use choix.Base.{
  ℕ, Option, some, none, List, if◌then◌else◌, Bool, true, false, ◌⊎◌, inl, inr, ◌≡◌, refl, sym, ap,
  subst, ◌∙◌, Bool-cases, ◌≢◌,
}
use choix.Base.Paths.{join}
use choix.Base.Paths.Nonempty.{join-nonempty}
use choix.Store.Files.{File}
use choix.Picks.Disk.{
  read, write, erase, str_eq-of_ne, read-write, read-write_other, read-erase_other,
}
use choix.Picks.Export.{
  Os, ExportError, Slot, free, same, failed, is_under, export_root, root_inside, tmp_of, try_remove,
  or_empty, fill_tmp, copy_to, export_to, with_source, source_path, resolve_target, export_file,
}
use choix.Picks.Export.Target.{IsAnswer, resolve_target-IsFirst}

abs≢tmp : (abs : String) → abs ≢ tmp_of abs
abs≢tmp abs e = let q = append_cancel_left abs "" ".tmp" (append-nil abs ∙ e) in cc

module _ {C : Type 0} where
  -- Only these two paths may differ.
  abbrev pub Kept : String → List (String × C) → List (String × C) → Type 0
  Kept abs d e = (p : String) → p ≢ abs → p ≢ tmp_of abs → read p e ≡ read p d

  -- As Kept, and no file stands at the target.
  abbrev pub OnlyTmp : String → List (String × C) → List (String × C) → Type 0
  OnlyTmp abs d e = (read abs e ≡ none) × Kept abs d e

  write_tmp-OnlyTmp :
      (abs : String) (c : C) (d e : List (String × C))
      → OnlyTmp abs d e
      → OnlyTmp abs d (write (tmp_of abs) c e)
  write_tmp-OnlyTmp abs c d e h = (
    read-write_other (tmp_of abs) abs c e (abs≢tmp abs) ∙ h.0,
    λ p n m. read-write_other (tmp_of abs) p c e m ∙ h.1 p n m,
  )

  erase_tmp-OnlyTmp :
      (abs : String) (d e : List (String × C))
      → OnlyTmp abs d e
      → OnlyTmp abs d (erase (tmp_of abs) e)
  erase_tmp-OnlyTmp abs d e h = (
    read-erase_other (tmp_of abs) abs e (abs≢tmp abs) ∙ h.0,
    λ p n m. read-erase_other (tmp_of abs) p e m ∙ h.1 p n m,
  )

module _ {C : Type 0} (os : Os C) (scan_root picks_dir : String) where
  try_remove-OnlyTmp :
      (abs : String) (d e : List (String × C))
      → OnlyTmp abs d e
      → OnlyTmp abs d (try_remove os scan_root picks_dir (tmp_of abs) e)
  try_remove-OnlyTmp abs d e h = elim (Bool-cases (os.remove_fails (tmp_of abs))) [
    | inl t ↦ rw t h
    | inr t ↦ rw t (erase_tmp-OnlyTmp abs d e h)
  ]

  -- The end of a copy: the content at the target, or no file there.
  abbrev pub Copied :
      String → String → C → List (String × C) → (ExportError ⊎ String) × List (String × C) → Type 0
  Copied rel abs c d (inl e, d') = OnlyTmp abs d d'
  Copied rel abs c d (inr r, d') = (r ≡ rel) × (read abs d' ≡ some c) × Kept abs d d'

  if-Copied :
      (rel abs : String) (c : C) (d : List (String × C)) (b : Bool)
      (x y : (ExportError ⊎ String) × List (String × C))
      → Copied rel abs c d x
      → Copied rel abs c d y
      → Copied rel abs c d (if b then x else y)
  if-Copied rel abs c d true x y h k = h
  if-Copied rel abs c d false x y h k = k

  fill_tmp-Copied :
      (rel abs : String) (c : C) (d e : List (String × C))
      → OnlyTmp abs d e
      → Copied rel abs c d (fill_tmp os scan_root picks_dir rel abs c e)
  unfolding fill_tmp
  fill_tmp-Copied rel abs c d e h =
      let tmp = tmp_of abs in
      let filled = write_tmp-OnlyTmp abs c d e h in
      let renamed = erase_tmp-OnlyTmp abs d (write tmp c e) filled in
      if-Copied rel abs c d (os.copy_fails tmp) _ _
        (try_remove-OnlyTmp abs d _ (write_tmp-OnlyTmp abs (os.partial c) d e h))
        (if-Copied rel abs c d (os.close_fails tmp) _ _ (try_remove-OnlyTmp abs d _ filled) (
          if-Copied rel abs c d (os.rename_fails abs) _ _ (try_remove-OnlyTmp abs d _ filled) (
            refl,
            read-write abs c (erase tmp (write tmp c e)),
            λ p n m. read-write_other abs p c (erase tmp (write tmp c e)) n ∙ renamed.1 p n m,
          )))

  copy_to-Copied :
      (src rel abs : String) (c : C) (d : List (String × C))
      → read abs d ≡ none
      → read src d ≡ some c
      → src ≢ tmp_of abs
      → Copied rel abs c d (copy_to os scan_root picks_dir src rel abs d)
  unfolding copy_to
  copy_to-Copied src rel abs c d h s n =
      let start : OnlyTmp abs d d = (h, λ p n m. refl) in
      let e = write (tmp_of abs) os.empty d in
      let same_content =
        ap (or_empty os scan_root picks_dir) (read-write_other (tmp_of abs) src os.empty d n ∙ s) in
      if-Copied rel abs c d (os.mkdir_fails abs) _ _ start (
        if-Copied rel abs c d (os.create_fails (tmp_of abs)) _ _ start (
          subst (λ z. Copied rel abs c d (fill_tmp os scan_root picks_dir rel abs z e))
            (sym same_content)
            (fill_tmp-Copied rel abs c d e (write_tmp-OnlyTmp abs os.empty d d start))))

  -- The two ways a success ends: a file with the content hash of the picked file was at the target
  -- and nothing changed, or nothing was there and now the content of the source is.
  abbrev pub Delivered : File → C → String → List (String × C) → List (String × C) → Type 0
  Delivered f c abs d d' =
      ((b : C) × (read abs d ≡ some b) × (os.content_hash b ≡ f.content_hash) × (d' ≡ d))
      ⊎ ((is_under (export_root os scan_root picks_dir) abs ≡ true)
          × (read abs d ≡ none)
          × (read abs d' ≡ some c)
          × Kept abs d d')

  abbrev pub Exported :
      File → List (String × C) → (ExportError ⊎ String) × List (String × C) → Type 0
  Exported f d (inl e, d') =
      (d' ≡ d)
      ⊎ ((abs : String) × (is_under (export_root os scan_root picks_dir) abs ≡ true)
          × (read abs d ≡ none)
          × OnlyTmp abs d d')
  Exported f d (inr rel, d') =
      (c : C) × (read (source_path os scan_root picks_dir f) d ≡ some c)
      × Delivered f c (join scan_root rel) d d'

  Copied-Exported :
      (f : File) (rel : String) (c : C) (d : List (String × C))
      (r : (ExportError ⊎ String) × List (String × C))
      → read (source_path os scan_root picks_dir f) d ≡ some c
      → is_under (export_root os scan_root picks_dir) (join scan_root rel) ≡ true
      → read (join scan_root rel) d ≡ none
      → Copied rel (join scan_root rel) c d r
      → Exported f d r
  Copied-Exported f rel c d (inl e, d') s u n h = inr (join scan_root rel, u, n, h)
  Copied-Exported f rel c d (inr r, d') s u n h =
      (c, s, subst (λ z. Delivered f c (join scan_root z) d d') (sym h.0) (inr (u, n, h.1, h.2)))

  export_to-Exported :
      (f : File) (c : C) (d : List (String × C)) (t : Slot) (n : ℕ)
      → ¬ (scan_root ≡ "")
      → ((p : String) → source_path os scan_root picks_dir f ≢ tmp_of p)
      → read (source_path os scan_root picks_dir f) d ≡ some c
      → IsAnswer os scan_root picks_dir f.content_hash (join picks_dir f.path) d n t
      → Exported f d
          (export_to os scan_root picks_dir (source_path os scan_root picks_dir f) (some t) d)
  unfolding export_to
  export_to-Exported f c d (failed e) n root src s a = inl refl
  export_to-Exported f c d (same rel) n root src s a = (c, s, inl (a.1, a.2, a.3, refl))
  export_to-Exported f c d (free rel abs) n root src s a =
      elim (Bool-cases (is_under (export_root os scan_root picks_dir) abs)) [
        | inl t ↦
            rw (filled, t)
              (Copied-Exported f rel c d _ s (subst Under a.1 t) (subst Empty a.1 a.2) (
                subst (λ z. Copied rel z c d (copied abs)) a.1
                  (copy_to-Copied (source_path os scan_root picks_dir f) rel abs c d a.2 s
                    (src abs))))
        | inr t ↦ rw (filled, t) (inl refl)
      ]
    where
      filled : str_eq abs "" ≡ false
      filled = str_eq-of_ne abs "" (λ e. join-nonempty scan_root rel root (sym a.1 ∙ e))

      Under : String → Type 0
      Under z = is_under (export_root os scan_root picks_dir) z ≡ true

      Empty : String → Type 0
      Empty z = read z d ≡ none

      copied : String → (ExportError ⊎ String) × List (String × C)
      copied z = copy_to os scan_root picks_dir (source_path os scan_root picks_dir f) rel z d

  -- What exportFile does, whatever the system calls answer. On an error the disk is unchanged, or
  -- only a temporary file beside a free target under the export root differs and no file stands at
  -- the target. On success the source could be read, and at the returned path, taken from the scan
  -- root, there was a file with the content hash of the picked file and nothing changed; or the path
  -- is under the export root, no file was there, the content of the source is there now, and no
  -- other file differs except the temporary one. The scan root is not empty, no content has the
  -- empty hash, and the source is not itself a temporary file (`.tmp`).
  pub export_file-Exported :
      (f : File) (d : List (String × C))
      → ¬ (scan_root ≡ "")
      → ((c : C) → os.content_hash c ≢ "")
      → ((p : String) → source_path os scan_root picks_dir f ≢ tmp_of p)
      → Exported f d (export_file os scan_root picks_dir f d)
  unfolding export_file
  export_file-Exported f d root nonempty src =
      elim (Bool-cases (root_inside os scan_root picks_dir)) [
        | inr t ↦ rw t (inl refl)
        | inl t ↦ rw t (from (read source d) refl)
      ]
    where
      source : String
      source = source_path os scan_root picks_dir f

      rest : (ExportError ⊎ String) × List (String × C)
      rest = export_to os scan_root picks_dir source (resolve_target os scan_root picks_dir f d) d

      from :
          (o : Option C)
          → read source d ≡ o
          → Exported f d (with_source os scan_root picks_dir o source d rest)
      from none e = inl refl
      from (some c) e = elim (Bool-cases (os.open_fails source)) [
        | inl t ↦ rw t (inl refl)
        | inr t ↦
            let (s, q, (n, l, a, below)) =
              resolve_target-IsFirst os scan_root picks_dir f d nonempty in
            let answered = export_to-Exported f c d s n root src e a in
            rw t (
              subst (λ z. Exported f d (export_to os scan_root picks_dir source z d)) (sym q)
                answered)
      ]
