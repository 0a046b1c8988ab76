-- ===== src/Picks/Service/Ends.antt =====
-- How the steps of an operation of the pick service end: one rule for each of them.
use Prim.Native.String.{String}
use choix.Base.{
  ℕ, Option, some, none, List, if◌then◌else◌, Bool, true, false, inl, inr, ◌≡◌, refl, Bool-cases,
}
use choix.Base.Int.{ℤ}
use choix.Store.Files.{File}
use choix.Store.Picks.{Pick, get}
use choix.Picks.Service.{
  Failure, Exporter, World, file_by_id, is_state, with_file, file_for, get_row, exec,
}

module _ {D E : Type 0} (exporter : Exporter D E) (now : ℤ) (fault : ℕ → Bool) where
  -- P holds of the world if the operation succeeds; Q holds of it either way.
  abbrev pub Ends : (World D → Type 0) → (World D → Type 0) → Option (Failure E) × World D → Type 0
  Ends P Q (none, w) = P w × Q w
  Ends P Q (some e, w) = Q w

  module _ (P Q : World D → Type 0) where
    pub exec-Ends :
        (n : ℕ) (change : List Pick → List Pick) (w : World D)
        (rest : World D → Option (Failure E) × World D)
        → Q w
        → (fault n ≡ false → Ends P Q (rest (record w { rows = change w.rows })))
        → Ends P Q (exec exporter now fault n change w rest)
    exec-Ends n change w rest q h = elim (Bool-cases (fault n)) [
      | inl t ↦ rw t q
      | inr t ↦ rw t (h t)
    ]

    with_file-Ends :
        (o : Option File) (w : World D) (rest : File → Option (Failure E) × World D)
        → Q w
        → ((f : File) → o ≡ some f → Ends P Q (rest f))
        → Ends P Q (with_file exporter now fault o w rest)
    with_file-Ends none w rest q h = q
    with_file-Ends (some f) w rest q h = h f refl

    pub file_for-Ends :
        (id : ℕ) (w : World D) (rest : File → Option (Failure E) × World D)
        → Q w
        → ((f : File) → file_by_id id w.files ≡ some f → Ends P Q (rest f))
        → Ends P Q (file_for exporter now fault id w rest)
    unfolding file_for
    file_for-Ends id w rest q h = elim (Bool-cases (fault 0)) [
      | inl t ↦ rw t q
      | inr t ↦ rw t (with_file-Ends (file_by_id id w.files) w rest q h)
    ]

    pub if-Ends :
        (b : Bool) (x y : Option (Failure E) × World D)
        → (b ≡ true → Ends P Q x)
        → (b ≡ false → Ends P Q y)
        → Ends P Q (if b then x else y)
    if-Ends true x y h k = h refl
    if-Ends false x y h k = k refl

  -- The row of the file reads as a picked one only if it is one.
  pub get_row-state :
      (n id : ℕ) (state : String) (w : World D)
      → is_state state (get_row exporter now fault n id w) ≡ true
      → is_state state (get id w.rows) ≡ true
  get_row-state n id state w h = elim (Bool-cases (fault n)) [
    | inl t ↦ let q = rw t at h in cc
    | inr t ↦ rw t at h
  ]
