-- ===== src/Store/Metadata.antt =====
-- internal/store/files.go: UpdateMetadataFull and GetByIDs.
use Prim.Native.String.{String}
use text.Mathlib.Text.{◌==◌ as str_eq}
use text.Mathlib.TextEquality.{eq_iff}
use choix.Base.{
  ==_iff, not, sym, ap, ◌∙◌, ◌+◌, ℕ, Option, some, none, List, [], ◌∷◌, if◌then◌else◌, Bool, true,
  false, ◌==◌, ◌≡◌, ◌≢◌, refl, arith, Bool-cases, inl, inr, keep,
}
use choix.Base.Int.{ℤ}
use choix.Store.Files.{File}
use choix.Store.FilesRepo.{find_file, has_id, null_string, update_where}

-- The payload, without the floating-point and blob columns.
pub record MetadataUpdate : Type 0 where
  pub device_key : String
  pub captured_at : ℤ
  pub has_captured : Bool
  pub width : ℕ
  pub height : ℕ
  pub iso : ℕ
  pub shutter : String
  pub scan_status : String
  pub err_msg : String

-- Zero is stored as NULL.
abbrev pub null_int : ℕ → Option ℕ
null_int v = if v == 0 then none else some v

abbrev pub with_metadata : MetadataUpdate → File → File
with_metadata u f = record f {
  device_key = null_string u.device_key;
  captured_at = if u.has_captured then some u.captured_at else none;
  width = null_int u.width;
  height = null_int u.height;
  iso = null_int u.iso;
  shutter = null_string u.shutter;
  scan_status = u.scan_status;
  err_msg = null_string u.err_msg;
}

-- RowsAffected of the UPDATE.
unfoldable pub rows_with : ℕ → List File → ℕ
rows_with id [] = 0
rows_with id (f ∷ fs) = if f.id == id then 1 + rows_with id fs else rows_with id fs

-- Whether it succeeded (false is ErrNotFound, after the rollback), and the table.
unfoldable pub update_metadata_full : ℕ → MetadataUpdate → List File → Bool × List File
unfolding rows_with update_where
update_metadata_full id u t =
    let changed = update_where (has_id id) (with_metadata u) t in
    if rows_with id t == 0 then (false, t) else (true, changed)

abbrev pub is_id : ℕ → List ℕ → Bool
is_id id [] = false
is_id id (x ∷ xs) = if x == id then true else is_id id xs

-- `WHERE id IN (…)`; the map is the list of its rows.
unfoldable pub get_by_ids : List ℕ → List File → List File
get_by_ids ids t = keep (λ f. is_id f.id ids) t

-- How a nullable column reads.
abbrev pub int_or_zero : Option ℕ → ℕ
int_or_zero none = 0
int_or_zero (some n) = n

abbrev pub text_or_empty : Option String → String
text_or_empty none = ""
text_or_empty (some s) = s

abbrev pub time_if : Bool → ℤ → Option ℤ
time_if true t = some t
time_if false t = none

-- The column reads as the value, and holds NULL rather than a zero value.
abbrev pub HasInt : Option ℕ → ℕ → Type 0
HasInt o n = (int_or_zero o ≡ n) × (o ≢ some 0)

abbrev pub HasText : Option String → String → Type 0
HasText o s = (text_or_empty o ≡ s) × (o ≢ some "")

-- Row g is row f with the values of the update, each in its own column.
pub record IsWritten (u : MetadataUpdate) (f g : File) : Type 0 where
  pub same_file :
      (g.id ≡ f.id)
      × (g.path ≡ f.path)
      × (g.size ≡ f.size)
      × (g.mtime ≡ f.mtime)
      × (g.content_hash ≡ f.content_hash)
      × (g.kind ≡ f.kind)
      × (g.format ≡ f.format)
  pub device : HasText g.device_key u.device_key
  pub time : g.captured_at ≡ time_if u.has_captured u.captured_at
  pub width : HasInt g.width u.width
  pub height : HasInt g.height u.height
  pub iso : HasInt g.iso u.iso
  pub shutter : HasText g.shutter u.shutter
  pub status : g.scan_status ≡ u.scan_status
  pub message : HasText g.err_msg u.err_msg

null_int-HasInt : (n : ℕ) → HasInt (null_int n) n
null_int-HasInt n = elim (Bool-cases (n == 0)) [
  | inl e ↦ rw e (sym ((==_iff n 0).0 e), λ q. cc)
  | inr e ↦ rw e (refl, λ q. let r : n ≡ 0 = cc in absurd (let z = sym e ∙ (==_iff n 0).1 r in cc))
]

null_string-HasText : (s : String) → HasText (null_string s) s
null_string-HasText s = elim (Bool-cases (str_eq s "")) [
  | inl e ↦ rw e (sym ((eq_iff s "").0 e), λ q. cc)
  | inr e ↦
      rw e (refl, λ q. let r : s ≡ "" = cc in let z = sym e ∙ ap (λ x. str_eq x "") r in absurd cc)
]

time-time_if : (b : Bool) (t : ℤ) → (if b then some t else none) ≡ time_if b t
time-time_if true t = refl
time-time_if false t = refl

with_metadata-IsWritten : (u : MetadataUpdate) (f : File) → IsWritten u f (with_metadata u f)
with_metadata-IsWritten u f = record {
  same_file = (refl, refl, refl, refl, refl, refl, refl);
  device = null_string-HasText u.device_key;
  time = time-time_if u.has_captured u.captured_at;
  width = null_int-HasInt u.width;
  height = null_int-HasInt u.height;
  iso = null_int-HasInt u.iso;
  shutter = null_string-HasText u.shutter;
  status = refl;
  message = null_string-HasText u.err_msg;
}

found_again :
    (id : ℕ) (u : MetadataUpdate) (t : List File) (f : File)
    → find_file (has_id id) t ≡ some f
    → find_file (has_id id) (update_where (has_id id) (with_metadata u) t)
      ≡ some (with_metadata u f)
unfolding find_file update_where
found_again id u [] f h = absurd cc
found_again id u (g ∷ fs) f h = elim (Bool-cases (g.id == id)) [
  | inl e ↦ let q : g ≡ f = (let r = rw e at h in cc) in rw (e, e, q)
  | inr e ↦ rw (e, e) (found_again id u fs f (rw e at h))
]

-- The rows of other files.
abbrev pub others : ℕ → List File → List File
others id = keep (λ f. not (has_id id f))

others_again :
    (id : ℕ) (u : MetadataUpdate) (t : List File)
    → others id (update_where (has_id id) (with_metadata u) t) ≡ others id t
unfolding update_where
others_again id u [] = refl
others_again id u (f ∷ fs) = elim (Bool-cases (f.id == id)) [
  | inl e ↦ rw (e, e) (others_again id u fs)
  | inr e ↦ rw (e, e, others_again id u fs)
]

none_affected : (id : ℕ) (t : List File) → rows_with id t ≡ 0 → find_file (has_id id) t ≡ none
unfolding rows_with find_file
none_affected id [] h = refl
none_affected id (f ∷ fs) h = ground (arith, none_affected id fs)

no_row : (id : ℕ) (t : List File) → find_file (has_id id) t ≡ none → rows_with id t ≡ 0
unfolding rows_with find_file
no_row id [] h = refl
no_row id (f ∷ fs) h = elim (Bool-cases (f.id == id)) [
  | inl e ↦ absurd (let q = rw e at h in cc)
  | inr e ↦ rw e (no_row id fs (rw e at h))
]

-- Without a row of the id the update fails and changes nothing; with one it succeeds, writes it and
-- keeps the others.
abbrev pub Updated : ℕ → MetadataUpdate → List File → Option File → Bool × List File → Type 0
Updated id u t none r = r ≡ (false, t)
Updated id u t (some f) r =
    (r.0 ≡ true)
    × (others id (r.1) ≡ others id t)
    × (g : File) × (find_file (has_id id) (r.1) ≡ some g)
    × IsWritten u f g

-- UpdateMetadataFull fails with ErrNotFound, and leaves the table as it is, when no row has the id.
-- Otherwise it succeeds: the row then reads as the update says, column by column, with NULL for a
-- zero value or a missing time; its path, size, modification time, hash, kind and format are as
-- before, and so are all the other rows.
pub update_metadata_full-rows :
    (id : ℕ) (u : MetadataUpdate) (t : List File)
    → Updated id u t (find_file (has_id id) t) (update_metadata_full id u t)
unfolding update_metadata_full
update_metadata_full-rows id u t = by_row (find_file (has_id id) t) refl
  where
    by_row :
        (o : Option File)
        → find_file (has_id id) t ≡ o
        → Updated id u t o (update_metadata_full id u t)
    by_row none e = rw (no_row id t e) refl
    by_row (some f) e = elim (Bool-cases (rows_with id t == 0)) [
      | inl q ↦ absurd (let r = none_affected id t (ground (arith, q)) in cc)
      | inr q ↦ rw q (
        refl,
        others_again id u t,
        with_metadata u f,
        found_again id u t f e,
        with_metadata-IsWritten u f,
      )
    ]

-- GetByIDs finds each requested file that the table has, and no other.
pub get_by_ids-found :
    (id : ℕ) (ids : List ℕ) (t : List File)
    → find_file (has_id id) (get_by_ids ids t)
      ≡ (if is_id id ids then find_file (has_id id) t else none)
unfolding get_by_ids find_file
get_by_ids-found id ids [] = elim (Bool-cases (is_id id ids)) [ inl e ↦ rw e | inr e ↦ rw e ]
get_by_ids-found id ids (f ∷ fs) =
    let rest = get_by_ids-found id ids fs in
    elim (Bool-cases (is_id f.id ids)) [
      | inl e ↦ elim (Bool-cases (f.id == id)) [
        | inl q ↦
            let same : f.id ≡ id = ground (arith, q) in
            let here : is_id id ids ≡ true = rw same at e in rw (e, q, here)
        | inr q ↦ rw (e, q) rest
      ]
      | inr e ↦ elim (Bool-cases (f.id == id)) [
        | inl q ↦
            let same : f.id ≡ id = ground (arith, q) in
            let gone : is_id id ids ≡ false = rw same at e in rw (e, gone) (rw gone at rest)
        | inr q ↦ rw (e, q) rest
      ]
    ]
