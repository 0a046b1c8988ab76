-- ===== src/Group/Skew.antt =====
-- internal/group/skew.go: the clock offsets of the devices against a reference device.
pub mod Window
pub mod Median
pub mod Offsets
use Prim.Native.String.{String}
use Prim.Native.String.{compare as compare_text}
use text.Mathlib.Text.{◌==◌ as str_eq, is_lt}
use choix.Base.{
  ℕ, zero, suc, ◌+◌, ◌-◌, ◌/◌, ◌%◌, Option, some, none, List, [], ◌∷◌, ◌++◌, map, length, get_elem?,
  if◌then◌else◌, Bool, true, false, not, ◌&&◌, ltb, ◌==◌,
}
use choix.Base.Int.{ℤ, pos, negsuc, ◌+ℤ◌, ◌-ℤ◌, ltb_ℤ}
use choix.Base.Floats.{Floats}
use choix.Base.Maps.{lookup}
use choix.Base.Multimap.{push, values_of, keys}
use choix.Base.Sort.{sort_by}
use choix.Store.Files.{File}
use choix.Group.Visual.{Embeds, cosine}

abbrev pub max_skew_sec : ℤ
max_skew_sec = pos 3600

abbrev pub min_anchors : ℕ
min_anchors = 3

pub record SkewEntry : Type 0 where
  pub id : ℕ
  pub captured_at : ℤ

module _ (fl : Floats) where
  abbrev pub anchor_similarity : fl.Float64
  anchor_similarity = fl.decimal 95 100

  -- Both ids have embeddings, and their cosine is not below the threshold.
  unfoldable pub anchored : Option (List fl.Float32) → Option (List fl.Float32) → Bool
  anchored (some er) (some eo) = not (fl.lt (cosine fl er eo) anchor_similarity)
  anchored _ _ = false

  unfoldable pub is_anchor : Embeds fl → SkewEntry → SkewEntry → Bool
  unfolding anchored
  is_anchor embeds r o = anchored (lookup r.id embeds) (lookup o.id embeds)

-- An index that only moves forward is the suffix of `other` that is left.
module _ (anchor : SkewEntry → SkewEntry → Bool) where
  -- `for lo < len(other) && other[lo].CapturedAt < r.CapturedAt-maxSkewSec { lo++ }`
  unfoldable pub advance : SkewEntry → List SkewEntry → List SkewEntry
  advance r [] = []
  advance r (o ∷ os) =
      if ltb_ℤ o.captured_at (r.captured_at -ℤ max_skew_sec) then advance r os else o ∷ os

  -- The loop over j, up to its break.
  unfoldable pub scan : SkewEntry → List SkewEntry → List ℤ
  scan r [] = []
  scan r (o ∷ os) =
      let rest = scan r os in
      let hit = (o.captured_at -ℤ r.captured_at) ∷ rest in
      if ltb_ℤ (r.captured_at +ℤ max_skew_sec) o.captured_at
      then []
      else if anchor r o
      then hit
      else rest

  unfoldable pub pair_deltas : List SkewEntry → List SkewEntry → List ℤ
  unfolding advance scan
  pair_deltas [] other = []
  pair_deltas (r ∷ rs) other =
      let window = advance r other in scan r window ++ pair_deltas rs window

-- Division by two of an int64: towards zero.
unfoldable pub half : ℤ → ℤ
half (pos n) = pos (n / 2)
half (negsuc n) = pos 0 -ℤ pos (suc n / 2)

abbrev pub sort_ints : List ℤ → List ℤ
sort_ints = sort_by ltb_ℤ

abbrev pub mean : Option ℤ → Option ℤ → Option ℤ
mean (some a) (some b) = some (half (a +ℤ b))
mean _ _ = none

-- medianInt64. An index out of range, on the empty list only, is `none`.
unfoldable pub median : List ℤ → Option ℤ
median xs =
    let s = sort_ints xs in
    let n = length xs in
    if n % 2 == 1 then get_elem? s (n / 2) else mean (get_elem? s (n / 2 - 1)) (get_elem? s (n / 2))

abbrev pub str_less : String → String → Bool
str_less a b = is_lt (compare_text a b)

abbrev pub entry_less : SkewEntry → SkewEntry → Bool
entry_less a b = ltb_ℤ a.captured_at b.captured_at

abbrev pub sort_entries : List SkewEntry → List SkewEntry
sort_entries = sort_by entry_less

module _ (fl : Floats) (embeds : Embeds fl) where
  -- The first loop: embedded files with a time and a device.
  unfoldable pub add_entry : File → List (String × List SkewEntry) → List (String × List SkewEntry)
  add_entry f m = elim f.device_key [
    | none ↦ m
    | some dev ↦ elim f.captured_at [
      | none ↦ m
      | some t ↦ elim (lookup f.id embeds) [
        | none ↦ m
        | some _ ↦
            if str_eq dev "" then m else push str_eq dev (record { id = f.id; captured_at = t }) m
      ]
    ]
  ]

  unfoldable pub add_entries :
      List File → List (String × List SkewEntry) → List (String × List SkewEntry)
  unfolding add_entry
  add_entries [] m = m
  add_entries (f ∷ fs) m = add_entries fs (add_entry f m)

abbrev pub sorted_entries : List (String × List SkewEntry) → String → List SkewEntry
sorted_entries m d = sort_entries (values_of str_eq d m)

-- The loop that finds the reference: a device with more entries than the best so far.
unfoldable pub pick_ref : (String → ℕ) → String → List String → String
pick_ref size ref [] = ref
pick_ref size ref (d ∷ ds) = pick_ref size (if ltb (size ref) (size d) then d else ref) ds

module _ (anchor : SkewEntry → SkewEntry → Bool) (entries : String → List SkewEntry) where
  -- The offset of a device that is not the reference.
  unfoldable pub offset : String → String → Option ℤ
  unfolding pair_deltas median half
  offset ref d =
      let deltas = pair_deltas anchor (entries ref) (entries d) in
      if ltb (length deltas) min_anchors then some (pos 0) else median deltas

  unfoldable pub offsets : String → List String → List (String × Option ℤ)
  unfolding offset
  offsets ref [] = []
  offsets ref (d ∷ ds) = if str_eq d ref then offsets ref ds else (d, offset ref d) ∷ offsets ref ds

module _ (fl : Floats) where
  -- EstimateSkew from the second loop on: `m` is byDevice.
  unfoldable pub estimate_from :
      Embeds fl → List (String × List SkewEntry) → List String → List (String × Option ℤ)
  unfolding offsets pick_ref is_anchor
  estimate_from embeds m [] = []
  estimate_from embeds m (d ∷ ds) =
      let ref = pick_ref (λ d. length (sorted_entries m d)) d (d ∷ ds) in
      (ref, some (pos 0)) ∷ offsets (is_anchor fl embeds) (sorted_entries m) ref (d ∷ ds)

  unfoldable pub estimate_skew : List File → Embeds fl → List (String × Option ℤ)
  unfolding estimate_from add_entries
  estimate_skew files embeds =
      let m = add_entries fl embeds files [] in
      if ltb (length m) 2 then [] else estimate_from embeds m (sort_by str_less (keys str_eq m))
