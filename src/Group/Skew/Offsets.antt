-- ===== src/Group/Skew/Offsets.antt =====
-- EstimateSkew: which device is the reference, and how far the offsets can go.
use Prim.Native.String.{String}
use text.Mathlib.Text.{◌==◌ as str_eq}
use choix.Base.{
  ℕ, ◌≤◌, List, [], ◌∷◌, Bool, true, false, ◌≡◌, refl, sym, Option, some, arith, All, All-append,
  In, inl, inr, ◌⊎◌, Bool-cases, length, ltb, subst,
}
use choix.Base.Int.{ℤ, pos, negsuc, ◌-ℤ◌, +ℤ_parts, -ℤ_parts}
use choix.Base.Floats.{Floats}
use choix.Base.Multimap.{keys}
use choix.Base.Sort.{sort_by, Sorted, sort_by-Sorted}
use choix.Store.Files.{File}
use choix.Group.Visual.{Embeds}
use choix.Group.Skew.{
  SkewEntry, max_skew_sec, pair_deltas, entry_less, sort_entries, sorted_entries, pick_ref, offset,
  offsets, estimate_from, estimate_skew, add_entries, is_anchor, str_less, min_anchors,
}
use choix.Group.Skew.Window.{accepts, deltas_of, all_deltas, pair_deltas-all_deltas}
use choix.Group.Skew.Median.{Within, median-Within}

-- Minus one hour.
abbrev pub min_skew : ℤ
min_skew = negsuc 3599

abbrev pub InHour : ℤ → Type 0
InHour = Within min_skew max_skew_sec

sort_entries-Sorted : (xs : List SkewEntry) → Sorted entry_less (sort_entries xs)
sort_entries-Sorted = sort_by-Sorted entry_less (λ x y h. ground arith) (λ x y z h k. ground arith)

module _ (anchor : SkewEntry → SkewEntry → Bool) where
  accepts-InHour :
      (r o : SkewEntry) → accepts anchor r o ≡ true → InHour (o.captured_at -ℤ r.captured_at)
  accepts-InHour r o e = ground (
    arith,
    -ℤ_parts r.captured_at max_skew_sec,
    +ℤ_parts r.captured_at max_skew_sec,
    -ℤ_parts o.captured_at r.captured_at,
  )

  deltas_of-InHour : (r : SkewEntry) (os : List SkewEntry) → All InHour (deltas_of anchor r os)
  deltas_of-InHour r [] = tt
  deltas_of-InHour r (o ∷ os) = elim (Bool-cases (accepts anchor r o)) [
    | inl e ↦ rw e (accepts-InHour r o e, deltas_of-InHour r os)
    | inr e ↦ rw e (deltas_of-InHour r os)
  ]

  all_deltas-InHour : (rs os : List SkewEntry) → All InHour (all_deltas anchor rs os)
  all_deltas-InHour [] os = tt
  all_deltas-InHour (r ∷ rs) os =
      All-append InHour (deltas_of anchor r os) (all_deltas anchor rs os) (deltas_of-InHour r os)
        (all_deltas-InHour rs os)

  -- A known offset within an hour.
  abbrev pub IsBounded : String × Option ℤ → Type 0
  IsBounded e = (m : ℤ) × (e.1 ≡ some m) × InHour m

  module _ (entries : String → List SkewEntry)
      (sorted : (d : String) → Sorted entry_less (entries d)) where
    offset-IsBounded : (ref d : String) → IsBounded (d, offset anchor entries ref d)
    unfolding offset
    offset-IsBounded ref d =
        let deltas = pair_deltas anchor (entries ref) (entries d) in
        elim (Bool-cases (ltb (length deltas) min_anchors)) [
          | inl t ↦ (pos 0, rw t, omega arith)
          | inr t ↦
              let (m, e, h) =
                median-Within min_skew max_skew_sec deltas (λ q. few deltas q t)
                  (rw
                    (pair_deltas-all_deltas anchor (entries ref) (entries d) (sorted ref)
                      (sorted d))
                    (all_deltas-InHour (entries ref) (entries d))) in
              (m, rw t e, h)
        ]
      where
        few : (xs : List ℤ) → xs ≡ [] → ltb (length xs) min_anchors ≡ false → ⊥
        few [] q t = ground arith
        few (x ∷ xs) q t = cc

    offsets-IsBounded :
        (ref : String) (ds : List String) → All IsBounded (offsets anchor entries ref ds)
    unfolding offsets
    offsets-IsBounded ref [] = tt
    offsets-IsBounded ref (d ∷ ds) = elim (Bool-cases (str_eq d ref)) [
      | inl e ↦ rw e (offsets-IsBounded ref ds)
      | inr e ↦ rw e (offset-IsBounded ref d, offsets-IsBounded ref ds)
    ]

abbrev pub IsLargest : (String → ℕ) → String → List String → String → Type 0
IsLargest size ref ds r =
    (size ref ≤ size r) × All (λ d. size d ≤ size r) ds × ((r ≡ ref) ⊎ In r ds)

-- The loop returns the device it started from or one of the list, and none of them has more entries.
pub pick_ref-IsLargest :
    (size : String → ℕ) (ref : String) (ds : List String)
    → IsLargest size ref ds (pick_ref size ref ds)
unfolding pick_ref
pick_ref-IsLargest size ref [] = (omega arith, tt, inl refl)
pick_ref-IsLargest size ref (d ∷ ds) = elim (Bool-cases (ltb (size ref) (size d))) [
  | inl e ↦
      let h = pick_ref-IsLargest size d ds in
      let eq : pick_ref size ref (d ∷ ds) ≡ pick_ref size d ds = rw (e, pick_ref) in
      subst (IsLargest size ref (d ∷ ds)) (sym eq)
        (ground (arith, h.0), (h.0, h.1), elim h.2 [ inl q ↦ inr (inl q) | inr m ↦ inr (inr m) ])
  | inr e ↦
      let h = pick_ref-IsLargest size ref ds in
      let eq : pick_ref size ref (d ∷ ds) ≡ pick_ref size ref ds = rw (e, pick_ref) in
      subst (IsLargest size ref (d ∷ ds)) (sym eq)
        (h.0, (ground (arith, h.0), h.1), elim h.2 [ inl q ↦ inl q | inr m ↦ inr (inr m) ])
]

module _ (fl : Floats) where
  estimate_from-IsBounded :
      (embeds : Embeds fl) (m : List (String × List SkewEntry)) (ds : List String)
      → All (IsBounded (is_anchor fl embeds)) (estimate_from fl embeds m ds)
  unfolding estimate_from
  estimate_from-IsBounded embeds m [] = tt
  estimate_from-IsBounded embeds m (d ∷ ds) = (
    (pos 0, refl, omega arith),
    offsets-IsBounded (is_anchor fl embeds) (sorted_entries m) (λ e. sort_entries-Sorted _)
        (pick_ref (λ e. length (sorted_entries m e)) d (d ∷ ds)) (d ∷ ds),
  )

  -- Every offset that EstimateSkew returns is known and lies within an hour of zero.
  pub estimate_skew-IsBounded :
      (files : List File) (embeds : Embeds fl)
      → All (IsBounded (is_anchor fl embeds)) (estimate_skew fl files embeds)
  unfolding estimate_skew
  estimate_skew-IsBounded files embeds =
      let m = add_entries fl embeds files [] in
      elim (Bool-cases (ltb (length m) 2)) [
        | inl e ↦ rw e tt
        | inr e ↦ rw e (estimate_from-IsBounded embeds m (sort_by str_less (keys str_eq m)))
      ]
