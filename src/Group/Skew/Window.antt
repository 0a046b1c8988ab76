-- ===== src/Group/Skew/Window.antt =====
-- pairDeltas: the forward-only window finds exactly the pairs that a scan of all pairs finds.
use choix.Base.{
  List, [], ◌∷◌, ◌++◌, map, Bool, true, false, not, ◌&&◌, ◌≡◌, refl, sym, arith, All, keep, inl,
  inr, Bool-cases, All-imp,
}
use choix.Base.Int.{ℤ, ◌+ℤ◌, ◌-ℤ◌, ltb_ℤ, +ℤ_parts, -ℤ_parts}
use choix.Base.Sort.{Sorted}
use choix.Group.Skew.{SkewEntry, max_skew_sec, advance, scan, pair_deltas, entry_less}

module _ (anchor : SkewEntry → SkewEntry → Bool) where
  -- The times differ by at most maxSkewSec, and the pair is an anchor.
  abbrev pub accepts : SkewEntry → SkewEntry → Bool
  accepts r o =
      not (ltb_ℤ o.captured_at (r.captured_at -ℤ max_skew_sec))
      && (not (ltb_ℤ (r.captured_at +ℤ max_skew_sec) o.captured_at) && anchor r o)

  abbrev pub deltas_of : SkewEntry → List SkewEntry → List ℤ
  deltas_of r other = map (λ o. o.captured_at -ℤ r.captured_at) (keep (accepts r) other)

  -- Every pair is looked at.
  abbrev pub all_deltas : List SkewEntry → List SkewEntry → List ℤ
  all_deltas [] other = []
  all_deltas (r ∷ rs) other = deltas_of r other ++ all_deltas rs other

  abbrev Late : SkewEntry → SkewEntry → Type 0
  Late r o = ltb_ℤ (r.captured_at +ℤ max_skew_sec) o.captured_at ≡ true

  abbrev Entered : SkewEntry → SkewEntry → Type 0
  Entered r o = ltb_ℤ o.captured_at (r.captured_at -ℤ max_skew_sec) ≡ false

  deltas_of-Late : (r : SkewEntry) (os : List SkewEntry) → All (Late r) os → deltas_of r os ≡ []
  deltas_of-Late r [] h = refl
  deltas_of-Late r (o ∷ os) h = ground (arith, deltas_of-Late r os)

  Late-mono : (r o p : SkewEntry) → entry_less p o ≡ false → Late r o → Late r p
  Late-mono r o p h l = ground (arith, +ℤ_parts r.captured_at max_skew_sec)

  scan_lem :
      (r : SkewEntry) (os : List SkewEntry)
      → Sorted entry_less os
      → All (Entered r) os
      → scan anchor r os ≡ deltas_of r os
  unfolding scan
  scan_lem r [] s h = refl
  scan_lem r (o ∷ os) s h =
      elim (Bool-cases (ltb_ℤ (r.captured_at +ℤ max_skew_sec) o.captured_at)) [
        | inl l ↦
            let late : All (Late r) os = All-imp os (λ p q. Late-mono r o p q l) s.0 in
            rw (l, h.0) (sym (deltas_of-Late r os late))
        | inr l ↦ ground (arith, scan_lem r os s.1 h.1)
      ]

  advance-Sorted :
      (r : SkewEntry) (os : List SkewEntry)
      → Sorted entry_less os
      → Sorted entry_less (advance anchor r os)
  unfolding advance
  advance-Sorted r [] s = tt
  advance-Sorted r (o ∷ os) s =
      elim (Bool-cases (ltb_ℤ o.captured_at (r.captured_at -ℤ max_skew_sec))) [
        | inl e ↦ rw e (advance-Sorted r os s.1)
        | inr e ↦ rw e s
      ]

  Entered-mono : (r o p : SkewEntry) → entry_less p o ≡ false → Entered r o → Entered r p
  Entered-mono r o p h l = ground (arith, -ℤ_parts r.captured_at max_skew_sec)

  advance-Entered :
      (r : SkewEntry) (os : List SkewEntry)
      → Sorted entry_less os
      → All (Entered r) (advance anchor r os)
  unfolding advance
  advance-Entered r [] s = tt
  advance-Entered r (o ∷ os) s =
      elim (Bool-cases (ltb_ℤ o.captured_at (r.captured_at -ℤ max_skew_sec))) [
        | inl e ↦ rw e (advance-Entered r os s.1)
        | inr e ↦ rw e (e, All-imp os (λ p q. Entered-mono r o p q e) s.0)
      ]

  -- What `lo` passes over is too early for every later file of the reference, too.
  deltas_of-advance :
      (r r' : SkewEntry) (os : List SkewEntry)
      → entry_less r' r ≡ false
      → deltas_of r' (advance anchor r os) ≡ deltas_of r' os
  unfolding advance
  deltas_of-advance r r' [] h = refl
  deltas_of-advance r r' (o ∷ os) h =
      elim (Bool-cases (ltb_ℤ o.captured_at (r.captured_at -ℤ max_skew_sec))) [
        | inl e ↦ rw (e, early e) (deltas_of-advance r r' os h)
        | inr e ↦ rw e
      ]
    where
      early :
          ltb_ℤ o.captured_at (r.captured_at -ℤ max_skew_sec) ≡ true
          → ltb_ℤ o.captured_at (r'.captured_at -ℤ max_skew_sec) ≡ true
      early e =
          ground (arith, -ℤ_parts r.captured_at max_skew_sec, -ℤ_parts r'.captured_at max_skew_sec)

  all_deltas-advance :
      (r : SkewEntry) (rs os : List SkewEntry)
      → All (λ r'. entry_less r' r ≡ false) rs
      → all_deltas rs (advance anchor r os) ≡ all_deltas rs os
  all_deltas-advance r [] os h = refl
  all_deltas-advance r (r' ∷ rs) os h =
      rw (deltas_of-advance r r' os h.0, all_deltas-advance r rs os h.1)

  -- On lists sorted by time, pairDeltas returns the differences of exactly the pairs whose times
  -- are at most maxSkewSec apart and that are anchors, in the order of the two lists.
  pub pair_deltas-all_deltas :
      (ref other : List SkewEntry)
      → Sorted entry_less ref
      → Sorted entry_less other
      → pair_deltas anchor ref other ≡ all_deltas ref other
  unfolding pair_deltas
  pair_deltas-all_deltas [] other s t = refl
  pair_deltas-all_deltas (r ∷ rs) other s t = rw (
    scan_lem r (advance anchor r other) (advance-Sorted r other t) (advance-Entered r other t),
    deltas_of-advance r r other (self r),
    pair_deltas-all_deltas rs (advance anchor r other) s.1 (advance-Sorted r other t),
    all_deltas-advance r rs other s.0,
  )
    where
      self : (r : SkewEntry) → entry_less r r ≡ false
      self r = ground arith
