-- ===== src/Picks/Export/Target.antt =====
-- The search of resolveTarget: it ends, and at the first slot that is free or holds the content.
use Prim.Native.String.{String}
use text.Mathlib.Text.{◌==◌ as str_eq}
use text.Mathlib.TextEquality.{eq_iff}
use choix.Base.{
  ℕ, zero, suc, ◌≤◌, ◌<◌, Option, some, none, List, [], ◌∷◌, true, ◌==◌, ◌⊎◌, inl, inr, length, ◌≡◌,
  refl, sym, ap, subst, ◌∙◌, arith, In, All, map, Bool-cases, Option-cases, ◌≢◌, ==_iff,
}
use choix.Base.Paths.{join}
use choix.Base.Distinct.{Distinct, Distinct-length-le}
use choix.Store.Files.{File}
use choix.Picks.Disk.{read, In-read, str_eq_of_eq, str_eq-of_ne}
use choix.Picks.Export.{
  Os, Slot, free, same, failed, suffixed_path, candidate, hash_if_exists, settle, resolve,
  resolve_target,
}
use choix.Picks.Export.Candidates.{suffixed-inj}

module _ {C : Type 0} where
  abbrev paths : List (String × C) → List String
  paths d = map (λ e. e.0) d

  length-paths : (d : List (String × C)) → length (paths d) ≡ length d
  length-paths [] = refl
  length-paths (e ∷ d) = ap suc (length-paths d)

-- The absolute paths of k candidates from the n-th on.
abbrev slots : String → String → ℕ → ℕ → List String
slots root slot n zero = []
slots root slot n (suc k) = join root (candidate slot n) ∷ slots root slot (suc n) k

length-slots : (root slot : String) (n k : ℕ) → length (slots root slot n k) ≡ k
length-slots root slot n zero = refl
length-slots root slot n (suc k) = ap suc (length-slots root slot (suc n) k)

In-slots :
    (root slot a : String) (n k : ℕ)
    → In a (slots root slot n k)
    → (m : ℕ) × (n ≤ m) × (a ≡ join root (candidate slot m))
In-slots root slot a n zero h = absurd h
In-slots root slot a n (suc k) (inl e) = (n, omega arith, e)
In-slots root slot a n (suc k) (inr h) =
    let (m, l, e) = In-slots root slot a (suc n) k h in (m, omega (arith, l), e)

candidate-suffixed : (slot : String) (n : ℕ) → 2 ≤ n → candidate slot n ≡ suffixed_path slot n
unfolding candidate
candidate-suffixed slot n h = ground (arith, h)

slots-Distinct : (root slot : String) (n k : ℕ) → 2 ≤ n → Distinct (slots root slot n k)
slots-Distinct root slot n zero h = tt
slots-Distinct root slot n (suc k) h = (
  λ i.
      let (m, l, e) = In-slots root slot (join root (candidate slot n)) (suc n) k i in
      let q = suffixed-inj root slot n m (
        ap (join root) (sym (candidate-suffixed slot n h))
        ∙ e
        ∙ ap (join root) (candidate-suffixed slot m (omega (arith, h, l)))) in
      omega (arith, l, q),
  slots-Distinct root slot (suc n) k (omega (arith, h)),
)

module _ {C : Type 0} (os : Os C) (scan_root picks_dir : String) where
  -- A round that goes on has found a file at the candidate.
  settle-none :
      (wanted rel abs : String) (d : List (String × C)) (next : Option Slot)
      → settle os scan_root picks_dir wanted rel abs
          (hash_if_exists os scan_root picks_dir abs d)
          next
        ≡ none
      → In abs (paths d) × (next ≡ none)
  unfolding hash_if_exists
  settle-none wanted rel abs d next h = elim (Bool-cases (os.probe_fails abs)) [
    | inl t ↦ let q = rw t at h in absurd cc
    | inr t ↦ elim (Option-cases (read abs d)) [
      | inl e ↦ let q = rw (t, e) at h in absurd cc
      | inr (c, e) ↦ (In-read abs c d e, skipped (os.content_hash c) (rw (t, e) at h))
    ]
  ]
    where
      skipped :
          (existing : String)
          → settle os scan_root picks_dir wanted rel abs (inr existing) next ≡ none
          → next ≡ none
      skipped existing k = ground (arith, k)

  resolve-none :
      (wanted slot : String) (fuel n : ℕ) (d : List (String × C))
      → resolve os scan_root picks_dir wanted slot fuel n d ≡ none
      → All (λ a. In a (paths d)) (slots scan_root slot n fuel)
  unfolding resolve
  resolve-none wanted slot zero n d h = tt
  resolve-none wanted slot (suc fuel) n d h =
      let (i, k) =
        settle-none wanted (candidate slot n) (join scan_root (candidate slot n)) d
          (resolve os scan_root picks_dir wanted slot fuel (suc n) d) h in
      (i, resolve-none wanted slot fuel (suc n) d k)

  -- The loop of resolveTarget ends: among one candidate more than the disk has files, one answers.
  pub resolve_target-returns :
      (f : File) (d : List (String × C))
      → (t : Slot) × (resolve_target os scan_root picks_dir f d ≡ some t)
  unfolding resolve_target
  resolve_target-returns f d = elim (Option-cases (resolve_target os scan_root picks_dir f d)) [
    | inr r ↦ r
    | inl e ↦
        let slot = join picks_dir f.path in
        let taken = (resolve-none f.content_hash slot (suc (suc (length d))) 1 d e).1 in
        let few =
          Distinct-length-le (slots scan_root slot 2 (suc (length d))) (paths d)
            (slots-Distinct scan_root slot 2 (suc (length d)) (omega arith)) taken in
        absurd (omega (arith, few, length-slots scan_root slot 2 (suc (length d)), length-paths d))
  ]

  -- The n-th candidate holds a file with another content.
  abbrev pub IsTaken : String → String → List (String × C) → ℕ → Type 0
  IsTaken wanted slot d n =
      (c : C) × (read (join scan_root (candidate slot n)) d ≡ some c) × (os.content_hash c ≢ wanted)

  -- What an answer says of the disk: it is the first candidate that is not taken.
  abbrev pub IsAnswer : String → String → List (String × C) → ℕ → Slot → Type 0
  IsAnswer wanted slot d n (free rel abs) =
      (rel ≡ candidate slot n) × (abs ≡ join scan_root rel) × (read abs d ≡ none)
  IsAnswer wanted slot d n (same rel) =
      (rel ≡ candidate slot n)
      × (c : C) × (read (join scan_root rel) d ≡ some c)
      × (os.content_hash c ≡ wanted)
  IsAnswer wanted slot d n (failed e) = os.probe_fails (join scan_root (candidate slot n)) ≡ true

  abbrev pub IsFirst : String → String → List (String × C) → ℕ → Slot → Type 0
  IsFirst wanted slot d n t =
      (m : ℕ) × (n ≤ m)
      × IsAnswer wanted slot d m t
      × ((k : ℕ) → n ≤ k → k < m → IsTaken wanted slot d k)

  some_inj : (s t : Slot) → some s ≡ some t → s ≡ t
  some_inj s t e = cc

  found :
      (wanted slot : String) (n : ℕ) (d : List (String × C)) (c : C) (next : Option Slot) (t : Slot)
      → os.content_hash c ≢ ""
      → read (join scan_root (candidate slot n)) d ≡ some c
      → settle os scan_root picks_dir wanted
          (candidate slot n)
          (join scan_root (candidate slot n))
          (inr (os.content_hash c))
          next
        ≡ some t
      → IsAnswer wanted slot d n t ⊎ (IsTaken wanted slot d n × (next ≡ some t))
  found wanted slot n d c next t nonempty r h =
      elim (Bool-cases (str_eq (os.content_hash c) wanted)) [
        | inl u ↦
            let e =
              some_inj (same (candidate slot n)) t (rw (str_eq-of_ne _ "" nonempty, u) at h) in
            inl (
              subst (IsAnswer wanted slot d n) e
                (refl, c, r, (eq_iff (os.content_hash c) wanted).0 u))
        | inr u ↦ inr (
          (c, r, λ e. let q = sym u ∙ str_eq_of_eq (os.content_hash c) wanted e in cc),
          rw (str_eq-of_ne _ "" nonempty, u) at h,
        )
      ]

  settle-some :
      (wanted slot : String) (n : ℕ) (d : List (String × C)) (next : Option Slot) (t : Slot)
      → ((c : C) → os.content_hash c ≢ "")
      → settle os scan_root picks_dir wanted
          (candidate slot n)
          (join scan_root (candidate slot n))
          (hash_if_exists os scan_root picks_dir (join scan_root (candidate slot n)) d)
          next
        ≡ some t
      → IsAnswer wanted slot d n t ⊎ (IsTaken wanted slot d n × (next ≡ some t))
  unfolding hash_if_exists
  settle-some wanted slot n d next t nonempty h =
      let abs = join scan_root (candidate slot n) in
      elim (Bool-cases (os.probe_fails abs)) [
        | inl u ↦ inl (subst (IsAnswer wanted slot d n) (some_inj _ t (rw u at h)) u)
        | inr u ↦ elim (Option-cases (read abs d)) [
          | inl e ↦ inl (
              subst (IsAnswer wanted slot d n)
                (some_inj (free (candidate slot n) abs) t (rw (u, e) at h)) (refl, refl, e))
          | inr (c, e) ↦ found wanted slot n d c next t (nonempty c) e (rw (u, e) at h)
        ]
      ]

  later :
      (wanted slot : String) (d : List (String × C)) (n : ℕ) (t : Slot)
      → IsTaken wanted slot d n
      → IsFirst wanted slot d (suc n) t
      → IsFirst wanted slot d n t
  later wanted slot d n t taken (m, l, a, below) = (
    m,
    omega (arith, l),
    a,
    λ k lo hi. elim (Bool-cases (k == n)) [
      | inl e ↦ subst (IsTaken wanted slot d) (sym ((==_iff k n).0 e)) taken
      | inr e ↦ below k (ground (arith, lo, e)) hi
    ],
  )

  resolve-IsFirst :
      (wanted slot : String) (fuel n : ℕ) (d : List (String × C)) (t : Slot)
      → ((c : C) → os.content_hash c ≢ "")
      → resolve os scan_root picks_dir wanted slot fuel n d ≡ some t
      → IsFirst wanted slot d n t
  unfolding resolve
  resolve-IsFirst wanted slot zero n d t nonempty h = absurd cc
  resolve-IsFirst wanted slot (suc fuel) n d t nonempty h =
      let next = resolve os scan_root picks_dir wanted slot fuel (suc n) d in
      elim (settle-some wanted slot n d next t nonempty h) [
        | inl a ↦ (n, omega arith, a, λ k lo hi. absurd (omega (arith, lo, hi)))
        | inr (taken, k) ↦
            later wanted slot d n t taken (resolve-IsFirst wanted slot fuel (suc n) d t nonempty k)
      ]

  -- resolveTarget always answers, and with the first of base, base_2, base_3, ... at which no file
  -- stands, or one with the content hash of the picked file, or which cannot be read; at every
  -- candidate before it stands a file with another hash. (xxhash prints 16 digits, never none.)
  pub resolve_target-IsFirst :
      (f : File) (d : List (String × C))
      → ((c : C) → os.content_hash c ≢ "")
      → (t : Slot) × (resolve_target os scan_root picks_dir f d ≡ some t)
        × IsFirst f.content_hash (join picks_dir f.path) d 1 t
  unfolding resolve_target
  resolve_target-IsFirst f d nonempty =
      let (t, e) = resolve_target-returns f d in
      (
        t,
        e,
        resolve-IsFirst f.content_hash (join picks_dir f.path) (suc (suc (length d))) 1 d t nonempty
            e,
      )
