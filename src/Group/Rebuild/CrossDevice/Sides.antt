-- ===== src/Group/Rebuild/CrossDevice/Sides.antt =====
-- Maps by device that are read in the order of the devices: pushing a value adds it once.
use Prim.Native.String.{String}
use text.Mathlib.Text.{◌==◌ as str_eq}
use text.Mathlib.TextEquality.{eq_iff}
use mathlib.Core.List.Perm
use mathlib.Core.List.{perm_middle, perm_append_singleton}
use choix.Base.{
  List, [], ◌∷◌, ◌++◌, map, true, false, ◌≡◌, ◌≢◌, refl, sym, ap, subst, ◌∙◌, Perm, concat, In,
  In-append_left, Bool-cases, inl, inr,
}
use choix.Base.Distinct.{Distinct, Distinct-snoc}
use choix.Base.Multimap.{push, values_of}
use choix.Group.Rebuild.CrossDevice.{is_seen, see}

pub seen_lem : (dev : String) (order : List String) → is_seen dev order ≡ true → In dev order
unfolding is_seen
seen_lem dev [] h = absurd cc
seen_lem dev (d ∷ ds) h = elim (Bool-cases (str_eq d dev)) [
  | inl t ↦ inl (sym ((eq_iff d dev).0 t))
  | inr t ↦ inr (seen_lem dev ds (rw t at h))
]

unseen_lem : (dev : String) (order : List String) → is_seen dev order ≡ false → ¬ In dev order
unfolding is_seen
unseen_lem dev [] h m = m
unseen_lem dev (d ∷ ds) h m = elim (Bool-cases (str_eq d dev)) [
  | inl t ↦ let q = rw t at h in absurd cc
  | inr t ↦ elim m [
    | inl e ↦ let q = sym t ∙ (eq_iff d dev).1 (sym e) in absurd cc
    | inr k ↦ unseen_lem dev ds (rw t at h) k
  ]
]

In-last : (dev : String) (xs : List String) → In dev (xs ++ dev ∷ [])
In-last dev [] = inl refl
In-last dev (x ∷ xs) = inr (In-last dev xs)

pub In-see : (dev : String) (order : List String) → In dev (see dev order)
In-see dev order = elim (Bool-cases (is_seen dev order)) [
  | inl t ↦ rw t (seen_lem dev order t)
  | inr t ↦ rw t (In-last dev order)
]

pub see-Distinct : (dev : String) (order : List String) → Distinct order → Distinct (see dev order)
see-Distinct dev order h = elim (Bool-cases (is_seen dev order)) [
  | inl t ↦ rw t h
  | inr t ↦ rw t (Distinct-snoc dev order (unseen_lem dev order t) h)
]

pub In-see_old : (d dev : String) (order : List String) → In d order → In d (see dev order)
In-see_old d dev order i = elim (Bool-cases (is_seen dev order)) [
  | inl t ↦ rw t i
  | inr t ↦ rw t (In-append_left d order (dev ∷ []) i)
]

module _ {V : Type 0} where
  -- All values, device by device.
  abbrev pub total : List (String × List V) → List String → List V
  total m order = concat (map (λ d. values_of str_eq d m) order)

  -- A device that is not in the order has no values.
  abbrev pub Covers : List (String × List V) → List String → Type 0
  Covers m order = (d : String) → ¬ In d order → values_of str_eq d m ≡ []

  values_of-push_same :
      (k : String) (v : V) (m : List (String × List V))
      → values_of str_eq k (push str_eq k v m) ≡ values_of str_eq k m ++ v ∷ []
  unfolding values_of push
  values_of-push_same k v [] = rw ((eq_iff k k).1 refl) refl
  values_of-push_same k v ((j, vs) ∷ m) = elim (Bool-cases (str_eq j k)) [
    | inl t ↦ rw (t, t) refl
    | inr t ↦ rw (t, t) (values_of-push_same k v m)
  ]

  pub values_of-push_other :
      (k d : String) (v : V) (m : List (String × List V))
      → d ≢ k
      → values_of str_eq d (push str_eq k v m) ≡ values_of str_eq d m
  unfolding values_of push
  values_of-push_other k d v [] n = elim (Bool-cases (str_eq k d)) [
    | inl t ↦ absurd (n (sym ((eq_iff k d).0 t)))
    | inr t ↦ rw t refl
  ]
  values_of-push_other k d v ((j, vs) ∷ m) n = elim (Bool-cases (str_eq j k)) [
    | inl t ↦ elim (Bool-cases (str_eq j d)) [
      | inl u ↦ absurd (n (sym ((eq_iff j d).0 u) ∙ (eq_iff j k).0 t))
      | inr u ↦ rw (t, u) refl
    ]
    | inr t ↦ elim (Bool-cases (str_eq j d)) [
      | inl u ↦ rw (t, u) refl
      | inr u ↦ rw (t, u) (values_of-push_other k d v m n)
    ]
  ]

  total-push_absent :
      (k : String) (v : V) (m : List (String × List V)) (order : List String)
      → ¬ In k order
      → total (push str_eq k v m) order ≡ total m order
  total-push_absent k v m [] n = refl
  total-push_absent k v m (d ∷ ds) n =
      rw
        (
          values_of-push_other k d v m (λ e. n (inl (sym e))),
          total-push_absent k v m ds (λ i. n (inr i)),
        )
        refl

  pub total-push :
      (k : String) (v : V) (m : List (String × List V)) (order : List String)
      → In k order
      → Distinct order
      → Perm (total (push str_eq k v m) order) (v ∷ total m order)
  total-push k v m [] i h = absurd i
  total-push k v m (d ∷ ds) i h = elim (Bool-cases (str_eq d k)) [
    | inl t ↦
        let e = (eq_iff d k).0 t in
        rw
          (
            ap (λ z. values_of str_eq z (push str_eq k v m)) e,
            ap (λ z. values_of str_eq z m) e,
            values_of-push_same k v m,
            total-push_absent k v m ds (subst (λ z. ¬ In z ds) e h.0),
          )
          (Perm.append_right (total m ds) (perm_append_singleton v (values_of str_eq k m)))
    | inr t ↦ elim i [
      | inl e ↦ let q = sym t ∙ (eq_iff d k).1 (sym e) in absurd cc
      | inr j ↦
          let ne : d ≢ k = λ e. let q = sym t ∙ (eq_iff d k).1 e in cc in
          rw (values_of-push_other k d v m ne) (
            Perm.trans (Perm.append_left (values_of str_eq d m) (total-push k v m ds j h.1))
              (perm_middle (values_of str_eq d m) (total m ds)))
    ]
  ]

  total-snoc :
      (m : List (String × List V)) (order : List String) (dev : String)
      → values_of str_eq dev m ≡ []
      → total m (order ++ dev ∷ []) ≡ total m order
  total-snoc m [] dev h = rw h refl
  total-snoc m (d ∷ ds) dev h = rw (total-snoc m ds dev h) refl

  -- Seeing a device changes no total.
  pub total-see :
      (m : List (String × List V)) (order : List String) (dev : String)
      → Covers m order
      → total m (see dev order) ≡ total m order
  total-see m order dev c = elim (Bool-cases (is_seen dev order)) [
    | inl t ↦ rw t refl
    | inr t ↦ rw t (total-snoc m order dev (c dev (unseen_lem dev order t)))
  ]

  pub Covers-see :
      (m : List (String × List V)) (order : List String) (dev : String)
      → Covers m order
      → Covers m (see dev order)
  Covers-see m order dev c d n = c d (λ i. n (In-see_old d dev order i))

  pub Covers-push :
      (m : List (String × List V)) (order : List String) (dev : String) (v : V)
      → Covers m order
      → Covers (push str_eq dev v m) (see dev order)
  Covers-push m order dev v c d n =
      values_of-push_other dev d v m
        (λ e. n (subst (λ z. In z (see dev order)) (sym e) (In-see dev order)))
      ∙ c d (λ i. n (In-see_old d dev order i))

  pub Covers-nil : (order : List String) → Covers [] order
  unfolding values_of
  Covers-nil order d n = refl

  -- Pushing a value and seeing its device adds the value once.
  pub total-push_see :
      (dev : String) (v : V) (m : List (String × List V)) (order : List String)
      → Distinct order
      → Covers m order
      → Perm (total (push str_eq dev v m) (see dev order)) (v ∷ total m order)
  total-push_see dev v m order h c =
      subst (λ z. Perm (total (push str_eq dev v m) (see dev order)) (v ∷ z))
        (total-see m order dev c)
        (total-push dev v m (see dev order) (In-see dev order) (see-Distinct dev order h))
