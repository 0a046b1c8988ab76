-- ===== src/Group/Rebuild/CrossDevice/DeviceSets.antt =====
-- The devices of a group of ids, and the key that they give it.
use Prim.Native.String.{String}
use choix.Base.{
  ℕ, List, [], ◌∷◌, ◌≡◌, ◌≢◌, refl, sym, subst, ◌∙◌, In, inl, inr, ◌⊎◌, Bool-cases, In-append_cases,
}
use choix.Base.Distinct.{Distinct}
use choix.Group.Rebuild.CrossDevice.{merged_device_key, is_seen, see, device_set, key_of}
use choix.Group.Rebuild.CrossDevice.Sides.{In-see, In-see_old, see-Distinct}

In-see_cases : (x dev : String) (set : List String) → In x (see dev set) → (x ≡ dev) ⊎ In x set
In-see_cases x dev set i = elim (Bool-cases (is_seen dev set)) [
  | inl t ↦ inr (rw t at i)
  | inr t ↦ elim (In-append_cases x set (dev ∷ []) (rw t at i)) [
    | inl k ↦ inr k
    | inr (inl e) ↦ inl e
    | inr (inr k) ↦ absurd k
  ]
]

module _ (device : ℕ → String) where
  -- The set has each device of the group, and nothing else beside what it had before.
  device_set-Distinct :
      (ids : List ℕ) (set : List String) → Distinct set → Distinct (device_set device ids set)
  unfolding device_set
  device_set-Distinct [] set h = h
  device_set-Distinct (id ∷ ids) set h =
      device_set-Distinct ids (see (device id) set) (see-Distinct (device id) set h)

  In-device_set_old :
      (x : String) (ids : List ℕ) (set : List String) → In x set → In x (device_set device ids set)
  unfolding device_set
  In-device_set_old x [] set i = i
  In-device_set_old x (id ∷ ids) set i =
      In-device_set_old x ids (see (device id) set) (In-see_old x (device id) set i)

  In-device_set :
      (id : ℕ) (ids : List ℕ) (set : List String)
      → In id ids
      → In (device id) (device_set device ids set)
  unfolding device_set
  In-device_set id [] set i = absurd i
  In-device_set id (j ∷ ids) set (inl e) =
      In-device_set_old (device id) ids (see (device j) set)
        (subst (λ z. In (device id) (see (device z) set)) e (In-see (device id) set))
  In-device_set id (j ∷ ids) set (inr i) = In-device_set id ids (see (device j) set) i

  In-device_set_cases :
      (x : String) (ids : List ℕ) (set : List String)
      → In x (device_set device ids set)
      → ((id : ℕ) × In id ids × (x ≡ device id)) ⊎ In x set
  unfolding device_set
  In-device_set_cases x [] set i = inr i
  In-device_set_cases x (id ∷ ids) set i =
      elim (In-device_set_cases x ids (see (device id) set) i) [
        | inl (j, k, e) ↦ inl (j, inr k, e)
        | inr k ↦ elim (In-see_cases x (device id) set k) [
          | inl e ↦ inl (id, inl refl, e)
          | inr m ↦ inr m
        ]
      ]

  -- Either all members are of the device that the key names, or the key is the merged one and two
  -- members are of different devices; a cluster without members has the merged key.
  abbrev pub IsKeyed : List ℕ → String → Type 0
  IsKeyed group key =
      ((id : ℕ) → In id group → device id ≡ key)
      ⊎ ((key ≡ merged_device_key)
          × (a : ℕ) × (b : ℕ) × In a group
          × In b group
          × (device a ≢ device b))

  pub key_of-IsKeyed : (group : List ℕ) → IsKeyed group (key_of (device_set device group []))
  key_of-IsKeyed group =
      by_set (device_set device group []) (device_set-Distinct group [] tt)
        (λ id i. In-device_set id group [] i)
        (λ x i. elim (In-device_set_cases x group [] i) [ inl r ↦ r | inr k ↦ absurd k ])
    where
      by_set :
          (set : List String)
          → Distinct set
          → ((id : ℕ) → In id group → In (device id) set)
          → ((x : String) → In x set → (id : ℕ) × In id group × (x ≡ device id))
          → IsKeyed group (key_of set)
      by_set [] d all only = inl (λ id i. absurd (all id i))
      by_set (k ∷ []) d all only = inl (λ id i. elim (all id i) [ inl e ↦ e | inr n ↦ absurd n ])
      by_set (k ∷ l ∷ set) d all only =
          let (a, i, e) = only k (inl refl) in
          let (b, j, f) = only l (inr (inl refl)) in
          inr (refl, a, b, i, j, λ q. d.0 (inl (e ∙ q ∙ sym f)))
