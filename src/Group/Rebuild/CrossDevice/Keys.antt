-- ===== src/Group/Rebuild/CrossDevice/Keys.antt =====
-- Cross-device mode: the device key of a cluster tells whether its members are of one device.
use Prim.Native.String.{String}
use choix.Base.{
  ℕ, Option, List, [], ◌∷◌, map, ◌≡◌, ◌≢◌, refl, sym, subst, ◌∙◌, In, inl, inr, ◌⊎◌, All,
  Bool-cases, In-append_left, In-append_right, ap, concat, Perm, true, ◌==◌, ==_iff, if◌then◌else◌,
}
use choix.Base.Perms.{In-perm_ids}
use choix.Group.Bucket.Laws.{cluster_ids-perm}
use choix.Group.Rebuild.Members.{run_ids}
use choix.Base.Int.{ℤ}
use choix.Base.Floats.{Floats}
use choix.Base.Distinct.{Distinct}
use choix.Store.Clusters.{ClusterDef}
use choix.Group.Visual.{Embeds}
use choix.Group.Bucket.{RunFile, cluster_ids}
use choix.Group.Rebuild.{cluster_def}
use choix.Group.Rebuild.CrossDevice.{merged_device_key, id_device, device_set, key_of, emit_merged}
use choix.Group.Rebuild.CrossDevice.DeviceSets.{IsKeyed, key_of-IsKeyed}

-- A shot of the bucket that belongs to the cluster.
abbrev pub IsShot : List RunFile → ClusterDef → RunFile → Type 0
IsShot members d f = In f members × In f.id d.members

-- Every shot of the cluster is of the device that the key names; or the key is the merged one, and
-- two shots of the cluster are of different devices.
abbrev pub Names : List RunFile → ClusterDef → Type 0
Names members d =
    ((f : RunFile) → IsShot members d f → f.device_key ≡ d.device_key)
    ⊎ ((d.device_key ≡ merged_device_key)
        × (f : RunFile) × (g : RunFile) × IsShot members d f
        × IsShot members d g
        × (f.device_key ≢ g.device_key))

In-run_ids : (f : RunFile) (members : List RunFile) → In f members → In f.id (run_ids members)
In-run_ids f [] i = absurd i
In-run_ids f (m ∷ members) (inl e) = inl (ap (λ (g : RunFile). g.id) e)
In-run_ids f (m ∷ members) (inr i) = inr (In-run_ids f members i)

shot_of :
    (id : ℕ) (members : List RunFile)
    → In id (run_ids members)
    → (f : RunFile) × In f members × (f.id ≡ id)
shot_of id [] i = absurd i
shot_of id (m ∷ members) (inl e) = (m, inl refl, sym e)
shot_of id (m ∷ members) (inr i) = let (f, k, e) = shot_of id members i in (f, inr k, e)

id_device-absent :
    (found : String) (id : ℕ) (members : List RunFile)
    → ¬ In id (run_ids members)
    → id_device found id members ≡ found
unfolding id_device
id_device-absent found id [] n = refl
id_device-absent found id (m ∷ members) n = elim (Bool-cases (m.id == id)) [
  | inl t ↦ absurd (n (inl (sym ((==_iff m.id id).0 t))))
  | inr t ↦ rw t (id_device-absent found id members (λ i. n (inr i)))
]

-- The map gives the device of the shot with that id, since ids are distinct.
id_device_lem :
    (found : String) (f : RunFile) (members : List RunFile)
    → Distinct (run_ids members)
    → In f members
    → id_device found f.id members ≡ f.device_key
unfolding id_device
id_device_lem found f [] d i = absurd i
id_device_lem found f (m ∷ members) d (inl e) =
    let gone : ¬ In f.id (run_ids members) =
      subst (λ (g : RunFile). ¬ In g.id (run_ids members)) (sym e) d.0 in
    let same : m.id ≡ f.id = ap (λ (g : RunFile). g.id) (sym e) in
    let here : (m.id == f.id) ≡ true = (==_iff m.id f.id).1 same in
    rw here
      (id_device-absent m.device_key f.id members gone ∙ ap (λ (g : RunFile). g.device_key) (sym e))
id_device_lem found f (m ∷ members) d (inr i) =
    id_device_lem (if m.id == f.id then m.device_key else found) f members d.1 i

In-concat_all :
    (gs : List (List ℕ)) (ids : List ℕ)
    → ((a : ℕ) → In a (concat gs) → In a ids)
    → All (λ g. (a : ℕ) → In a g → In a ids) gs
In-concat_all [] ids h = tt
In-concat_all (g ∷ gs) ids h = (
  λ a i. h a (In-append_left a g (concat gs) i),
  In-concat_all gs ids (λ a i. h a (In-append_right a g (concat gs) i)),
)

IsKeyed-Names :
    (members : List RunFile) (d : ClusterDef)
    → Distinct (run_ids members)
    → ((a : ℕ) → In a d.members → In a (run_ids members))
    → IsKeyed (λ id. id_device "" id members) d.members d.device_key
    → Names members d
IsKeyed-Names members d distinct known (inl h) =
    inl (λ f s. sym (id_device_lem "" f members distinct s.0) ∙ h f.id s.1)
IsKeyed-Names members d distinct known (inr (k, a, b, i, j, n)) =
    let (f, m, e) = shot_of a members (known a i) in
    let (g, l, q) = shot_of b members (known b j) in
    let of_f : id_device "" a members ≡ f.device_key =
      ap (λ z. id_device "" z members) (sym e) ∙ id_device_lem "" f members distinct m in
    let of_g : id_device "" b members ≡ g.device_key =
      ap (λ z. id_device "" z members) (sym q) ∙ id_device_lem "" g members distinct l in
    inr (
      k,
      f,
      g,
      (m, subst (λ z. In z d.members) (sym e) i),
      (l, subst (λ z. In z d.members) (sym q) j),
      λ same. n (of_f ∙ same ∙ sym of_g),
    )

module _ (fl : Floats) (range : List (ℕ × List ℕ) → List (ℕ × List ℕ))
    (range_perm : (m : List (ℕ × List ℕ)) → Perm (range m) m) (embeds : Embeds fl)
    (threshold : fl.Float64) (bucket_sec : ℤ) where
  -- Every cluster of a bucket of the canonical timeline has the DeviceKey that all its shots have,
  -- or the merged key and two shots with different ones. The ids of the shots are distinct, and the
  -- map of clusters is ranged over in some order.
  pub emit_merged-IsKeyed :
      (start : Option ℤ) (members : List RunFile)
      → Distinct (run_ids members)
      → All (Names members) (emit_merged fl range embeds threshold bucket_sec start members)
  unfolding emit_merged
  emit_merged-IsKeyed start members distinct =
      let groups = cluster_ids fl range (run_ids members) embeds threshold in
      let p = cluster_ids-perm fl range range_perm (run_ids members) embeds threshold distinct in
      keyed groups (
        In-concat_all groups (run_ids members)
          (λ a i. In-perm_ids a (concat groups) (run_ids members) p i))
    where
      device : ℕ → String
      device id = id_device "" id members

      keyed :
          (groups : List (List ℕ))
          → All (λ g. (a : ℕ) → In a g → In a (run_ids members)) groups
          → All
              (Names members)
              (map (λ g. cluster_def (key_of (device_set device g [])) start g) groups)
      keyed [] h = tt
      keyed (g ∷ groups) h = (
        IsKeyed-Names members (cluster_def (key_of (device_set device g [])) start g) distinct h.0
            (key_of-IsKeyed device g),
        keyed groups h.1,
      )
