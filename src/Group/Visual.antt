-- ===== src/Group/Visual.antt =====
-- internal/group/visual.go: single-link clustering of embeddings by a union-find.
pub mod Forest
pub mod Links
pub mod Groups
pub mod Roots
pub mod Cluster
use choix.Base.{
  ℕ, zero, suc, ◌+◌, Option, some, none, List, [], ◌∷◌, ◌++◌, map, length, ltb, ◌==◌, Bool,
  if◌then◌else◌,
}
use choix.Base.Floats.{Floats}
use choix.Base.Maps.{lookup, keys, update}
use choix.Base.Sort.{sort_by}

-- `find` with path compression. The fuel bounds the length of the path to the root.
unfoldable pub find : ℕ → (ℕ → ℕ) → ℕ → ℕ × (ℕ → ℕ)
find zero parent x = (x, parent)
find (suc fuel) parent x =
    let rest = find fuel parent (parent x) in
    let compressed : ℕ × (ℕ → ℕ) = (rest.0, update rest.1 x rest.0) in
    if parent x == x then (x, parent) else compressed

unfoldable pub union : ℕ → (ℕ → ℕ) → ℕ → ℕ → (ℕ → ℕ)
union fuel parent a b =
    let (ra, p) = find fuel parent a in
    let (rb, q) = find fuel p b in if ra == rb then q else update q ra rb

-- The first loop: every id is its own parent. A key that was never set reads as 0.
unfoldable pub init_parent : List ℕ → (ℕ → ℕ) → (ℕ → ℕ)
init_parent [] parent = parent
init_parent (id ∷ ids) parent = init_parent ids (update parent id id)

-- The inner loop over j, and the outer loop over i. `similar` is the test of a pair.
unfoldable pub link_row : (ℕ → ℕ → Bool) → ℕ → ℕ → List ℕ → (ℕ → ℕ) → (ℕ → ℕ)
link_row similar fuel i [] parent = parent
link_row similar fuel i (j ∷ js) parent =
    link_row similar fuel i js (if similar i j then union fuel parent i j else parent)

unfoldable pub link_all : (ℕ → ℕ → Bool) → ℕ → List ℕ → (ℕ → ℕ) → (ℕ → ℕ)
link_all similar fuel [] parent = parent
link_all similar fuel (i ∷ is) parent = link_all similar fuel is (link_row similar fuel i is parent)

-- `groups[r] = append(groups[r], id)`
unfoldable pub append_group : ℕ → ℕ → List (ℕ × List ℕ) → List (ℕ × List ℕ)
append_group r id [] = (r, id ∷ []) ∷ []
append_group r id ((k, members) ∷ gs) =
    if k == r then (k, members ++ id ∷ []) ∷ gs else (k, members) ∷ append_group r id gs

unfoldable pub collect : ℕ → List ℕ → (ℕ → ℕ) → List (ℕ × List ℕ) → List (ℕ × List ℕ)
collect fuel [] parent groups = groups
collect fuel (id ∷ ids) parent groups =
    let (r, p) = find fuel parent id in collect fuel ids p (append_group r id groups)

-- `g[0]`; the groups that are compared are never empty.
abbrev pub first : List ℕ → ℕ
first [] = 0
first (x ∷ xs) = x

abbrev pub first_less : List ℕ → List ℕ → Bool
first_less g h = ltb (first g) (first h)

abbrev pub sort_ids : List ℕ → List ℕ
sort_ids = sort_by ltb

abbrev pub sort_groups : List (List ℕ) → List (List ℕ)
sort_groups = sort_by first_less

-- How many pairs the two loops visit: enough fuel for every `find`.
abbrev pub pairs : List ℕ → ℕ
pairs [] = 0
pairs (x ∷ xs) = length xs + pairs xs

abbrev pub find_fuel : List ℕ → ℕ
find_fuel ids = suc (suc (pairs ids))

-- `range groups` visits a map in an order that Go leaves open: `range` is any such order.
module _ (range : List (ℕ × List ℕ) → List (ℕ × List ℕ)) where
  unfoldable pub cluster_by : (ℕ → ℕ → Bool) → List ℕ → List (List ℕ)
  unfolding find union init_parent link_row link_all append_group collect
  cluster_by similar unsorted =
      let ids = sort_ids unsorted in
      let fuel = find_fuel ids in
      let parent = link_all similar fuel ids (init_parent ids (λ _. 0)) in
      sort_groups (map (λ g. sort_ids (g.1)) (range (collect fuel ids parent [])))

module _ (fl : Floats) where
  open fl use {Float32, Float64, widen, add, mul, lt}

  -- A map from file ids to embeddings.
  abbrev pub Embeds : Type 0
  Embeds = List (ℕ × List Float32)

  dot : Float64 → List Float32 → List Float32 → Float64
  dot s [] bs = s
  dot s (a ∷ as') [] = s
  dot s (a ∷ as') (b ∷ bs) = dot (add s (mul (widen a) (widen b))) as' bs

  unfoldable pub cosine : List Float32 → List Float32 → Float64
  unfolding dot
  cosine a b = if length a == length b then dot fl.zero a b else fl.zero

  -- `embeds[id]`, nil for a missing key.
  unfoldable pub embedding : Embeds → ℕ → List Float32
  unfolding lookup
  embedding embeds id = elim (lookup id embeds) [ none ↦ [] | some e ↦ e ]

  unfoldable pub similar : Embeds → Float64 → ℕ → ℕ → Bool
  similar embeds threshold i j = lt threshold (cosine (embedding embeds i) (embedding embeds j))

  unfoldable pub cluster :
      (List (ℕ × List ℕ) → List (ℕ × List ℕ)) → Embeds → Float64 → List (List ℕ)
  unfolding cluster_by similar
  cluster range embeds threshold = cluster_by range (similar embeds threshold) (keys embeds)
