-- ===== src/Group/Rebuild/CrossDevice.antt =====
-- internal/group/group.go: rebuildAllCrossDevice, one canonical timeline for all devices.
pub mod Sides
pub mod Collect
pub mod Whole
pub mod DeviceSets
pub mod Keys
use Prim.Native.String.{String}
use text.Mathlib.Text.{◌==◌ as str_eq}
use choix.Base.{
  ℕ, Option, some, none, List, [], ◌∷◌, ◌++◌, map, concat, if◌then◌else◌, Bool, true, false, ltb,
  ◌==◌,
}
use choix.Base.Int.{ℤ, pos, ◌-ℤ◌, ltb_ℤ, eqb_ℤ}
use choix.Base.Floats.{Floats}
use choix.Base.Maps.{lookup}
use choix.Base.Multimap.{push, values_of}
use choix.Base.Sort.{sort_by}
use choix.Store.Files.{File}
use choix.Store.Clusters.{ClusterDef}
use choix.Group.Visual.{Embeds, sort_ids}
use choix.Group.Walk.{walk}
use choix.Group.Bucket.{RunFile, sort_run_files, cluster_ids}
use choix.Group.Rebuild.{device_of, run_file, cluster_def}
use choix.Group.Skew.{estimate_skew}

abbrev pub merged_device_key : String
merged_device_key = "*merged*"

-- `skew[dev]`: 0 for a device with no entry. No entry of EstimateSkew is `none`.
unfoldable pub skew_of : String → List (String × Option ℤ) → ℤ
skew_of dev [] = pos 0
skew_of dev ((d, none) ∷ m) = if str_eq d dev then pos 0 else skew_of dev m
skew_of dev ((d, some s) ∷ m) = if str_eq d dev then s else skew_of dev m

-- The first loop sorts the files into these: timed, noEmbByDevice, noTimeByDevice and deviceOrder,
-- whose members are the keys of seenDev.
pub record Parts : Type 0 where
  pub timed : List RunFile
  pub no_emb : List (String × List RunFile)
  pub no_time : List (String × List ℕ)
  pub order : List String

unfoldable pub is_seen : String → List String → Bool
is_seen dev [] = false
is_seen dev (d ∷ ds) = if str_eq d dev then true else is_seen dev ds

abbrev pub see : String → List String → List String
see dev order = if is_seen dev order then order else order ++ dev ∷ []

-- CapturedAt.Int64, which is 0 for NULL.
abbrev pub int64 : Option ℤ → ℤ
int64 none = pos 0
int64 (some t) = t

-- The order of the canonical timeline.
unfoldable pub timed_less : RunFile → RunFile → Bool
timed_less f g =
    if eqb_ℤ (int64 f.captured_at) (int64 g.captured_at)
    then ltb f.id g.id
    else ltb_ℤ (int64 f.captured_at) (int64 g.captured_at)

-- `idDevice[id]`, where a later member with the same id replaces an earlier one.
unfoldable pub id_device : String → ℕ → List RunFile → String
id_device found id [] = found
id_device found id (f ∷ fs) = id_device (if f.id == id then f.device_key else found) id fs

-- The devices of a group, each once.
unfoldable pub device_set : (ℕ → String) → List ℕ → List String → List String
unfolding is_seen
device_set device [] set = set
device_set device (id ∷ ids) set = device_set device ids (see (device id) set)

abbrev pub key_of : List String → String
key_of (d ∷ []) = d
key_of _ = merged_device_key

abbrev pub timed_at : RunFile → Option ℤ
timed_at f = some (int64 f.captured_at)

-- The shots of a device without embeddings: one cluster for each bucket.
abbrev pub emit_plain : String → Option ℤ → List RunFile → List ClusterDef
emit_plain dev start fs = cluster_def dev start (map (λ f. f.id) fs) ∷ []

unfoldable pub plain_defs : ℤ → String → List RunFile → List ClusterDef
unfolding walk sort_run_files
plain_defs bucket_sec dev [] = []
plain_defs bucket_sec dev (f ∷ fs) =
    walk (emit_plain dev) bucket_sec timed_at (sort_run_files (f ∷ fs))

-- The shots of a device without a time: a cluster each.
unfoldable pub untimed_defs : String → List ℕ → List ClusterDef
untimed_defs dev ids = map (λ id. cluster_def dev none (id ∷ [])) (sort_ids ids)

module _ (fl : Floats) (range : List (ℕ × List ℕ) → List (ℕ × List ℕ)) (embeds : Embeds fl)
    (threshold : fl.Float64) (bucket_sec : ℤ) where
  -- One file of the first loop, by its time and its embedding.
  abbrev pub file_part :
      (String → ℤ) → File → String → Option ℤ → Option (List fl.Float32) → Parts → Parts
  file_part skew f dev none e p = record p {
    no_time = push str_eq dev f.id p.no_time;
    order = see dev p.order;
  }
  file_part skew f dev (some t) none p = record p {
    no_emb = push str_eq dev (run_file f) p.no_emb;
    order = see dev p.order;
  }
  file_part skew f dev (some t) (some e) p = record p {
    timed =
        p.timed
        ++ (record { id = f.id; device_key = dev; captured_at = some (t -ℤ skew dev) }) ∷ [];
    order = see dev p.order;
  }

  unfoldable pub add_part : (String → ℤ) → File → Parts → Parts
  unfolding push is_seen device_of lookup
  add_part skew f p = file_part skew f (device_of f.device_key) f.captured_at (lookup f.id embeds) p

  unfoldable pub add_parts : (String → ℤ) → List File → Parts → Parts
  unfolding add_part
  add_parts skew [] p = p
  add_parts skew (f ∷ fs) p = add_parts skew fs (add_part skew f p)

  -- `emit`: a group whose members are of one device has its key, any other the merged one.
  unfoldable pub emit_merged : Option ℤ → List RunFile → List ClusterDef
  unfolding cluster_ids device_set id_device
  emit_merged start members =
      map
        (λ group.
          cluster_def (key_of (device_set (λ id. id_device "" id members) group [])) start group)
        (cluster_ids fl range (map (λ f. f.id) members) embeds threshold)

  unfoldable pub timed_defs : List RunFile → List ClusterDef
  unfolding emit_merged walk timed_less
  timed_defs timed = walk emit_merged bucket_sec timed_at (sort_by timed_less timed)

  unfoldable pub parts_defs : Parts → List ClusterDef
  unfolding timed_defs plain_defs untimed_defs values_of
  parts_defs p =
      timed_defs p.timed
      ++ (concat (map (λ dev. plain_defs bucket_sec dev (values_of str_eq dev p.no_emb)) p.order)
          ++ concat (map (λ dev. untimed_defs dev (values_of str_eq dev p.no_time)) p.order))

  -- The clusters that rebuildAllCrossDevice hands to WriteClusters; `ctx_err` is ctx.Err().
  unfoldable pub cross_device_defs : (ctx_err : Bool) → List File → Option (List ClusterDef)
  unfolding add_parts parts_defs skew_of estimate_skew
  cross_device_defs ctx_err files =
      let skew = estimate_skew fl files embeds in
      let p =
        add_parts (λ dev. skew_of dev skew) files
          (record { timed = []; no_emb = []; no_time = []; order = [] }) in
      if ctx_err then none else some (parts_defs p)
