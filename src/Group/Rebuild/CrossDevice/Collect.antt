-- ===== src/Group/Rebuild/CrossDevice/Collect.antt =====
-- Cross-device mode: the first loop puts every file into one of the three parts.
use Prim.Native.String.{String}
use mathlib.Core.List.Perm
use mathlib.Core.List.{append_assoc, map-append, perm_middle}
use choix.Base.{ℕ, Option, some, none, List, [], ◌∷◌, ◌++◌, map, Perm}
use choix.Base.Int.{ℤ}
use choix.Base.Floats.{Floats}
use choix.Base.Maps.{lookup}
use choix.Base.Distinct.{Distinct}
use choix.Store.Files.{File}
use choix.Group.Visual.{Embeds}
use choix.Group.Bucket.{RunFile}
use choix.Group.Rebuild.{device_of, run_file}
use choix.Group.Rebuild.Members.{run_ids}
use choix.Group.Rebuild.CrossDevice.{Parts, file_part, add_parts}
use choix.Group.Rebuild.CrossDevice.Sides.{
  total, Covers, see-Distinct, total-push_see, total-see, Covers-see, Covers-push,
}

-- The parts hold the files with these ids.
pub record IsParts (all : List ℕ) (p : Parts) : Type 0 where
  pub distinct : Distinct p.order
  pub no_emb : Covers p.no_emb p.order
  pub no_time : Covers p.no_time p.order
  pub whole :
      Perm (run_ids p.timed ++ (run_ids (total p.no_emb p.order) ++ total p.no_time p.order)) all

module _ (fl : Floats) (range : List (ℕ × List ℕ) → List (ℕ × List ℕ))
    (range_perm : (m : List (ℕ × List ℕ)) → Perm (range m) m) (embeds : Embeds fl)
    (threshold : fl.Float64) (bucket_sec : ℤ) where
  file_part-IsParts :
      (skew : String → ℤ) (f : File) (dev : String) (t : Option ℤ) (e : Option (List fl.Float32))
      (all : List ℕ) (p : Parts)
      → IsParts all p
      → IsParts (f.id ∷ all) (file_part fl range embeds threshold bucket_sec skew f dev t e p)
  file_part-IsParts skew f dev none e all p i =
      let added = total-push_see dev f.id p.no_time p.order i.distinct i.no_time in
      record {
        distinct = see-Distinct dev p.order i.distinct;
        no_emb = Covers-see p.no_emb p.order dev i.no_emb;
        no_time = Covers-push p.no_time p.order dev f.id i.no_time;
        whole = rw (total-see p.no_emb p.order dev i.no_emb) (
            Perm.trans
              (Perm.append_left (run_ids p.timed) (
                Perm.trans (Perm.append_left (run_ids (total p.no_emb p.order)) added)
                  (perm_middle (run_ids (total p.no_emb p.order)) (total p.no_time p.order))))
              (Perm.trans
                (perm_middle (run_ids p.timed)
                  (run_ids (total p.no_emb p.order) ++ total p.no_time p.order))
                (Perm.cons f.id i.whole)));
      }
  file_part-IsParts skew f dev (some t) none all p i =
      let added =
        Perm.map (λ (g : RunFile). g.id)
          (total-push_see dev (run_file f) p.no_emb p.order i.distinct i.no_emb) in
      record {
        distinct = see-Distinct dev p.order i.distinct;
        no_emb = Covers-push p.no_emb p.order dev (run_file f) i.no_emb;
        no_time = Covers-see p.no_time p.order dev i.no_time;
        whole = rw (total-see p.no_time p.order dev i.no_time) (
            Perm.trans
              (Perm.append_left (run_ids p.timed)
                (Perm.append_right (total p.no_time p.order) added))
              (Perm.trans
                (perm_middle (run_ids p.timed)
                  (run_ids (total p.no_emb p.order) ++ total p.no_time p.order))
                (Perm.cons f.id i.whole)));
      }
  file_part-IsParts skew f dev (some t) (some e) all p i = record {
    distinct = see-Distinct dev p.order i.distinct;
    no_emb = Covers-see p.no_emb p.order dev i.no_emb;
    no_time = Covers-see p.no_time p.order dev i.no_time;
    whole =
        rw
          (
            total-see p.no_emb p.order dev i.no_emb,
            total-see p.no_time p.order dev i.no_time,
            map-append,
            append_assoc,
          )
          (Perm.trans
            (perm_middle (run_ids p.timed)
              (run_ids (total p.no_emb p.order) ++ total p.no_time p.order))
            (Perm.cons f.id i.whole));
  }

  pub add_parts-IsParts :
      (skew : String → ℤ) (fs : List File) (all : List ℕ) (p : Parts)
      → IsParts all p
      → IsParts
          (map (λ f. f.id) fs ++ all)
          (add_parts fl range embeds threshold bucket_sec skew fs p)
  unfolding add_parts
  add_parts-IsParts skew [] all p i = i
  add_parts-IsParts skew (f ∷ fs) all p i =
      let j = add_parts-IsParts skew fs (f.id ∷ all) _ (
        file_part-IsParts skew f (device_of f.device_key) f.captured_at (lookup f.id embeds) all p
          i) in
      record {
        distinct = j.distinct;
        no_emb = j.no_emb;
        no_time = j.no_time;
        whole = Perm.trans j.whole (perm_middle (map (λ g. g.id) fs) all);
      }
