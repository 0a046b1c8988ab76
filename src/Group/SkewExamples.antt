-- ===== src/Group/SkewExamples.antt =====
-- internal/group/skew.go on small inputs.
use text.Mathlib.Text.{◌==◌ as str_eq}
use choix.Base.{ℕ, if◌then◌else◌, some, List, [], ◌∷◌, ◌≡◌, refl, Bool, not, ◌==◌, All}
use choix.Base.Int.{ℤ, pos, negsuc, ◌-ℤ◌, ◌+ℤ◌}
use choix.Base.Sort.{sort_by}
use choix.Base.Floats.{Floats}
use choix.Base.Maps.{lookup}
use choix.Base.Multimap.{push, values_of}
use choix.Store.Files.{File}
use choix.Group.Visual.{Embeds, cosine}
use choix.Group.Examples.{numbers, shot}
use Prim.Native.String.{String}
use choix.Group.Skew.{SkewEntry, pair_deltas, median, estimate_skew, is_anchor, half}
use choix.Group.Skew.Window.{all_deltas, pair_deltas-all_deltas}
use choix.Group.Skew.Offsets.{IsBounded, estimate_skew-IsBounded}

abbrev entry : ℕ → ℕ → SkewEntry
entry id t = record { id = id; captured_at = pos t }

abbrev ref_entries : List SkewEntry
ref_entries = entry 1 5000 ∷ entry 2 9000 ∷ []

abbrev other_entries : List SkewEntry
other_entries = entry 3 1000 ∷ entry 4 6000 ∷ entry 5 9100 ∷ []

abbrev any_pair : SkewEntry → SkewEntry → Bool
any_pair r o = not (o.id == 3)

pair_deltas_run :
    pair_deltas any_pair ref_entries other_entries ≡ pos 1000 ∷ negsuc 2999 ∷ pos 100 ∷ []
unfolding pair_deltas ◌-ℤ◌ ◌+ℤ◌
pair_deltas_run = refl

pair_deltas-all_deltas_example :
    pair_deltas any_pair ref_entries other_entries ≡ all_deltas any_pair ref_entries other_entries
pair_deltas-all_deltas_example =
    pair_deltas-all_deltas any_pair ref_entries other_entries ((refl, tt), (tt, tt))
      ((refl, (refl, tt)), ((refl, tt), (tt, tt)))

abbrev deltas : List ℤ
deltas = pos 7 ∷ negsuc 2 ∷ pos 4 ∷ negsuc 5 ∷ []

median_run : median deltas ≡ some (pos 0)
unfolding median sort_by half ◌+ℤ◌
median_run = refl

-- The numbers with a similarity threshold of 95.
abbrev sharp : Floats
sharp = record numbers { decimal = λ n d. n }

abbrev shot_by : String → ℕ → ℕ → File
shot_by device id t = record (shot id t) { device_key = some device }

-- Three scenes that both cameras took; the clock of "B" is 100 seconds ahead.
abbrev both : List File
both =
    shot_by "A" 1 1000
    ∷ shot_by "A" 2 2000
    ∷ shot_by "A" 3 3000
    ∷ shot_by "B" 4 1100
    ∷ shot_by "B" 5 2090
    ∷ shot_by "B" 6 3120
    ∷ []

abbrev scenes : Embeds sharp
scenes =
    (1, 10 ∷ 0 ∷ 0 ∷ [])
    ∷ (2, 0 ∷ 10 ∷ 0 ∷ [])
    ∷ (3, 0 ∷ 0 ∷ 10 ∷ [])
    ∷ (4, 10 ∷ 0 ∷ 0 ∷ [])
    ∷ (5, 0 ∷ 10 ∷ 0 ∷ [])
    ∷ (6, 0 ∷ 0 ∷ 10 ∷ [])
    ∷ []

skew_run : estimate_skew sharp both scenes ≡ ("A", some (pos 0)) ∷ ("B", some (pos 100)) ∷ []
unfolding estimate_skew sort_by cosine ◌-ℤ◌ ◌+ℤ◌ lookup push values_of
skew_run = refl

estimate_skew-IsBounded_example :
    All (IsBounded (is_anchor sharp scenes)) (estimate_skew sharp both scenes)
estimate_skew-IsBounded_example = estimate_skew-IsBounded sharp both scenes

abbrev names : List String
names = "a" ∷ "bcd" ∷ "ef" ∷ []

abbrev sizes : String → ℕ
sizes d = if str_eq d "bcd" then 3 else 2
