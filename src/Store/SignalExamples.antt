-- ===== src/Store/SignalExamples.antt =====
-- internal/store/ai_signals.go, thumbs.go and migrate.go on small tables. A float is stood in for by
-- the number of its bits.
use Prim.Native.String.{String}
use text.Mathlib.Text.{◌==◌ as str_eq}
use choix.Base.{
  ℕ, Option, some, none, List, [], ◌∷◌, ◌++◌, ◌≡◌, ◌≢◌, ◌≤◌, ◌%◌, ◌<◌, refl, arith, In,
  if◌then◌else◌, true, false, Bool, ◌==◌,
}
use choix.Base.Maps.{lookup}
use choix.Base.Sort.{sort_by}
use choix.Store.Signals.{
  FloatBits, SignalRow, find_row, embedding_of, upsert, encode_embedding, decode_embedding,
  all_embeddings,
}
use choix.Store.Signals.RoundTrip.{upsert-embedding_of, all_embeddings-embedding_of}
use choix.Store.Migrate.{Database, migrate, migrate-again}

abbrev words : FloatBits
words = record { Float32 = ℕ; to_bits = λ n. n % 4294967296; from_bits = λ n. n }

-- Two floats, 1.0 and 0.0.
abbrev ones : FloatBits
ones = record {
  Float32 = Bool;
  to_bits = λ b. if b then 1065353216 else 0;
  from_bits = λ n. n == 1065353216;
}

encode-1 : encode_embedding words (1 ∷ 258 ∷ []) ≡ 1 ∷ 0 ∷ 0 ∷ 0 ∷ 2 ∷ 1 ∷ 0 ∷ 0 ∷ []
unfolding encode_embedding
encode-1 = refl

decode-1 : decode_embedding words (1 ∷ 0 ∷ 0 ∷ 0 ∷ 2 ∷ []) ≡ none
unfolding decode_embedding
decode-1 = refl

from_to : (b : Bool) → ones.from_bits (ones.to_bits b) ≡ b
from_to true = refl
from_to false = refl

in_range : (b : Bool) → ones.to_bits b < 4294967296
in_range true = omega arith
in_range false = omega arith

abbrev rows : List SignalRow
rows =
    record { file_id = 4; clip_embedding = some (0 ∷ 0 ∷ 128 ∷ 63 ∷ []); computed_at = none }
    ∷ record { file_id = 6; clip_embedding = some (1 ∷ []); computed_at = none }
    ∷ []

upsert-embedding_of_example :
    (embedding_of ones (
        find_row 6 (
          upsert ones
            (record {
              file_id = 6;
              clip_embedding = none;
              embedding = true ∷ false ∷ [];
              computed_at = none;
            })
            rows))
      ≡ some (true ∷ false ∷ []))
    × ((j : ℕ)
        → j ≢ 6
        → find_row j (
            upsert ones
              (record {
                file_id = 6;
                clip_embedding = none;
                embedding = true ∷ false ∷ [];
                computed_at = none;
              })
              rows)
          ≡ find_row j rows)
upsert-embedding_of_example =
    upsert-embedding_of ones from_to in_range 6 true (false ∷ []) none rows

distinct_4 : ¬ In {A = ℕ} 4 (6 ∷ [])
distinct_4 m = ground arith

all_embeddings-embedding_of_example :
    lookup 4 (all_embeddings ones rows) ≡ embedding_of ones (find_row 4 rows)
all_embeddings-embedding_of_example =
    all_embeddings-embedding_of ones 4 rows (distinct_4, ((λ m. m), tt))

-- The number of the third character of a name, and scripts that add their version.
abbrev number_of : String → Option ℕ
number_of name =
    if str_eq name "001_init.sql" then some 1 else if str_eq name "002_kv.sql" then some 2 else none

abbrev add_name : String → List String → Option (List String)
add_name name tables = some (tables ++ name ∷ [])

abbrev fresh : Database (List String)
fresh = record { user_version = 0; schema = [] }

abbrev migrated : Database (List String)
migrated = record { user_version = 2; schema = "001_init.sql" ∷ "002_kv.sql" ∷ [] }

abbrev names : List String
names = "002_kv.sql" ∷ "001_init.sql" ∷ []

migrate-1 : migrate number_of add_name names fresh ≡ (true, migrated)
unfolding migrate sort_by
migrate-1 = refl

migrate-again_example : (0 ≤ 2) × (migrate number_of add_name names migrated ≡ (true, migrated))
unfolding sort_by
migrate-again_example =
    migrate-again number_of add_name names fresh migrated
      (1, refl, omega arith, (2, refl, omega arith, tt)) migrate-1
