-- ===== src/Store/Signals.antt =====
-- internal/store/ai_signals.go: the embeddings of files, kept as little-endian 32-bit floats.
pub mod RoundTrip
use choix.Base.{
  ℕ, ◌+◌, ◌*◌, ◌/◌, ◌%◌, Option, some, none, List, [], ◌∷◌, ◌++◌, length, if◌then◌else◌, Bool, true,
  false, ◌||◌, not, ◌==◌,
}
use choix.Base.Int.{ℤ}
use choix.Base.Maps.{insert}

-- math.Float32bits and math.Float32frombits.
pub record FloatBits : Type 1 where
  pub Float32 : Type 0
  pub to_bits : Float32 → ℕ
  pub from_bits : ℕ → Float32

-- A row; a NULL column is `none`.
pub record SignalRow : Type 0 where
  pub file_id : ℕ
  pub clip_embedding : Option (List ℕ)
  pub computed_at : Option ℤ

-- binary.LittleEndian.PutUint32 and Uint32.
abbrev pub put_uint32 : ℕ → List ℕ
put_uint32 b = b % 256 ∷ b / 256 % 256 ∷ b / 65536 % 256 ∷ b / 16777216 % 256 ∷ []

abbrev pub uint32 : ℕ → ℕ → ℕ → ℕ → ℕ
uint32 a b c d = a + 256 * b + 65536 * c + 16777216 * d

abbrev pub put_row : SignalRow → List SignalRow → List SignalRow
put_row r [] = r ∷ []
put_row r (s ∷ rows) =
    let rest = put_row r rows in if s.file_id == r.file_id then r ∷ rows else s ∷ rest

-- `WHERE file_id = ?`
abbrev pub find_row : ℕ → List SignalRow → Option SignalRow
find_row id [] = none
find_row id (r ∷ rows) = let rest = find_row id rows in if r.file_id == id then some r else rest

module _ (fb : FloatBits) where
  -- AISignals as a caller passes it: nil slices are `none` and `[]`.
  pub record AiSignals : Type 0 where
    pub file_id : ℕ
    pub clip_embedding : Option (List ℕ)
    pub embedding : List fb.Float32
    pub computed_at : Option ℤ

  unfoldable pub encode_embedding : List fb.Float32 → List ℕ
  encode_embedding [] = []
  encode_embedding (v ∷ emb) = put_uint32 (fb.to_bits v) ++ encode_embedding emb

  -- The loop over the floats of a blob.
  unfoldable pub decode_floats : List ℕ → List fb.Float32
  decode_floats (a ∷ b ∷ c ∷ d ∷ blob) = fb.from_bits (uint32 a b c d) ∷ decode_floats blob
  decode_floats _ = []

  -- `none` is nil.
  unfoldable pub decode_embedding : List ℕ → Option (List fb.Float32)
  unfolding decode_floats
  decode_embedding blob =
      if length blob == 0 || not (length blob % 4 == 0) then none else some (decode_floats blob)

  abbrev pub decode_column : Option (List ℕ) → Option (List fb.Float32)
  decode_column none = none
  decode_column (some blob) = decode_embedding blob

  abbrev pub clip_of : Option (List ℕ) → List fb.Float32 → Option (List ℕ)
  clip_of (some blob) emb = some blob
  clip_of none [] = none
  clip_of none (v ∷ emb) = some (encode_embedding (v ∷ emb))

  unfoldable pub upsert : AiSignals → List SignalRow → List SignalRow
  unfolding encode_embedding
  upsert a = put_row (record {
    file_id = a.file_id;
    clip_embedding = clip_of a.clip_embedding a.embedding;
    computed_at = a.computed_at;
  })

  -- GetByFileID, its Embedding field: `none` also for a missing row.
  abbrev pub embedding_of : Option SignalRow → Option (List fb.Float32)
  embedding_of none = none
  embedding_of (some r) = decode_column r.clip_embedding

  unfoldable pub get_by_file_id : ℕ → List SignalRow → Option (SignalRow × Option (List fb.Float32))
  unfolding decode_embedding
  get_by_file_id id rows = elim (find_row id rows) [
    | none ↦ none
    | some r ↦ some (r, decode_column r.clip_embedding)
  ]

  abbrev pub add_embedding :
      ℕ → Option (List fb.Float32) → List (ℕ × List fb.Float32) → List (ℕ × List fb.Float32)
  add_embedding id none m = m
  add_embedding id (some e) m = insert id e m

  -- The loop of AllEmbeddings over the rows.
  unfoldable pub embeddings_from :
      List SignalRow → List (ℕ × List fb.Float32) → List (ℕ × List fb.Float32)
  unfolding decode_embedding insert
  embeddings_from [] m = m
  embeddings_from (r ∷ rows) m =
      embeddings_from rows (add_embedding r.file_id (decode_column r.clip_embedding) m)

  unfoldable pub all_embeddings : List SignalRow → List (ℕ × List fb.Float32)
  unfolding embeddings_from
  all_embeddings rows = embeddings_from rows []
