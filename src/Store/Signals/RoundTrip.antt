-- ===== src/Store/Signals/RoundTrip.antt =====
-- Embeddings are read back as they were stored, one by one or all at once.
use choix.Base.{
  ℕ, ◌*◌, ◌/◌, ◌%◌, ◌<◌, Option, some, none, List, [], ◌∷◌, length, map, if◌then◌else◌, false, ◌≡◌,
  ◌≢◌, refl, sym, ap, subst, ◌∙◌, arith, ◌==◌, ==_iff, ==_refl, Bool-cases, inl, inr, In, ◌||◌, not,
}
use choix.Base.Int.{ℤ}
use choix.Base.Distinct.{Distinct}
use choix.Base.Maps.{lookup, lookup-insert}
use choix.Store.Signals.{
  FloatBits, SignalRow, uint32, put_row, find_row, encode_embedding, decode_floats,
  decode_embedding, decode_column, upsert, embedding_of, add_embedding, embeddings_from,
  all_embeddings,
}

-- The four bytes of a 32-bit number give it back.
uint32-put :
    (b : ℕ)
    → b < 4294967296
    → uint32 (b % 256) (b / 256 % 256) (b / 65536 % 256) (b / 16777216 % 256) ≡ b
uint32-put b h = omega (arith, h)

module _ (fb : FloatBits) where
  length-encode : (emb : List fb.Float32) → length (encode_embedding fb emb) ≡ 4 * length emb
  unfolding encode_embedding
  length-encode [] = refl
  length-encode (v ∷ emb) = omega (arith, length-encode emb)

  module _ (from-to : (v : fb.Float32) → fb.from_bits (fb.to_bits v) ≡ v)
      (in_range : (v : fb.Float32) → fb.to_bits v < 4294967296) where
    floats-encode : (emb : List fb.Float32) → decode_floats fb (encode_embedding fb emb) ≡ emb
    unfolding encode_embedding decode_floats
    floats-encode [] = refl
    floats-encode (v ∷ emb) =
        rw (uint32-put (fb.to_bits v) (in_range v), from-to v, floats-encode emb) refl

    decode-encode :
        (v : fb.Float32) (emb : List fb.Float32)
        → decode_embedding fb (encode_embedding fb (v ∷ emb)) ≡ some (v ∷ emb)
    unfolding decode_embedding
    decode-encode v emb =
        let l = length-encode (v ∷ emb) in
        let whole : (length (encode_embedding fb (v ∷ emb)) == 0
              || not (length (encode_embedding fb (v ∷ emb)) % 4 == 0))
            ≡ false =
          ground (arith, l) in
        rw whole (ap some (floats-encode (v ∷ emb)))

    find-put_same :
        (r : SignalRow) (rows : List SignalRow) → find_row r.file_id (put_row r rows) ≡ some r
    find-put_same r [] = rw (==_refl r.file_id) refl
    find-put_same r (s ∷ rows) = elim (Bool-cases (s.file_id == r.file_id)) [
      | inl t ↦ rw (t, ==_refl r.file_id) refl
      | inr t ↦ rw (t, t) (find-put_same r rows)
    ]

    find-put_other :
        (id : ℕ) (r : SignalRow) (rows : List SignalRow)
        → id ≢ r.file_id
        → find_row id (put_row r rows) ≡ find_row id rows
    find-put_other id r [] n = ground (arith, n)
    find-put_other id r (s ∷ rows) n = ground (arith, n, find-put_other id r rows n)

    -- After Upsert of an embedding that is not empty, with no raw blob, GetByFileID decodes the same
    -- embedding for the file, and what it reads for every other file is as before. The two
    -- conversions between a float and its 32 bits are inverse.
    pub upsert-embedding_of :
        (id : ℕ) (v : fb.Float32) (emb : List fb.Float32) (t : Option ℤ) (rows : List SignalRow)
        → let stored =
            upsert fb
              (record { file_id = id; clip_embedding = none; embedding = v ∷ emb; computed_at = t })
              rows in
          (embedding_of fb (find_row id stored) ≡ some (v ∷ emb))
          × ((j : ℕ) → j ≢ id → find_row j stored ≡ find_row j rows)
    unfolding upsert
    upsert-embedding_of id v emb t rows =
        let r : SignalRow = record {
          file_id = id;
          clip_embedding = some (encode_embedding fb (v ∷ emb));
          computed_at = t;
        } in
        (
          ap (embedding_of fb) (find-put_same r rows) ∙ decode-encode v emb,
          λ j n. find-put_other j r rows n,
        )

  abbrev pub row_keys : List SignalRow → List ℕ
  row_keys = map (λ r. r.file_id)

  abbrev or_old : Option (List fb.Float32) → Option (List fb.Float32) → Option (List fb.Float32)
  or_old (some e) old = some e
  or_old none old = old

  find_absent : (id : ℕ) (rows : List SignalRow) → ¬ In id (row_keys rows) → find_row id rows ≡ none
  find_absent id [] n = refl
  find_absent id (r ∷ rows) n = elim (Bool-cases (r.file_id == id)) [
    | inl t ↦ absurd (n (inl (sym ((==_iff r.file_id id).0 t))))
    | inr t ↦ rw t (find_absent id rows (λ i. n (inr i)))
  ]

  lookup-add :
      (id key : ℕ) (o : Option (List fb.Float32)) (m : List (ℕ × List fb.Float32))
      → lookup id (add_embedding fb key o m)
        ≡ (if key == id then or_old o (lookup id m) else lookup id m)
  lookup-add id key none m = elim (Bool-cases (key == id)) [ inl t ↦ rw t refl | inr t ↦ rw t refl ]
  lookup-add id key (some e) m = lookup-insert key id e m

  lookup-from :
      (id : ℕ) (rows : List SignalRow) (m : List (ℕ × List fb.Float32))
      → Distinct (row_keys rows)
      → lookup id (embeddings_from fb rows m)
        ≡ or_old (embedding_of fb (find_row id rows)) (lookup id m)
  unfolding embeddings_from
  lookup-from id [] m d = refl
  lookup-from id (r ∷ rows) m d =
      let e = decode_column fb r.clip_embedding in
      let rest = lookup-from id rows (add_embedding fb r.file_id e m) d.1 in
      elim (Bool-cases (r.file_id == id)) [
        | inl t ↦
            let gone =
              find_absent id rows
                (subst (λ z. ¬ In z (row_keys rows)) ((==_iff r.file_id id).0 t) d.0) in
            rw t (
              rest
              ∙ ap (λ o. or_old (embedding_of fb o) (lookup id (add_embedding fb r.file_id e m)))
                  gone
              ∙ lookup-add id r.file_id e m
              ∙ ap (λ b. if b then or_old e (lookup id m) else lookup id m) t)
        | inr t ↦ rw t (
            rest
            ∙ ap (or_old (embedding_of fb (find_row id rows))) (
                lookup-add id r.file_id e m
                ∙ ap (λ b. if b then or_old e (lookup id m) else lookup id m) t))
      ]

  -- AllEmbeddings agrees with GetByFileID: its map has for every id the embedding that GetByFileID
  -- decodes, and no entry where that finds no row, a NULL or a malformed blob. The ids of the rows
  -- are distinct.
  pub all_embeddings-embedding_of :
      (id : ℕ) (rows : List SignalRow)
      → Distinct (row_keys rows)
      → lookup id (all_embeddings fb rows) ≡ embedding_of fb (find_row id rows)
  unfolding all_embeddings lookup
  all_embeddings-embedding_of id rows d =
      lookup-from id rows [] d ∙ plain (embedding_of fb (find_row id rows))
    where
      plain : (o : Option (List fb.Float32)) → or_old o none ≡ o
      plain none = refl
      plain (some e) = refl
