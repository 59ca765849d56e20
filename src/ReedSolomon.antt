-- ===== src/ReedSolomon.antt =====
-- The encoder and the decoder of the crate `reed_solomon_simd`, which is not part of the repository.
use blockframe_rs.Base.{
  ℕ, suc, ◌+◌, ◌%◌, ◌<◌, ◌≤◌, ◌≡◌, false, is_ok, All, Option, none, some, List, [], ◌∷◌, Bytes,
  Result, ok, ◌>>=◌, length, get_elem?,
}

pub record ReedSolomon : Type 1 where
  pub Encoder : Type 0
  pub encoder_new : ℕ → ℕ → ℕ → Result Encoder
  pub add_original : Encoder → Bytes → Result Encoder
  -- `encode` with the `recovery_iter` of its result.
  pub encode : Encoder → Result (List Bytes)
  pub Decoder : Type 0
  pub Restored : Type 0
  pub decoder_new : ℕ → ℕ → ℕ → Result Decoder
  pub add_original_shard : Decoder → ℕ → Bytes → Result Decoder
  pub add_recovery_shard : Decoder → ℕ → Bytes → Result Decoder
  pub decode : Decoder → Result Restored
  pub restored_original : Restored → ℕ → Option Bytes

module _ (R : ReedSolomon) where
  -- The calls that add a list of recovery shards, each with its index.
  abbrev pub add_recovery_shards : R.Decoder → List (ℕ × Bytes) → Result R.Decoder
  add_recovery_shards d [] = ok d
  add_recovery_shards d ((i, shard) ∷ shards) =
      R.add_recovery_shard d i shard >>= λ d'. add_recovery_shards d' shards

  -- The calls that add the original shards.
  abbrev pub add_original_shards : R.Encoder → List Bytes → Result R.Encoder
  add_original_shards e [] = ok e
  add_original_shards e (shard ∷ shards) =
      R.add_original e shard >>= λ e'. add_original_shards e' shards

  -- Shards of one code word, with rising indices from `low` on.
  abbrev pub AreShardsOf : ℕ → List Bytes → List (ℕ × Bytes) → Type 0
  AreShardsOf low parity [] = Unit
  AreShardsOf low parity ((i, shard) ∷ shards) =
      (low < suc i) × (get_elem? parity i ≡ some shard) × AreShardsOf (suc i) parity shards

  -- Documented behaviour of the code with one original shard and three recovery shards: a shard of
  -- a size that the crate allows can be encoded, and any of its recovery shards restore it.
  pub record IsReplicating : Type 0 where
    pub encodes :
        (shard : Bytes)
        → 0 < length shard
        → length shard % 64 ≡ 0
        → (e e' : R.Encoder) × (p q r : Bytes) × (R.encoder_new 1 3 (length shard) ≡ ok e)
          × (R.add_original e shard ≡ ok e')
          × (R.encode e' ≡ ok (p ∷ q ∷ r ∷ []))
          × (length p ≡ length shard)
          × (length q ≡ length shard)
          × (length r ≡ length shard)
    pub restores :
        (shard : Bytes) (parity : List Bytes) (e e' : R.Encoder) (i : ℕ) (first : Bytes)
        (more : List (ℕ × Bytes))
        → R.encoder_new 1 3 (length shard) ≡ ok e
        → R.add_original e shard ≡ ok e'
        → R.encode e' ≡ ok parity
        → AreShardsOf 0 parity ((i, first) ∷ more)
        → (d d' : R.Decoder) × (restored : R.Restored) × (R.decoder_new 1 3 (length shard) ≡ ok d)
          × (add_recovery_shards d ((i, first) ∷ more) ≡ ok d')
          × (R.decode d' ≡ ok restored)
          × (R.restored_original restored 0 ≡ some shard)

  -- Documented behaviour of the encoder for up to 30 shards: shards of one size, which is positive
  -- and even, are encoded to three recovery shards of that size.
  pub record IsEncoding : Type 0 where
    pub encodes :
        (shards : List Bytes) (size : ℕ)
        → 0 < length shards
        → length shards ≤ 30
        → All (λ s. length s ≡ size) shards
        → 0 < size
        → size % 2 ≡ 0
        → (e e' : R.Encoder) × (p q r : Bytes) × (R.encoder_new (length shards) 3 size ≡ ok e)
          × (add_original_shards e shards ≡ ok e')
          × (R.encode e' ≡ ok (p ∷ q ∷ r ∷ []))
          × (length p ≡ size)
          × (length q ≡ size)
          × (length r ≡ size)

  -- Documented behaviour of the encoder: shards of an odd size are `InvalidShardSize`.
  pub record RefusesOdd : Type 0 where
    pub refuses :
        (data_shards parity_shards size : ℕ)
        → size % 2 ≡ 1
        → is_ok (R.encoder_new data_shards parity_shards size) ≡ false

  -- What is left of shards: at each place the shard, or nothing.
  abbrev pub AreSlotsOf : List Bytes → List (Option Bytes) → Type 0
  AreSlotsOf [] [] = Unit
  AreSlotsOf [] (slot ∷ slots) = ⊥
  AreSlotsOf (shard ∷ shards) [] = ⊥
  AreSlotsOf (shard ∷ shards) (none ∷ slots) = AreSlotsOf shards slots
  AreSlotsOf (shard ∷ shards) (some left ∷ slots) = (left ≡ shard) × AreSlotsOf shards slots

  -- How many places are empty.
  abbrev pub absent : List (Option Bytes) → ℕ
  absent [] = 0
  absent (none ∷ slots) = suc (absent slots)
  absent (some left ∷ slots) = absent slots

  -- The calls that add what is left of the original shards, from the index `i` on.
  abbrev pub add_slots : R.Decoder → ℕ → List (Option Bytes) → Result R.Decoder
  add_slots d i [] = ok d
  add_slots d i (none ∷ slots) = add_slots d (i + 1) slots
  add_slots d i (some left ∷ slots) =
      R.add_original_shard d i left >>= λ d'. add_slots d' (i + 1) slots

  -- Documented behaviour of the code with 30 original shards of one size and three recovery shards:
  -- where at most three of the original shards are missing, the decoder restores them.
  pub record IsRestoring : Type 0 where
    pub restores :
        (shards : List Bytes) (slots : List (Option Bytes)) (size : ℕ) (e e' : R.Encoder)
        (p q r : Bytes)
        → length shards ≡ 30
        → All (λ s. length s ≡ size) shards
        → R.encoder_new 30 3 size ≡ ok e
        → add_original_shards e shards ≡ ok e'
        → R.encode e' ≡ ok (p ∷ q ∷ r ∷ [])
        → AreSlotsOf shards slots
        → absent slots ≤ 3
        → (d d' d'' : R.Decoder) × (restored : R.Restored) × (R.decoder_new 30 3 size ≡ ok d)
          × (add_slots d 0 slots ≡ ok d')
          × (add_recovery_shards d' ((0, p) ∷ (1, q) ∷ (2, r) ∷ []) ≡ ok d'')
          × (R.decode d'' ≡ ok restored)
          × ((i : ℕ) (shard : Bytes)
              → get_elem? slots i ≡ some none
              → get_elem? shards i ≡ some shard
              → R.restored_original restored i ≡ some shard)
