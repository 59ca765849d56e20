-- ===== src/Filestore/Recovery.antt =====
-- src/filestore/recovery.rs
pub mod Laws
pub mod Blocks
use blockframe_rs.Base.{
  ℕ, zero, suc, ◌+◌, Bool, not, Option, none, some, List, [], ◌∷◌, Bytes, Text, text, Result, ok,
  err, message, ok_or, ◌>>=◌, ◌>>◌, ◌++◌, length, all, take, get_elem?, ltb, ◌==◌, if◌then◌else◌,
}
use blockframe_rs.Base.Decimal.{to_string}
use blockframe_rs.ReedSolomon.{ReedSolomon}

-- `recovered.truncate(size)`, where a size is given and the data is longer.
unfoldable pub truncate : Option ℕ → Bytes → Bytes
truncate none recovered = recovered
truncate (some size) recovered =
    if ltb size (length recovered) then take size recovered else recovered

-- `valid_segments.iter().filter(|s| s.is_none()).count()`
unfoldable pub count_missing : List (Option Bytes) → ℕ
count_missing [] = 0
count_missing (none ∷ segments) = count_missing segments + 1
count_missing (some s ∷ segments) = count_missing segments

-- `valid_segments.iter().find_map(|s| s.as_ref().map(|v| v.len()))`
unfoldable pub first_size : List (Option Bytes) → Option ℕ
first_size [] = none
first_size (none ∷ segments) = first_size segments
first_size (some s ∷ segments) = some (length s)

abbrev or_first_parity : Option ℕ → List Bytes → Option ℕ
or_first_parity (some size) parity = some size
or_first_parity none [] = none
or_first_parity none (p ∷ parity) = some (length p)

module _ (R : ReedSolomon) where
  -- `recover_segment_rs13` past its test of the number of shards.
  unfoldable pub recover_from_three : Bytes → Bytes → Bytes → Option ℕ → Result Bytes
  recover_from_three p q r expected_size =
      if not (all (λ s. length s == length p) (p ∷ q ∷ r ∷ []))
      then err (message (text "All parity shards must be the same size"))
      else do
        d ← R.decoder_new 1 3 (length p)
        d₀ ← R.add_recovery_shard d 0 p
        d₁ ← R.add_recovery_shard d₀ 1 q
        d₂ ← R.add_recovery_shard d₁ 2 r
        restored ← R.decode d₂
        recovered ← ok_or (R.restored_original restored 0) (message (text "Recovery failed"))
        ok (truncate expected_size recovered)

  wrong_count : Result Bytes
  wrong_count = err (message (text "Exactly 3 parity shards required for RS(1,3)"))

  unfoldable pub recover_segment_rs13 : List Bytes → Option ℕ → Result Bytes
  unfolding recover_from_three wrong_count
  recover_segment_rs13 [] expected_size = wrong_count
  recover_segment_rs13 (p ∷ []) expected_size = wrong_count
  recover_segment_rs13 (p ∷ q ∷ []) expected_size = wrong_count
  recover_segment_rs13 (p ∷ q ∷ r ∷ []) expected_size = recover_from_three p q r expected_size
  recover_segment_rs13 (p ∷ q ∷ r ∷ s ∷ shards) expected_size = wrong_count

  -- The loop over the data segments, from the index `idx` on; a missing one is skipped.
  add_valid : R.Decoder → ℕ → List (Option Bytes) → Result R.Decoder
  add_valid d idx [] = ok d
  add_valid d idx (none ∷ segments) = add_valid d (idx + 1) segments
  add_valid d idx (some segment ∷ segments) =
      R.add_original_shard d idx segment >>= λ d'. add_valid d' (idx + 1) segments

  abbrev parity_shard : List Bytes → ℕ → Result Bytes
  parity_shard parity i = ok_or (get_elem? parity i) (message (text "index out of range"))

  unfoldable pub decode_block : List (Option Bytes) → List Bytes → ℕ → ℕ → Result Bytes
  unfolding add_valid
  decode_block segments parity target shard_size = do
    d ← R.decoder_new 30 3 shard_size
    d' ← add_valid d 0 segments
    p ← parity_shard parity 0
    d₀ ← R.add_recovery_shard d' 0 p
    q ← parity_shard parity 1
    d₁ ← R.add_recovery_shard d₀ 1 q
    r ← parity_shard parity 2
    d₂ ← R.add_recovery_shard d₁ 2 r
    restored ← R.decode d₂
    ok_or (R.restored_original restored target) (message (text "Failed to restore target segment"))

  unfoldable pub recover_segment_rs30_3 : List (Option Bytes) → List Bytes → ℕ → Result Bytes
  recover_segment_rs30_3 valid_segments block_parity target_index =
      let missing_count = count_missing valid_segments in
      if not (length valid_segments == 30)
      then err (message (text "Exactly 30 segment slots required for RS(30,3)"))
      else if not (length block_parity == 3)
      then err (message (text "Exactly 3 block parity shards required for RS(30,3)"))
      else if ltb 29 target_index
      then err (message (text "Target index must be 0-29"))
      else if ltb 3 missing_count
      then err (
          message (
            text "Too many missing segments: "
            ++ (to_string missing_count ++ text " (max 3 for RS(30,3))")))
      else do
        shard_size ←
            ok_or (or_first_parity (first_size valid_segments) block_parity)
              (message (text "Cannot determine shard size"))
        decode_block valid_segments block_parity target_index shard_size
