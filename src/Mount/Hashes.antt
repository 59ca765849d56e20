-- ===== src/Mount/Hashes.antt =====
-- Where the file systems find the hash that a segment must have: in `recover_segment` of
-- src/mount/filesystem_unix.rs, and in `read_from_source` of src/mount/filesystem_win.rs.
use mathlib.Core.Option
use blockframe_rs.Base.{
  ℕ, ◌/◌, ◌%◌, ◌≡◌, ◌⊎◌, inl, inr, Option, none, some, Text, text, Result, ok, message, ok_or,
  ◌>>=◌, lookup, to_i32, get_elem?, i32_key, usize_key, ◌==◌, if◌then◌else◌, arith,
}
use blockframe_rs.Manifest.{ManifestFile, SegmentHashes, BlockHashes}

unfoldable pub recovery_hash : ManifestFile → ℕ → Option ℕ → Result Text
recovery_hash manifest segment_id block_id =
    if manifest.tier == 2
    then (do
      segment ←
          ok_or (lookup segment_id manifest.merkle_tree.segments)
            (message (text "Missing segment info in manifest"))
      ok segment.segment_data)
    else if manifest.tier == 3
    then (do
      block_index ← ok_or block_id (message (text "Block ID required for Tier 3 recovery"))
      block ←
          ok_or (lookup block_index manifest.merkle_tree.blocks)
            (message (text "Missing block info"))
      ok_or (get_elem? block.segments (segment_id % 30)) (message (text "Missing segment hash")))
    else ok_or (lookup (to_i32 segment_id) manifest.merkle_tree.leaves)
        (message (text "Missing leaf hash"))

-- `expected_hash_opt`
unfoldable pub expected_hash : ManifestFile → ℕ → ℕ → Option Text
expected_hash manifest tier segment_index =
    if tier == 1
    then lookup (to_i32 segment_index) manifest.merkle_tree.leaves
    else if tier == 2
    then Option.map (λ (s : SegmentHashes). s.segment_data)
        (lookup segment_index manifest.merkle_tree.segments)
    else Option.bind (lookup (segment_index / 30) manifest.merkle_tree.blocks)
        (λ (b : BlockHashes). get_elem? b.segments (segment_index % 30))

-- `if tier == 3 { Some(segment_index / 30) } else { None }`
abbrev pub block_of : ℕ → ℕ → Option ℕ
block_of tier segment_index = if tier == 3 then some (segment_index / 30) else none

-- The tiers that a commit writes.
abbrev pub IsTier : ℕ → Type 0
IsTier tier = (tier ≡ 1) ⊎ (tier ≡ 2) ⊎ (tier ≡ 3)

-- Recovery checks against the hash that the read found wrong.
pub recovery_hash-expected_hash :
    (m : ManifestFile) (segment_index : ℕ) (hash : Text)
    → IsTier m.tier
    → expected_hash m m.tier segment_index ≡ some hash
    → recovery_hash m segment_index (block_of m.tier segment_index) ≡ ok hash
unfolding expected_hash recovery_hash Option.bind
recovery_hash-expected_hash m segment_index hash (inl t) h = ground arith
recovery_hash-expected_hash m segment_index hash (inr (inl t)) h = ground arith
recovery_hash-expected_hash m segment_index hash (inr (inr t)) h = ground arith
