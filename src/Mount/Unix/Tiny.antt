-- ===== src/Mount/Unix/Tiny.antt =====
-- Reads of files of tier 1 in src/mount/filesystem_unix.rs.
use blockframe_rs.Base.{
  inl, inr, ℕ, ◌+◌, ◌≤◌, ◌≡◌, ap, ◌∙◌, sym, none, some, Text, Bytes, text_eq, eq_of_text_eq, ok,
  lookup, string_key, i32_key, length, min, ltb, slice, pos, Bool-cases, Result-cases, arith,
}
use blockframe_rs.Base.Exec.{proceed-eq-ok}
use blockframe_rs.Utils.{Hasher, blake3_hash_bytes}
use blockframe_rs.ReedSolomon.{ReedSolomon}
use blockframe_rs.Manifest.{ManifestFile}
use blockframe_rs.Mount.Source.{SegmentSource}
use blockframe_rs.Mount.Cache.{Cache}
use blockframe_rs.Mount.Hashes.{recovery_hash}
use blockframe_rs.Mount.Recover.Laws.{recover_segment-hash}
use blockframe_rs.Mount.Windows.{Inner, returned}
use blockframe_rs.Mount.Unix.{keep_or_recover, check_tiny, read_tiny, read_bytes}

module _ (H : Hasher) (R : ReedSolomon) (S : SegmentSource) (C : Cache) where
  tiny_recovery_hash :
      (m : ManifestFile) (hash : Text)
      → m.tier ≡ 1
      → lookup (pos 0) m.merkle_tree.leaves ≡ some hash
      → recovery_hash m 0 none ≡ ok hash
  unfolding recovery_hash
  tiny_recovery_hash m hash t h = ground arith

  keep_or_recover-hash :
      (f : Text) (m : ManifestFile) (hash : Text) (fetched bytes : Bytes) (w : S.World)
      → recovery_hash m 0 none ≡ ok hash
      → (keep_or_recover H R S f m 0 none hash fetched w).0 ≡ ok bytes
      → blake3_hash_bytes H bytes ≡ hash
  unfolding keep_or_recover
  keep_or_recover-hash f m hash fetched bytes w e h =
      elim (Bool-cases (text_eq (blake3_hash_bytes H fetched) hash)) [
        | inl same ↦
            let kept : fetched ≡ bytes = ground arith in
            ap (blake3_hash_bytes H) (sym kept)
            ∙ eq_of_text_eq (blake3_hash_bytes H fetched) hash same
        | inr other ↦ recover_segment-hash H R S f m 0 none hash bytes w e (ground arith)
      ]

  check_tiny-hash :
      (f : Text) (m : ManifestFile) (hash : Text) (fetched bytes : Bytes) (s : Inner C S)
      → lookup f s.names.manifests ≡ some m
      → m.tier ≡ 1
      → lookup (pos 0) m.merkle_tree.leaves ≡ some hash
      → (check_tiny H R S C f fetched s).0 ≡ ok bytes
      → blake3_hash_bytes H bytes ≡ hash
  unfolding check_tiny
  check_tiny-hash f m hash fetched bytes s found t e h =
      keep_or_recover-hash f m hash fetched bytes s.source (tiny_recovery_hash m hash t e)
        (ground arith)

  read_tiny-hash :
      (f : Text) (m : ManifestFile) (hash : Text) (bytes : Bytes) (s : Inner C S)
      → lookup f s.names.manifests ≡ some m
      → m.tier ≡ 1
      → lookup (pos 0) m.merkle_tree.leaves ≡ some hash
      → (read_tiny H R S C f s).0 ≡ ok bytes
      → blake3_hash_bytes H bytes ≡ hash
  unfolding read_tiny
  read_tiny-hash f m hash bytes s found t e h =
      let (fetched, _, h', _) = proceed-eq-ok _ (check_tiny H R S C f) bytes h in
      check_tiny-hash f m hash fetched bytes _ found t e h'

  -- A read of a file of tier 1 for which the manifest has a hash, whatever the source answers and
  -- the cache holds: bytes that `read_bytes` returns are cut, from the offset on and no further
  -- than the end, out of contents that have this hash.
  pub read_bytes-hash :
      (f : Text) (m : ManifestFile) (hash : Text) (fuel segment_size offset size : ℕ) (out : Bytes)
      (s : Inner C S)
      → lookup f s.names.manifests ≡ some m
      → m.tier ≡ 1
      → lookup (pos 0) m.merkle_tree.leaves ≡ some hash
      → (read_bytes H R S C f fuel segment_size 1 offset size s).0 ≡ returned out
      → (contents : Bytes) × (blake3_hash_bytes H contents ≡ hash)
        × (offset ≤ min (offset + size) (length contents))
        × (out ≡ slice contents offset (min (offset + size) (length contents)))
  unfolding read_bytes
  read_bytes-hash f m hash fuel segment_size offset size out s found t e h =
      elim (Result-cases (read_tiny H R S C f s).0) [
        | inr (e', stopped) ↦ ground arith
        | inl (contents, got) ↦
            elim (Bool-cases (ltb (min (offset + size) (length contents)) offset)) [
              | inl past ↦ ground arith
              | inr fine ↦ (
                contents,
                read_tiny-hash f m hash contents s found t e got,
                ground arith,
                ground arith,
              )
            ]
      ]
