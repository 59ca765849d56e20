-- ===== src/Mount/Recover.antt =====
-- `recover_segment` of src/mount/filesystem_unix.rs; src/mount/filesystem_win.rs has the same text.
pub mod Laws
use blockframe_rs.Base.{
  ℕ, Bool, not, Option, none, some, [], ◌∷◌, Text, Bytes, text, text_eq, ok, err, message, to_u64,
  ◌==◌, if◌then◌else◌,
}
use blockframe_rs.Base.Exec.{Exec, pure, lift, ◌>>=◌, ◌>>◌}
use blockframe_rs.Utils.{Hasher, blake3_hash_bytes}
use blockframe_rs.ReedSolomon.{ReedSolomon}
use blockframe_rs.Manifest.{ManifestFile}
use blockframe_rs.Filestore.Recovery.{recover_segment_rs13}
use blockframe_rs.Mount.Source.{SegmentSource}
use blockframe_rs.Mount.Hashes.{recovery_hash}

-- The size to truncate to, which only tier 1 passes.
abbrev pub expected_size : ManifestFile → Option ℕ
expected_size manifest = if manifest.tier == 1 then some (to_u64 manifest.size) else none

module _ (H : Hasher) (R : ReedSolomon) (S : SegmentSource) where
  -- The test of the recovered bytes, and the write back to the source.
  unfoldable pub accept_recovered : Text → ℕ → Option ℕ → Bytes → Text → Exec S.World Bytes
  accept_recovered filename segment_id block_id recovered hash =
      if not (text_eq (blake3_hash_bytes H recovered) hash)
      then lift (err (message (text "Recovery verification failed")))
      else (do S.write_parity filename segment_id block_id recovered; pure recovered)

  unfoldable pub recover_segment : Text → ManifestFile → ℕ → Option ℕ → Exec S.World Bytes
  recover_segment filename manifest segment_id block_id = do
    p ← S.read_parity filename segment_id 0 block_id
    q ← S.read_parity filename segment_id 1 block_id
    r ← S.read_parity filename segment_id 2 block_id
    recovered ← lift (recover_segment_rs13 R (p ∷ q ∷ r ∷ []) (expected_size manifest))
    hash ← lift (recovery_hash manifest segment_id block_id)
    accept_recovered filename segment_id block_id recovered hash
