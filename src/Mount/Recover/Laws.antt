-- ===== src/Mount/Recover/Laws.antt =====
-- What `recover_segment` returns, it has verified.
use blockframe_rs.Base.{ℕ, ◌≡◌, ap, ◌∙◌, Option, [], ◌∷◌, Text, Bytes, eq_of_text_eq, ok, arith}
use blockframe_rs.Base.Exec.{lift, proceed-eq-ok}
use blockframe_rs.Utils.{Hasher, blake3_hash_bytes}
use blockframe_rs.ReedSolomon.{ReedSolomon}
use blockframe_rs.Manifest.{ManifestFile}
use blockframe_rs.Filestore.Recovery.{recover_segment_rs13}
use blockframe_rs.Mount.Source.{SegmentSource}
use blockframe_rs.Mount.Hashes.{recovery_hash}
use blockframe_rs.Mount.Recover.{accept_recovered, recover_segment, expected_size}

module _ (H : Hasher) (R : ReedSolomon) (S : SegmentSource) where
  accept_recovered-hash :
      (filename : Text) (segment_id : ℕ) (block_id : Option ℕ) (recovered bytes : Bytes)
      (hash : Text) (w : S.World)
      → (accept_recovered H R S filename segment_id block_id recovered hash w).0 ≡ ok bytes
      → blake3_hash_bytes H bytes ≡ hash
  unfolding accept_recovered
  accept_recovered-hash filename segment_id block_id recovered bytes hash w h =
      ground (arith, eq_of_text_eq (blake3_hash_bytes H recovered) hash)

  -- Whatever the source answers, bytes that `recover_segment` returns have the hash that the
  -- manifest records for the segment.
  pub recover_segment-hash :
      (filename : Text) (m : ManifestFile) (segment_id : ℕ) (block_id : Option ℕ) (hash : Text)
      (bytes : Bytes) (w : S.World)
      → recovery_hash m segment_id block_id ≡ ok hash
      → (recover_segment H R S filename m segment_id block_id w).0 ≡ ok bytes
      → blake3_hash_bytes H bytes ≡ hash
  unfolding recover_segment
  recover_segment-hash filename m segment_id block_id hash bytes w e h =
      let (p, _, h₁, _) =
        proceed-eq-ok (S.read_parity filename segment_id 0 block_id w) _ bytes h in
      let (q, _, h₂, _) =
        proceed-eq-ok (S.read_parity filename segment_id 1 block_id _) _ bytes h₁ in
      let (r, _, h₃, _) =
        proceed-eq-ok (S.read_parity filename segment_id 2 block_id _) _ bytes h₂ in
      let (recovered, _, h₄, _) =
        proceed-eq-ok (lift (recover_segment_rs13 R (p ∷ q ∷ r ∷ []) (expected_size m)) _) _ bytes
          h₃ in
      let (hash', e', h₅, _) =
        proceed-eq-ok (lift (recovery_hash m segment_id block_id) _) _ bytes h₄ in
      let found : recovery_hash m segment_id block_id ≡ ok hash' = ap (λ pair. pair.0) e' in
      let same : hash' ≡ hash = cc in
      accept_recovered-hash filename segment_id block_id recovered bytes hash' _ h₅ ∙ same
