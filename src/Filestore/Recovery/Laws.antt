-- ===== src/Filestore/Recovery/Laws.antt =====
-- Recovery after encoding, and the refusals of src/filestore/recovery.rs.
use blockframe_rs.Base.{
  ℕ, ◌-◌, ◌≤◌, ◌<◌, ◌≡◌, ◌≢◌, refl, ap, ◌∙◌, sym, inl, inr, ◌⊎◌, Option, none, some, List, [], ◌∷◌,
  ◌++◌, Bytes, ok, is_ok, false, length, take, replicate, ltb, Bool-cases, resize, take-of_le,
  take_append, arith,
}
use blockframe_rs.ReedSolomon.{ReedSolomon, IsReplicating, add_recovery_shards}
use blockframe_rs.Chunker.Generate.{padded_size, generate_parity_segmented}
use blockframe_rs.Chunker.Generate.Laws.{
  generate_parity_segmented_total, length-resize, resize_self,
}
use blockframe_rs.Filestore.Recovery.{
  recover_segment_rs13, truncate, recover_segment_rs30_3, count_missing,
}

-- Filling up with zeros and truncating to the old size gives the old data.
pub truncate-resize :
    (v : Bytes) (n : ℕ) → length v ≤ n → truncate (some (length v)) (resize v n) ≡ v
unfolding truncate
truncate-resize v n h = elim (Bool-cases (ltb (length v) (length (resize v n)))) [
  | inl longer ↦ rw longer (
      ap (λ w. take (length v) (w ++ replicate (n - length v) 0)) (take-of_le n v h)
      ∙ take_append (length v) v (replicate (n - length v) 0) refl)
  | inr same ↦ rw same (resize_self v n (ground (arith, length-resize v n)))
]

module _ (R : ReedSolomon) where
  -- The decoder, once it restores a shard.
  recover_restored :
      (p q r shard : Bytes) (expected_size : Option ℕ) (d d' : R.Decoder) (restored : R.Restored)
      → length q ≡ length p
      → length r ≡ length p
      → R.decoder_new 1 3 (length p) ≡ ok d
      → add_recovery_shards R d ((0, p) ∷ (1, q) ∷ (2, r) ∷ []) ≡ ok d'
      → R.decode d' ≡ ok restored
      → R.restored_original restored 0 ≡ some shard
      → recover_segment_rs13 R (p ∷ q ∷ r ∷ []) expected_size ≡ ok (truncate expected_size shard)
  unfolding recover_segment_rs13
  recover_restored p q r shard expected_size d d' restored lq lr made added decoded original =
      ground arith

  -- The three parity shards that `generate_parity_segmented` made of data that is not empty give,
  -- through `recover_segment_rs13`, the data itself if its size is passed, and the data filled up
  -- with zeros to a multiple of 64 bytes if no size is passed.
  pub recover_segment_rs13-generate_parity_segmented :
      IsReplicating R
      → (segment : Bytes) → 0 < length segment
      → (parity : List Bytes) × (generate_parity_segmented R segment ≡ ok parity)
        × (recover_segment_rs13 R parity (some (length segment)) ≡ ok segment)
        × (recover_segment_rs13 R parity none ≡ ok (resize segment (padded_size (length segment))))
  recover_segment_rs13-generate_parity_segmented L segment h =
      let n = padded_size (length segment) in
      let shard = resize segment n in
      let size : length shard ≡ n = length-resize segment n in
      let (e, e', p, q, r, generated, made, added, encoded, lp, lq, lr) =
        generate_parity_segmented_total R L segment h in
      let parity = p ∷ q ∷ r ∷ [] in
      let (d, d', restored, made', added', decoded, original) =
        L.restores shard parity e e' 0 p ((1, q) ∷ (2, r) ∷ []) (ap (R.encoder_new 1 3) size ∙ made)
          added encoded (omega arith, refl, (omega arith, refl, (omega arith, refl, tt))) in
      let recovers = λ (size' : Option ℕ).
        recover_restored p q r shard size' d d' restored (lq ∙ sym lp) (lr ∙ sym lp)
          (ap (R.decoder_new 1 3) (lp ∙ sym size) ∙ made') added' decoded original in
      (
        parity,
        generated,
        recovers (some (length segment)) ∙ ap ok (truncate-resize segment n (omega arith)),
        unfold truncate in recovers none,
      )

  -- `recover_segment_rs30_3` returns an error for other than 30 slots, other
  -- than 3 parity shards, a target past the block, and more than 3 missing segments.
  pub recover_segment_rs30_3_refuses :
      (segments : List (Option Bytes)) (parity : List Bytes) (target : ℕ)
      → (length segments ≢ 30) ⊎ (length parity ≢ 3) ⊎ (29 < target) ⊎ (3 < count_missing segments)
      → is_ok (recover_segment_rs30_3 R segments parity target) ≡ false
  unfolding recover_segment_rs30_3
  recover_segment_rs30_3_refuses segments parity target h = ground arith
