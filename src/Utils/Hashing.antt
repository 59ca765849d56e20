-- ===== src/Utils/Hashing.antt =====
-- What the functions of src/utils.rs promise.
use blockframe_rs.Base.{ℕ, ◌*◌, ◌≤◌, ◌<◌, ◌≡◌, ap, ◌∙◌, sym, List, [], ◌∷◌, Bytes, concat, arith}
use blockframe_rs.Utils.{
  Hasher, IsIncremental, blake3_hash_bytes, copy_into, hash_file_streaming, determine_segment_size,
}

module _ (H : Hasher) (L : IsIncremental H) where
  copy_into-concat :
      (s : H.State) (buffers : List Bytes) → copy_into H s buffers ≡ H.update s (concat buffers)
  unfolding copy_into
  copy_into-concat s [] = sym (L.update_nil s)
  copy_into-concat s (b ∷ bs) = copy_into-concat (H.update s b) bs ∙ L.update-append s b (concat bs)

  -- Hashing a file in buffers, however they are cut, gives the hash of its whole contents.
  pub hash_file_streaming-eq :
      (buffers : List Bytes) → hash_file_streaming H buffers ≡ blake3_hash_bytes H (concat buffers)
  unfolding hash_file_streaming blake3_hash_bytes
  hash_file_streaming-eq buffers = ap H.finalize (copy_into-concat H.init buffers)

-- A file that is not empty is cut into segments of at least one byte and at most 32 MiB.
pub determine_segment_size_bounds :
    (file_size available_ram : ℕ)
    → 0 < file_size
    → (0 < determine_segment_size file_size available_ram)
      × (determine_segment_size file_size available_ram ≤ 32 * 1024 * 1024)
unfolding determine_segment_size
determine_segment_size_bounds file_size available_ram h = ground arith
