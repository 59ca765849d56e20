-- ===== src/Filestore/Repair.antt =====
-- The repairs of src/filestore/health.rs.
pub mod Blocked
pub mod Laws
pub mod Archived
pub mod Idle
use blockframe_rs.Base.{
  ℕ, zero, suc, ◌+◌, Bool, true, false, not, ◌&&◌, Option, none, some, List, [], ◌∷◌, ◌++◌, Text,
  Bytes, text, text_eq, Result, Error, ok, err, message, external, ok_or, ◌>>=◌, length, min, ltb,
  ◌==◌, if◌then◌else◌, clamp_usize, HashMap, lookup, i32_key, ℤ, to_i32, get_elem?,
}
use blockframe_rs.Base.Decimal.{to_string}
use blockframe_rs.Base.Exec.{Exec, pure, lift, proceed}
use blockframe_rs.Base.Exec as Exec
use blockframe_rs.Utils.{Hasher, blake3_hash_bytes}
use blockframe_rs.ReedSolomon.{ReedSolomon}
use blockframe_rs.Merkle.{new, get_root}
use blockframe_rs.Manifest.{is_empty}
use blockframe_rs.Filestore.Models.{
  PathBuf, join, parent_dir, FileSystem, File, HealthStatus, healthy, HealthReport,
}
use blockframe_rs.Filestore.Health.{data_file, parity_file, segment_file, segment_parity_file}
use blockframe_rs.Filestore.Health.Blocks.{
  count_segments, block_parity_file, directories_of, health_check,
}

abbrev pub error_text : Error → Text
error_text (message t) = t
error_text (external t) = t

module _ (H : Hasher) where
  -- The list is not empty, so that `MerkleTree::new` returns.
  unfoldable pub hash_segment_with_parity : Bytes → List Bytes → Result Text
  hash_segment_with_parity segment_data parity = elim (new H (segment_data ∷ parity)) [
    | none ↦ err (external (text "unreachable"))
    | some tree ↦ ok (get_root tree)
  ]

module _ (R : ReedSolomon) where
  abbrev pub add_shards : R.Decoder → ℕ → List Bytes → Result R.Decoder
  add_shards d i [] = ok d
  add_shards d i (shard ∷ shards) =
      R.add_recovery_shard d i shard >>= λ d'. add_shards d' (i + 1) shards

  -- The parity files that can be read, from `i` on.
  unfoldable pub add_available : R.Decoder → ℕ → List (Result Bytes) → Result R.Decoder
  add_available d i [] = ok d
  add_available d i (err e ∷ reads) = add_available d (i + 1) reads
  add_available d i (ok parity ∷ reads) =
      R.add_recovery_shard d i parity >>= λ d'. add_available d' (i + 1) reads

  unfoldable pub decode_tiny : ℕ → List (Result Bytes) → Result Bytes
  decode_tiny shard_size reads = do
    d ← R.decoder_new 1 3 shard_size
    d' ← add_available d 0 reads
    restored ← R.decode d'
    ok_or (R.restored_original restored 0) (message (text "Failed to restore original data"))

  unfoldable pub decode_segment : ℕ → ℕ → List Bytes → Result Bytes
  decode_segment segment_idx parity_shards [] =
      err (message (text "Parity chunks are empty for segment " ++ to_string segment_idx))
  decode_segment segment_idx parity_shards (chunk ∷ chunks) = do
    d ← R.decoder_new 1 parity_shards (length chunk)
    d' ← add_shards d 0 (chunk ∷ chunks)
    restored ← R.decode d'
    ok_or (R.restored_original restored 0) (message (text "unable to restore original segment"))

  abbrev pub add_originals : R.Decoder → List (ℕ × Bytes) → Result R.Decoder
  add_originals d [] = ok d
  add_originals d ((idx, shard) ∷ shards) =
      R.add_original_shard d idx shard >>= λ d'. add_originals d' shards

  abbrev shard_size_of : List Bytes → ℕ → ℕ
  shard_size_of [] segment_size = segment_size
  shard_size_of (p ∷ parity) segment_size = length p

  unfoldable pub decode_blocked : ℕ → ℕ → ℕ → List (ℕ × Bytes) → List Bytes → Result R.Restored
  decode_blocked segment_count parity_shards segment_size valid_segments parity = do
    d ← R.decoder_new segment_count parity_shards (shard_size_of parity segment_size)
    d' ← add_originals d valid_segments
    d'' ← add_shards d' 0 parity
    R.decode d''

-- `Result` of reading some files, one after the other: the first error, or all contents.
abbrev pub collect : List (Result Bytes) → Result (List Bytes)
collect [] = ok []
collect (r ∷ reads) = r >>= λ bytes. collect reads >>= λ rest. ok (bytes ∷ rest)

module _ (H : Hasher) (R : ReedSolomon) (F : FileSystem) where
  unfoldable pub read_files : F.World → PathBuf → (ℕ → Text) → ℕ → ℕ → List (Result Bytes)
  read_files w dir name i zero = []
  read_files w dir name i (suc rounds) =
      F.read w (join dir (name i)) ∷ read_files w dir name (i + 1) rounds

  -- The test at the start of `repair_tiny`: the data is there and has the file's hash.
  unfoldable pub already_valid : F.World → PathBuf → Text → Result Bool
  already_valid w path hash =
      if F.exists w path
      then (F.read w path >>= λ bytes. ok (text_eq (blake3_hash_bytes H bytes) hash))
      else ok false

  unfoldable pub rebuild_tiny : PathBuf → ℕ → Exec F.World (Unit {0})
  rebuild_tiny file_dir shard_size w =
      proceed (decode_tiny R shard_size (read_files w file_dir parity_file 0 3), w)
        (λ recovered. F.write (join file_dir data_file) recovered)

  unfoldable pub repair_tiny : File → Exec F.World (Unit {0})
  repair_tiny file_obj w =
      proceed
        (ok_or (parent_dir file_obj.file_data.path) (message (text "No parent directory found")), w)
        (λ file_dir w.
          proceed (already_valid w (join file_dir data_file) file_obj.file_data.hash, w)
            (λ done.
              if done then pure tt else rebuild_tiny file_dir file_obj.manifest.segment_size))

  -- One segment of `repair_segment`: whether it is on the list of corrupt ones.
  unfoldable pub is_corrupt : F.World → PathBuf → PathBuf → ℕ → HashMap ℤ Text → ℕ → Result Bool
  is_corrupt w segments_path parity_path parity_shards leafs idx =
      elim (F.read w (join segments_path (segment_file idx))) [
        | err e ↦ ok true
        | ok segment_data ↦
            elim (collect (read_files w parity_path (segment_parity_file idx) 0 parity_shards)) [
              | err e ↦ ok true
              | ok parity ↦ do
                computed_hash ← hash_segment_with_parity H segment_data parity
                leaf_hash ←
                    ok_or (lookup (to_i32 idx) leafs)
                      (message (text "manifest leaf missing for segment index"))
                ok (not (text_eq computed_hash leaf_hash))
            ]
      ]

  -- The loop `for idx in 0..leafs.len()`, from `idx` on.
  unfoldable pub find_corrupt :
      F.World → PathBuf → PathBuf → ℕ → HashMap ℤ Text → ℕ → ℕ → Result (List ℕ)
  find_corrupt w segments_path parity_path parity_shards leafs idx zero = ok []
  find_corrupt w segments_path parity_path parity_shards leafs idx (suc rounds) = do
    corrupt ← is_corrupt w segments_path parity_path parity_shards leafs idx
    rest ← find_corrupt w segments_path parity_path parity_shards leafs (idx + 1) rounds
    ok (if corrupt then idx ∷ rest else rest)

  unfoldable pub rebuild_segments : PathBuf → PathBuf → ℕ → List ℕ → Exec F.World (Unit {0})
  rebuild_segments segments_path parity_path parity_shards [] w = (ok tt, w)
  rebuild_segments segments_path parity_path parity_shards (idx ∷ corrupt) w =
      proceed
        (
          collect (read_files w parity_path (segment_parity_file idx) 0 parity_shards)
              >>= decode_segment R idx parity_shards,
          w,
        )
        (λ recovered w.
          proceed (F.write (join segments_path (segment_file idx)) recovered w)
            (λ _. rebuild_segments segments_path parity_path parity_shards corrupt))

  unfoldable pub repair_segment : File → Exec F.World (Unit {0})
  repair_segment file_obj w =
      let parity_shards = clamp_usize file_obj.manifest.erasure_coding.parity_shards in
      let leafs = file_obj.manifest.merkle_tree.leaves in
      proceed
        (ok_or (parent_dir file_obj.file_data.path) (message (text "No parent directory found")), w)
        (λ file_dir w.
          let segments_path = join file_dir (text "segments") in
          let parity_path = join file_dir (text "parity") in
          proceed (find_corrupt w segments_path parity_path parity_shards leafs 0 (length leafs), w)
            (λ corrupt. rebuild_segments segments_path parity_path parity_shards corrupt))
