-- ===== src/Chunker/Commit.antt =====
-- src/chunker/commit.rs
pub mod Blocked
pub mod Tiny
pub mod Whole
pub mod Success
pub mod Laws
pub mod Segmented
use blockframe_rs.Base.{
  ℕ, zero, suc, ◌+◌, ◌*◌, ◌≤◌, Bool, Option, none, some, List, [], ◌∷◌, ◌++◌, map, Text, Bytes,
  text, Result, ok, err, message, external, ok_or, length, take, get_elem?, piece, div_ceil, leb,
  ◌==◌, HashMap, if◌then◌else◌,
}
use blockframe_rs.Base.Exec.{Exec, pure, lift, ◌>>=◌, ◌>>◌}
use blockframe_rs.Utils.{Hasher, blake3_hash_bytes, determine_segment_size}
use blockframe_rs.ReedSolomon.{ReedSolomon}
use blockframe_rs.Merkle.{MerkleTree, from_hashes, get_root}
use blockframe_rs.Manifest.{SegmentHashes}
use blockframe_rs.Disk.{PathBuf, join, file_name_of, FileSystem}
use blockframe_rs.Disk.Names.{data_file}
use blockframe_rs.Chunker.{Chunker, ChunkedFile}
use blockframe_rs.Chunker.Generate.{padded_size, generate_parity_segmented}
use blockframe_rs.Chunker.Io.{
  Serde, get_dir, create_dir, check_for_archive_dir, write_segment, write_parity_chunks,
  write_segment_parities, write_manifest, write_manifest_struct,
}

-- The tier for a size, from `TIER_1_LIMIT` and `TIER_2_LIMIT`.
unfoldable pub choose_tier : ℕ → ℕ
choose_tier file_size =
    if leb file_size 25_000_000 then 1 else if leb file_size 1_000_000_000 then 2 else 3

-- An index out of range, and a division by zero, panic; a commit does not come to them.
abbrev pub at : List Bytes → ℕ → Result Bytes
at parity i = ok_or (get_elem? parity i) (external (text "index out of bounds"))

-- The lists of hashes are not empty, so that `from_hashes` returns.
abbrev pub tree_or : Option MerkleTree → Result MerkleTree
tree_or tree = ok_or tree (external (text "unreachable"))

abbrev pub segments_of : ℕ → ℕ → Result ℕ
segments_of file_size segment_size =
    if segment_size == 0
    then err (external (text "attempt to divide by zero"))
    else ok (div_ceil file_size segment_size)

-- `get_dir` before the hash is known.
abbrev pub placeholder : Text
placeholder = text "computing"

module _ (H : Hasher) (R : ReedSolomon) (F : FileSystem) where
  -- What the loop over the segments collects: the hasher, `segments_map` and `segment_hashes`.
  abbrev pub Collected : Type 0
  Collected = H.State × HashMap ℕ SegmentHashes × List Text

  -- The loop of `commit_segmented`, from `segment_index` on.
  unfoldable pub segment_loop :
      PathBuf → PathBuf → Bytes → ℕ → H.State → ℕ → ℕ → Exec F.World Collected
  segment_loop segments_dir parity_dir file_data segment_size file_hasher segment_index zero w =
      (ok (file_hasher, [], []), w)
  segment_loop segments_dir parity_dir file_data segment_size file_hasher segment_index (suc rounds)
        w =
      let segment_data = piece file_data segment_size segment_index in
      let hasher = H.update file_hasher segment_data in
      let rest =
        segment_loop segments_dir parity_dir file_data segment_size hasher (segment_index + 1)
          rounds in
      (do
        parity ← lift (generate_parity_segmented R segment_data)
        write_segment F segment_index segments_dir segment_data
        write_segment_parities F segment_index parity_dir parity
        let data_hash = blake3_hash_bytes H segment_data
        let parity_hashes = map (blake3_hash_bytes H) parity
        segment_tree ← lift (tree_or (from_hashes H (data_hash ∷ parity_hashes)))
        (final, segments_map, segment_hashes) ← rest
        pure (
          final,
          (segment_index, record { segment_data = data_hash; parity = parity_hashes })
              ∷ segments_map,
          get_root segment_tree ∷ segment_hashes,
        ))
        w

module _ (H : Hasher) (R : ReedSolomon) (F : FileSystem) (J : Serde) (self : Chunker) where
  unfoldable pub commit_tiny : PathBuf → ℕ → ℕ → Exec F.World ChunkedFile
  commit_tiny file_path file_size tier = do
    file_data ← λ w. (F.read w file_path, w)
    parity ← lift (generate_parity_segmented R file_data)
    file_name ← lift (ok_or (file_name_of file_path) (message (text "error getting filename")))
    let file_hash = blake3_hash_bytes H file_data
    p ← lift (at parity 0)
    q ← lift (at parity 1)
    r ← lift (at parity 2)
    let file_dir = get_dir file_name file_hash
    check_for_archive_dir F
    create_dir F file_dir
    F.write (join file_dir data_file) file_data
    write_parity_chunks F file_dir parity
    merkle_tree ← lift (
        tree_or (
          from_hashes H (
            file_hash
            ∷ blake3_hash_bytes H p
            ∷ blake3_hash_bytes H q
            ∷ blake3_hash_bytes H r
            ∷ [])))
    write_manifest F J merkle_tree file_hash file_name file_size 6 3 file_dir tier
        (padded_size (length file_data))
    pure (record {
      file_name = file_name;
      file_size = file_size;
      file_dir = file_dir;
      file_trun_hash = take 10 file_hash;
      file_hash = file_hash;
      merkle_tree = merkle_tree;
      segment_size = 0;
      num_segments = 0;
      data_shards = self.data_shards;
      parity_shards = self.parity_shards;
    })

  -- The available memory is what `detect_available_memory` reports.
  unfoldable pub commit_segmented : ℕ → PathBuf → ℕ → Exec F.World ChunkedFile
  commit_segmented available_ram file_path tier = do
    file_data ← λ w. (F.read w file_path, w)
    let file_size = length file_data
    file_name ← lift (ok_or (file_name_of file_path) (message (text "error getting filename")))
    let segment_size = determine_segment_size file_size available_ram
    num_segments ← lift (segments_of file_size segment_size)
    let file_dir = get_dir file_name placeholder
    create_dir F file_dir
    create_dir F (join file_dir (text "parity"))
    create_dir F (join file_dir (text "segments"))
    check_for_archive_dir F
    (file_hasher, segments_map, segment_hashes) ←
        segment_loop H R F (join file_dir (text "segments")) (join file_dir (text "parity"))
          file_data segment_size H.init 0 num_segments
    let file_hash = H.finalize file_hasher
    let final_file_dir = get_dir file_name file_hash
    F.rename file_dir final_file_dir
    root_tree ← lift (tree_or (from_hashes H segment_hashes))
    write_manifest_struct F J
        (record { leaves = []; segments = segments_map; blocks = []; root = get_root root_tree })
        file_hash file_name file_size 6 3 final_file_dir tier segment_size
    pure (record {
      file_name = file_name;
      file_size = file_size;
      file_dir = final_file_dir;
      file_trun_hash = take 10 file_hash;
      file_hash = file_hash;
      merkle_tree = root_tree;
      segment_size = segment_size;
      num_segments = num_segments;
      data_shards = self.data_shards;
      parity_shards = self.parity_shards;
    })
