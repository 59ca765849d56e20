-- ===== src/Chunker/Commit/Blocked.antt =====
-- `commit_blocked` and `commit` of src/chunker/commit.rs. The blocks, and the writes of a block's
-- segments, run in parallel and go to different files; the model makes them in order.
pub mod Parts
pub mod Stored
pub mod Rounds
pub mod Archive
pub mod Laws
use blockframe_rs.Base.{
  ℕ, zero, suc, ◌+◌, ◌*◌, List, [], ◌∷◌, ◌++◌, map, Text, Bytes, text, ok, err, message, ok_or,
  length, take, piece, div_ceil, leb, ◌==◌, HashMap, if◌then◌else◌,
}
use blockframe_rs.Base.Exec.{Exec, pure, lift, ◌>>=◌, ◌>>◌}
use blockframe_rs.Utils.{Hasher, blake3_hash_bytes, determine_segment_size}
use blockframe_rs.ReedSolomon.{ReedSolomon}
use blockframe_rs.Merkle.{from_hashes, get_root}
use blockframe_rs.Manifest.{BlockHashes}
use blockframe_rs.Disk.{PathBuf, join, file_name_of, FileSystem}
use blockframe_rs.Disk.Names.{block_name}
use blockframe_rs.Chunker.{Chunker, ChunkedFile}
use blockframe_rs.Chunker.Generate.{generate_parity}
use blockframe_rs.Chunker.Io.{
  Serde, get_dir, create_dir, check_for_archive_dir, write_segment, write_blocked_parities,
  write_manifest_struct,
}
use blockframe_rs.Chunker.Commit.{
  choose_tier, tree_or, segments_of, placeholder, commit_tiny, commit_segmented,
}

-- `block_segments_refs`: the loop `for segment_index in 0..30`, which breaks at the end of the file.
unfoldable pub block_segments : Bytes → ℕ → ℕ → ℕ → List Bytes
block_segments file_data segment_size global_segment zero = []
block_segments file_data segment_size global_segment (suc rounds) =
    let rest = block_segments file_data segment_size (global_segment + 1) rounds in
    if leb (length file_data) (global_segment * segment_size)
    then []
    else piece file_data segment_size global_segment ∷ rest

-- A step whose error is dropped: `let _ = …`.
abbrev pub attempt : {S A : Type 0} → Exec S A → Exec S (Unit {0})
attempt m s = (ok tt, (m s).1)

-- `for (i, b) in block_structs.into_iter().enumerate()`, from `i` on.
abbrev pub number_blocks : ℕ → List BlockHashes → HashMap ℕ BlockHashes
number_blocks i [] = []
number_blocks i (b ∷ blocks) = (i, b) ∷ number_blocks (i + 1) blocks

module _ (H : Hasher) (R : ReedSolomon) (F : FileSystem) where
  -- The directories of the blocks, from `i` on.
  unfoldable pub create_block_dirs : PathBuf → ℕ → ℕ → Exec F.World (Unit {0})
  create_block_dirs blocks_dir i zero w = (ok tt, w)
  create_block_dirs blocks_dir i (suc rounds) w =
      let dir = join blocks_dir (block_name i) in
      (do
        create_dir F dir
        create_dir F (join dir (text "segments"))
        create_dir F (join dir (text "parity"))
        create_block_dirs blocks_dir (i + 1) rounds)
        w

  -- The segments of one block, from `segment_index` on, with their hashes.
  unfoldable pub write_segments : PathBuf → ℕ → List Bytes → Exec F.World (List Text)
  write_segments dir segment_index [] w = (ok [], w)
  write_segments dir segment_index (segment_data ∷ segments) w =
      (do
        write_segment F segment_index dir segment_data
        hashes ← write_segments dir (segment_index + 1) segments
        pure (blake3_hash_bytes H segment_data ∷ hashes))
        w

  unfoldable pub commit_block : PathBuf → Bytes → ℕ → ℕ → Exec F.World (Text × BlockHashes)
  commit_block blocks_dir file_data segment_size block_index = do
    let dir = join blocks_dir (block_name block_index)
    let segments = block_segments file_data segment_size (block_index * 30) 30
    segment_hashes ← write_segments (join dir (text "segments")) 0 segments
    parity ← lift (generate_parity R segments (length segments) 3)
    write_blocked_parities F (join dir (text "parity")) parity
    let parity_hashes = map (blake3_hash_bytes H) parity
    block_merkle ← lift (tree_or (from_hashes H (segment_hashes ++ parity_hashes)))
    pure (get_root block_merkle, record { segments = segment_hashes; parity = parity_hashes })

  -- The blocks from `block_index` on: their roots and their hashes.
  unfoldable pub commit_blocks :
      PathBuf → Bytes → ℕ → ℕ → ℕ → Exec F.World (List Text × List BlockHashes)
  commit_blocks blocks_dir file_data segment_size block_index zero w = (ok ([], []), w)
  commit_blocks blocks_dir file_data segment_size block_index (suc rounds) w =
      (do
        (root, hashes) ← commit_block blocks_dir file_data segment_size block_index
        (roots, blocks) ← commit_blocks blocks_dir file_data segment_size (block_index + 1) rounds
        pure (root ∷ roots, hashes ∷ blocks))
        w

  module _ (J : Serde) (self : Chunker) (available_ram : ℕ) where
    unfoldable pub commit_blocked : PathBuf → ℕ → Exec F.World ChunkedFile
    commit_blocked file_path tier = do
      file_data ← λ w. (F.read w file_path, w)
      let file_size = length file_data
      file_name ← lift (ok_or (file_name_of file_path) (message (text "error getting filename")))
      let segment_size = determine_segment_size file_size available_ram
      num_segments ← lift (segments_of file_size segment_size)
      let blocks = div_ceil num_segments 30
      let file_dir = get_dir file_name placeholder
      check_for_archive_dir F
      let blocks_dir = join file_dir (text "blocks")
      create_dir F file_dir
      create_dir F blocks_dir
      attempt (create_block_dirs blocks_dir 0 blocks)
      (block_root_hashes, block_structs) ← commit_blocks blocks_dir file_data segment_size 0 blocks
      let file_hash = blake3_hash_bytes H file_data
      let final_file_dir = get_dir file_name file_hash
      F.rename file_dir final_file_dir
      root_tree ← lift (tree_or (from_hashes H block_root_hashes))
      write_manifest_struct F J
          (record {
            leaves = [];
            segments = [];
            blocks = number_blocks 0 block_structs;
            root = get_root root_tree;
          })
          file_hash file_name file_size 30 3 final_file_dir tier segment_size
      pure (record {
        file_name = file_name;
        file_size = file_size;
        file_dir = final_file_dir;
        file_trun_hash = take 10 file_hash;
        file_hash = file_hash;
        merkle_tree = root_tree;
        segment_size = segment_size;
        num_segments = num_segments;
        data_shards = self.data_shards;
        parity_shards = self.parity_shards;
      })

    unfoldable pub commit : PathBuf → Exec F.World ChunkedFile
    commit file_path = do
      file_data ← λ w. (F.read w file_path, w)
      let file_size = length file_data
      let tier = choose_tier file_size
      (if file_size == 0
          then lift (err (message (text "empty file")))
          else if tier == 1
          then commit_tiny H R F J self file_path file_size tier
          else if tier == 2
          then commit_segmented H R F J self available_ram file_path tier
          else commit_blocked file_path tier)
