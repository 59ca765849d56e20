-- ===== src/Chunker.antt =====
-- src/chunker
pub mod Generate
pub mod Io
pub mod Commit
use blockframe_rs.Base.{ℕ, Bool, false, Option, none, some, Text}
use blockframe_rs.Disk.{PathBuf}
use blockframe_rs.Merkle.{MerkleTree}

-- `Chunker` of src/chunker/mod.rs
pub record Chunker : Type 0 where
  pub file_name : Option Text
  pub file_size : Option ℕ
  pub file_dir : Option PathBuf
  pub file_trun_hash : Option Text
  pub file_hash : Option Text
  pub merkle_tree : Option MerkleTree
  pub committed : Option Bool
  pub segment_size : Option ℕ
  pub num_segments : Option ℕ
  pub data_shards : ℕ
  pub parity_shards : ℕ

pub record ChunkedFile : Type 0 where
  pub file_name : Text
  pub file_size : ℕ
  pub file_dir : PathBuf
  pub file_trun_hash : Text
  pub file_hash : Text
  pub merkle_tree : MerkleTree
  pub segment_size : ℕ
  pub num_segments : ℕ
  pub data_shards : ℕ
  pub parity_shards : ℕ

-- `Chunker::new`
abbrev pub new_chunker : Chunker
new_chunker = record {
  file_name = none;
  file_size = none;
  file_dir = none;
  file_trun_hash = none;
  file_hash = none;
  merkle_tree = none;
  committed = some false;
  segment_size = none;
  num_segments = none;
  data_shards = 6;
  parity_shards = 3;
}
