-- ===== src/Chunker/Io.antt =====
-- src/chunker/io.rs. A buffered writer that is flushed writes the file; the writes that run in
-- parallel go to different files, and the model makes them in order.
pub mod Laws
use blockframe_rs.Base.{
  ℕ, zero, suc, ◌+◌, Bool, true, false, not, List, [], ◌∷◌, ◌++◌, Text, Bytes, text, Result, ok,
  err, ℤ, pos, HashMap, if◌then◌else◌,
}
use blockframe_rs.Base.Exec.{Exec, pure, ◌>>=◌, ◌>>◌}
use blockframe_rs.Merkle.{Node, MerkleTree, hash_val, get_root}
use blockframe_rs.Manifest.{ManifestFile, MerkleTreeStructure}
use blockframe_rs.Disk.{PathBuf, join, FileSystem}
use blockframe_rs.Disk.Names.{
  parity_file, segment_file, segment_parity_file, block_parity_file, manifest_file,
}

-- `serde_json` at the type of manifests, which is not part of the repository. `to_string` is given
-- the manifest that the JSON object stands for, with the defaults of the fields that it lacks.
pub record Serde : Type 0 where
  pub to_string : ManifestFile → Bytes
  pub from_str : Bytes → Result ManifestFile

abbrev pub archive_directory : Text
archive_directory = text "archive_directory"

-- `get_dir`
abbrev pub get_dir : Text → Text → PathBuf
get_dir file_name file_hash = archive_directory ∷ (file_name ++ (text "_" ++ file_hash)) ∷ []

-- `leaves_object` of `get_json`, from the index `i` on.
abbrev pub leaves_object : ℕ → List Node → HashMap ℤ Text
leaves_object i [] = []
leaves_object i (leaf ∷ leaves) = (pos i, hash_val leaf) ∷ leaves_object (i + 1) leaves

-- `get_json`
abbrev pub get_json : MerkleTree → MerkleTreeStructure
get_json tree = record {
  leaves = leaves_object 0 tree.leaves;
  segments = [];
  blocks = [];
  root = get_root tree;
}

module _ (F : FileSystem) where
  unfoldable pub create_dir : PathBuf → Exec F.World Bool
  create_dir file_dir w =
      if not (F.is_dir w file_dir)
      then (do F.create_dir_all file_dir; pure true) w
      else (ok false, w)

  unfoldable pub check_for_archive_dir : Exec F.World Bool
  check_for_archive_dir w =
      if not (F.is_dir w (archive_directory ∷ []))
      then (do create_dir (archive_directory ∷ []); pure false) w
      else (ok true, w)

  unfoldable pub write_segment : ℕ → PathBuf → Bytes → Exec F.World (Unit {0})
  write_segment segment_index segment_dir segment =
      F.write (join segment_dir (segment_file segment_index)) segment

  -- The loop over parity chunks that the three functions below share, from `index` on.
  unfoldable pub write_chunks : PathBuf → (ℕ → Text) → ℕ → List Bytes → Exec F.World (Unit {0})
  write_chunks parity_dir name index [] w = (ok tt, w)
  write_chunks parity_dir name index (chunk ∷ parity) w =
      (do
        F.write (join parity_dir (name index)) chunk
        write_chunks parity_dir name (index + 1) parity)
        w

  unfoldable pub write_parity_chunks : PathBuf → List Bytes → Exec F.World (Unit {0})
  write_parity_chunks parity_dir parity = write_chunks parity_dir parity_file 0 parity

  unfoldable pub write_segment_parities : ℕ → PathBuf → List Bytes → Exec F.World (Unit {0})
  write_segment_parities segment_idx parity_dir parity =
      write_chunks parity_dir (segment_parity_file segment_idx) 0 parity

  unfoldable pub write_blocked_parities : PathBuf → List Bytes → Exec F.World (Unit {0})
  write_blocked_parities parity_dir parity = write_chunks parity_dir block_parity_file 0 parity

  module _ (J : Serde) where
    unfoldable pub write_manifest_struct :
        MerkleTreeStructure → Text → Text → ℕ → ℕ → ℕ → PathBuf → ℕ → ℕ → Exec F.World (Unit {0})
    write_manifest_struct tree hash name size data_shards parity_shards dir tier segment_size w =
        F.write (join dir manifest_file)
          (J.to_string (record {
            erasure_coding = record {
              data_shards = pos data_shards;
              parity_shards = pos parity_shards;
              type = text "reed-solomon";
            };
            merkle_tree = tree;
            name = name;
            original_hash = hash;
            size = pos size;
            time_of_creation = F.now w;
            tier = tier;
            segment_size = segment_size;
          }))
          w

    unfoldable pub write_manifest :
        MerkleTree → Text → Text → ℕ → ℕ → ℕ → PathBuf → ℕ → ℕ → Exec F.World (Unit {0})
    write_manifest tree = write_manifest_struct (get_json tree)
