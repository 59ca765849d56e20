-- ===== src/Filestore/Repair/Blocked.antt =====
-- `repair_blocked` and `repair` of src/filestore/health.rs.
use blockframe_rs.Base.{
  ℕ, zero, suc, ◌+◌, not, List, [], ◌∷◌, ◌++◌, Text, Bytes, text, Result, ok, err, message, ok_or,
  ◌>>=◌, length, min, ltb, ◌==◌, if◌then◌else◌, clamp_usize,
}
use blockframe_rs.Base.Decimal.{to_string}
use blockframe_rs.Base.Exec.{Exec, proceed}
use blockframe_rs.Utils.{Hasher}
use blockframe_rs.ReedSolomon.{ReedSolomon}
use blockframe_rs.Manifest.{is_empty}
use blockframe_rs.Filestore.Models.{PathBuf, join, parent_dir, FileSystem, File}
use blockframe_rs.Filestore.Health.{segment_file}
use blockframe_rs.Filestore.Health.Blocks.{
  count_segments, block_parity_file, directories_of, health_check, is_healthy,
}
use blockframe_rs.Filestore.Repair.{
  decode_blocked, read_files, repair_tiny, repair_segment, error_text,
}

-- The indices of the segments that cannot be read, from `i` on.
unfoldable pub missing_indices : ℕ → List (Result Bytes) → List ℕ
missing_indices i [] = []
missing_indices i (err e ∷ reads) = i ∷ missing_indices (i + 1) reads
missing_indices i (ok bytes ∷ reads) = missing_indices (i + 1) reads

-- The segments that can be read, with their indices.
unfoldable pub valid_segments : ℕ → List (Result Bytes) → List (ℕ × Bytes)
valid_segments i [] = []
valid_segments i (err e ∷ reads) = valid_segments (i + 1) reads
valid_segments i (ok bytes ∷ reads) = (i, bytes) ∷ valid_segments (i + 1) reads

module _ (H : Hasher) (R : ReedSolomon) (F : FileSystem) where
  -- The parity files of a block, from `i` on, with the message for one that cannot be read.
  unfoldable pub read_parities : F.World → PathBuf → PathBuf → ℕ → ℕ → Result (List Bytes)
  read_parities w block_dir parity_dir i zero = ok []
  read_parities w block_dir parity_dir i (suc rounds) =
      elim (F.read w (join parity_dir (block_parity_file i))) [
        | err e ↦ err (
            message (
              text "Failed to read parity "
              ++ (to_string i
                  ++ (text " in " ++ (F.debug block_dir ++ (text ": " ++ error_text e))))))
        | ok bytes ↦
            read_parities w block_dir parity_dir (i + 1) rounds >>= λ rest. ok (bytes ∷ rest)
      ]

  unfoldable pub write_restored : PathBuf → R.Restored → List ℕ → Exec F.World (Unit {0})
  write_restored segments_dir result [] w = (ok tt, w)
  write_restored segments_dir result (idx ∷ indices) w =
      proceed
        (
          ok_or (R.restored_original result idx)
              (message (text "Failed to restore segment " ++ to_string idx)),
          w,
        )
        (λ recovered w.
          proceed (F.write (join segments_dir (segment_file idx)) recovered w)
            (λ _. write_restored segments_dir result indices))

  -- A block with missing segments.
  unfoldable pub rebuild_block : PathBuf → ℕ → ℕ → ℕ → List (Result Bytes) → Exec F.World (Unit {0})
  rebuild_block block_dir segment_count parity_shards segment_size reads w =
      let missing = missing_indices 0 reads in
      if is_empty missing
      then (ok tt, w)
      else if ltb parity_shards (length missing)
      then (
        err (
            message (
              text "Block "
              ++ (F.debug block_dir
                  ++ (text " has "
                      ++ (to_string (length missing)
                          ++ (text " missing segments but only "
                              ++ (to_string parity_shards
                                  ++ text " parity shards - unrecoverable"))))))),
        w,
      )
      else proceed
          (
            read_parities w block_dir (join block_dir (text "parity")) 0 parity_shards
                >>= decode_blocked R segment_count parity_shards segment_size
                    (valid_segments 0 reads),
            w,
          )
          (λ result. write_restored (join block_dir (text "segments")) result missing)

  unfoldable pub repair_blocks : PathBuf → ℕ → ℕ → ℕ → List Text → Exec F.World (Unit {0})
  repair_blocks blocks_path data_shards parity_shards segment_size [] w = (ok tt, w)
  repair_blocks blocks_path data_shards parity_shards segment_size (block_name ∷ blocks) w =
      let block_dir = join blocks_path block_name in
      let segments_dir = join block_dir (text "segments") in
      proceed (F.read_dir w segments_dir, w)
        (λ names w.
          let segment_count = min (count_segments names) data_shards in
          proceed
            (rebuild_block block_dir segment_count parity_shards segment_size
              (read_files H R F w segments_dir segment_file 0 segment_count) w)
            (λ _. repair_blocks blocks_path data_shards parity_shards segment_size blocks))

  unfoldable pub repair_blocked : File → Exec F.World (Unit {0})
  repair_blocked file_obj w =
      proceed
        (ok_or (parent_dir file_obj.file_data.path) (message (text "No parent directory found")), w)
        (λ file_dir w.
          let blocks_path = join file_dir (text "blocks") in
          proceed (F.read_dir w blocks_path, w)
            (λ names w.
              repair_blocks blocks_path (clamp_usize file_obj.manifest.erasure_coding.data_shards)
                (clamp_usize file_obj.manifest.erasure_coding.parity_shards)
                file_obj.manifest.segment_size (directories_of H F w blocks_path names) w))

  unfoldable pub repair : File → Exec F.World (Unit {0})
  repair file_obj w =
      proceed (health_check H F w file_obj, w)
        (λ health w.
          if not health.can_recover
          then (err (message (text "File is unrecoverable: " ++ health.details)), w)
          else if is_healthy health.status
          then (ok tt, w)
          else if file_obj.manifest.tier == 1
          then repair_tiny H R F file_obj w
          else if file_obj.manifest.tier == 2
          then repair_segment H R F file_obj w
          else if file_obj.manifest.tier == 3
          then repair_blocked file_obj w
          else (err (message (text "unknown tier")), w))
