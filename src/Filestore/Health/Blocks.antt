-- ===== src/Filestore/Health/Blocks.antt =====
-- The health check of tier 3, the choice between the tiers, and the check of all files, of
-- src/filestore/health.rs.
pub use blockframe_rs.Disk.Names.{block_parity_file}
use blockframe_rs.Base.{
  ℕ, ◌+◌, ◌-◌, Bool, true, false, not, ◌&&◌, List, [], ◌∷◌, ◌++◌, Text, text, text_eq, Result, ok,
  err, message, ok_or, ◌>>=◌, length, drop, min, leb, ltb, ◌==◌, if◌then◌else◌, clamp_usize,
}
use blockframe_rs.Base.Decimal.{to_string}
use blockframe_rs.Utils.{Hasher}
use blockframe_rs.Manifest.{is_empty}
use blockframe_rs.Filestore.Models.{
  PathBuf, join, parent_dir, FileSystem, File, HealthStatus, healthy, degraded, recoverable,
  unrecoverable, HealthReport, BatchHealthReport,
}
use blockframe_rs.Filestore.Health.{
  segment_file, count_existing, health_check_tiny, health_check_segment,
}

abbrev pub starts_with : Text → Text → Bool
starts_with name [] = true
starts_with [] (p ∷ prefix) = false
starts_with (c ∷ name) (p ∷ prefix) = c == p && starts_with name prefix

abbrev pub ends_with : Text → Text → Bool
ends_with name suffix =
    leb (length suffix) (length name) && text_eq (drop (length name - length suffix) name) suffix

-- The names that the filter on `segment_` and `.dat` counts.
unfoldable pub count_segments : List Text → ℕ
count_segments [] = 0
count_segments (name ∷ names) =
    if starts_with name (text "segment_") && ends_with name (text ".dat")
    then count_segments names + 1
    else count_segments names

-- What the loop over the blocks finds.
pub record BlockFindings : Type 0 where
  pub missing_data : List Text
  pub missing_parity : List Text
  pub total_blocks : ℕ
  pub healthy_blocks : ℕ
  pub recoverable_blocks : ℕ
  pub unrecoverable_blocks : ℕ

-- One block, ahead of what the later blocks give: its missing segments and its parity files.
unfoldable pub add_block : ℕ → List Text → ℕ → List Text → ℕ → BlockFindings → BlockFindings
add_block parity_shards missing_data parity_count missing_parity missing_in_block rest =
    let whole = missing_in_block == 0 && parity_count == parity_shards in
    let mendable = leb missing_in_block parity_shards && parity_count == parity_shards in
    record {
      missing_data = missing_data ++ rest.missing_data;
      missing_parity = missing_parity ++ rest.missing_parity;
      total_blocks = rest.total_blocks + 1;
      healthy_blocks = if whole then rest.healthy_blocks + 1 else rest.healthy_blocks;
      recoverable_blocks =
          if not whole && mendable then rest.recoverable_blocks + 1 else rest.recoverable_blocks;
      unrecoverable_blocks =
          if not whole && not mendable
          then rest.unrecoverable_blocks + 1
          else rest.unrecoverable_blocks;
    }

unfoldable pub block_status : BlockFindings → HealthStatus × Bool
block_status found =
    if found.healthy_blocks == found.total_blocks
    then (healthy, true)
    else if found.unrecoverable_blocks == 0 && ltb 0 found.recoverable_blocks
    then (recoverable, true)
    else if found.unrecoverable_blocks == 0 && not (is_empty found.missing_parity)
    then (degraded, true)
    else (unrecoverable, false)

abbrev pub block_report : BlockFindings → HealthReport
block_report found = record {
  status = (block_status found).0;
  missing_data = found.missing_data;
  missing_parity = found.missing_parity;
  corrupt_segments = [];
  can_recover = (block_status found).1;
  details =
      to_string found.healthy_blocks
      ++ (text "/"
          ++ (to_string found.total_blocks
              ++ (text " blocks healthy, "
                  ++ (to_string found.recoverable_blocks
                      ++ (text " recoverable, "
                          ++ (to_string found.unrecoverable_blocks ++ text " unrecoverable"))))));
}

abbrev pub is_healthy : HealthStatus → Bool
is_healthy healthy = true
is_healthy degraded = false
is_healthy recoverable = false
is_healthy unrecoverable = false

abbrev pub is_degraded : HealthStatus → Bool
is_degraded healthy = false
is_degraded degraded = true
is_degraded recoverable = false
is_degraded unrecoverable = false

abbrev pub is_recoverable : HealthStatus → Bool
is_recoverable healthy = false
is_recoverable degraded = false
is_recoverable recoverable = true
is_recoverable unrecoverable = false

abbrev pub is_unrecoverable : HealthStatus → Bool
is_unrecoverable healthy = false
is_unrecoverable degraded = false
is_unrecoverable recoverable = false
is_unrecoverable unrecoverable = true

-- The counts of `batch_health_check` after one more report ahead of the others.
unfoldable pub tally : Text → HealthReport → BatchHealthReport → BatchHealthReport
tally name report batch =
    let add = λ (n : ℕ) (s : HealthStatus → Bool). if s report.status then n + 1 else n in
    record {
      total_files = batch.total_files + 1;
      healthy_files = add batch.healthy_files is_healthy;
      degraded_files = add batch.degraded_files is_degraded;
      recoverable_files = add batch.recoverable_files is_recoverable;
      unrecoverable_files = add batch.unrecoverable_files is_unrecoverable;
      reports = (name, report) ∷ batch.reports;
    }

module _ (H : Hasher) (F : FileSystem) (w : F.World) where
  -- `fs::read_dir(path)?` with the filter on directories.
  unfoldable pub directories_of : PathBuf → List Text → List Text
  directories_of path [] = []
  directories_of path (name ∷ names) =
      if F.is_dir w (join path name)
      then name ∷ directories_of path names
      else directories_of path names

  unfoldable pub check_blocks : PathBuf → ℕ → ℕ → List Text → Result BlockFindings
  check_blocks blocks_path data_shards parity_shards [] = ok (record {
    missing_data = [];
    missing_parity = [];
    total_blocks = 0;
    healthy_blocks = 0;
    recoverable_blocks = 0;
    unrecoverable_blocks = 0;
  })
  check_blocks blocks_path data_shards parity_shards (block_name ∷ blocks) = do
    let block_dir = join blocks_path block_name
    let segments_dir = join block_dir (text "segments")
    let label = λ (name : Text). block_name ++ (text "/" ++ name)
    names ← F.read_dir w segments_dir
    let segment_count = min (count_segments names) data_shards
    let (present, missing_data) =
        count_existing H F w segments_dir segment_file (λ i. label (segment_file i)) 0 segment_count
    let (parity_count, missing_parity) =
        count_existing H F w (join block_dir (text "parity")) block_parity_file
          (λ i. label (block_parity_file i)) 0 parity_shards
    rest ← check_blocks blocks_path data_shards parity_shards blocks
    ok (add_block parity_shards missing_data parity_count missing_parity (length missing_data) rest)

  unfoldable pub health_check_block : File → Result HealthReport
  health_check_block file_obj = do
    file_dir ←
        ok_or (parent_dir file_obj.file_data.path) (message (text "No parent directory found"))
    let blocks_path = join file_dir (text "blocks")
    names ← F.read_dir w blocks_path
    found ←
        check_blocks blocks_path (clamp_usize file_obj.manifest.erasure_coding.data_shards)
          (clamp_usize file_obj.manifest.erasure_coding.parity_shards)
          (directories_of blocks_path names)
    ok (block_report found)

  unfoldable pub health_check : File → Result HealthReport
  health_check file_obj =
      if file_obj.manifest.tier == 1
      then health_check_tiny H F w file_obj
      else if file_obj.manifest.tier == 2
      then health_check_segment H F w file_obj
      else if file_obj.manifest.tier == 3
      then health_check_block file_obj
      else err (message (text "unknown file"))

  -- The files are those that `get_all` gives.
  unfoldable pub batch_health_check : List File → Result BatchHealthReport
  batch_health_check [] = ok (record {
    total_files = 0;
    healthy_files = 0;
    degraded_files = 0;
    recoverable_files = 0;
    unrecoverable_files = 0;
    reports = [];
  })
  batch_health_check (file ∷ files) = do
    report ← health_check file
    rest ← batch_health_check files
    ok (tally file.file_name report rest)
