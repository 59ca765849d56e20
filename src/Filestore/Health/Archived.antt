-- ===== src/Filestore/Health/Archived.antt =====
-- The health check of src/filestore/health.rs on what a commit wrote.
use blockframe_rs.Base.{ℕ, ◌<◌, ◌≡◌, ap, ◌∙◌, sym, true, Text, Bytes, ok, get_elem?-of_lt, arith}
use blockframe_rs.Utils.{Hasher, blake3_hash_bytes}
use blockframe_rs.ReedSolomon.{ReedSolomon}
use blockframe_rs.Disk.{PathBuf, join, parent_dir, FileSystem}
use blockframe_rs.Disk.Laws.{parent_dir-join}
use blockframe_rs.Disk.Names.{parity_file, manifest_file}
use blockframe_rs.Chunker.Io.{Serde}
use blockframe_rs.Chunker.Commit.Tiny.{IsTinyArchive}
use blockframe_rs.Filestore.Models.{File, healthy, HealthReport}
use blockframe_rs.Filestore.Health.{health_check_tiny}
use blockframe_rs.Filestore.Health.Laws.{health_check_tiny-healthy_iff}

module _ (H : Hasher) (R : ReedSolomon) (F : FileSystem) (J : Serde) (dir : PathBuf) (name : Text)
    (file : Bytes) (w : F.World) (A : IsTinyArchive H R F J dir name file w) where
  parity_exists : (k : ℕ) → k < 3 → F.exists w (join dir (parity_file k)) ≡ true
  parity_exists k h =
      let (shard, at) = get_elem?-of_lt A.parity k (omega (arith, A.three)) in
      let held = A.parity_there k shard at in held.there

  -- The check of a file of tier 1 that is archived returns a report, which says that it is healthy.
  pub health_check_tiny-IsTinyArchive :
      (obj : File)
      → obj.file_data.path ≡ join dir manifest_file
      → obj.file_data.hash ≡ blake3_hash_bytes H file
      → (report : HealthReport) × (health_check_tiny H F w obj ≡ ok report)
        × (report.status ≡ healthy)
  health_check_tiny-IsTinyArchive obj at hash =
      let (report, returns, (_, is_healthy), _) =
        health_check_tiny-healthy_iff H F w obj dir
          (ap parent_dir at ∙ parent_dir-join dir manifest_file) in
      let stored = A.data_there in
      (
        report,
        returns,
        is_healthy (
          (stored.there, (file, stored.reads, sym hash)),
          (
            parity_exists 0 (omega arith),
            parity_exists 1 (omega arith),
            parity_exists 2 (omega arith),
          ),
        ),
      )
