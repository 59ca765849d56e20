-- ===== src/Filestore/Models.antt =====
-- src/filestore/models.rs
pub use blockframe_rs.Disk.{PathBuf, join, FileSystem}
unfoldable pub use blockframe_rs.Disk.{parent_dir}
use blockframe_rs.Base.{ℕ, Bool, List, Text}
use blockframe_rs.Manifest.{ManifestFile}

pub record FileData : Type 0 where
  pub hash : Text
  pub path : PathBuf

pub record File : Type 0 where
  pub file_name : Text
  pub file_data : FileData
  pub manifest : ManifestFile

pub data HealthStatus : Type 0 where
  healthy : HealthStatus
  degraded : HealthStatus
  recoverable : HealthStatus
  unrecoverable : HealthStatus

pub record HealthReport : Type 0 where
  pub status : HealthStatus
  pub missing_data : List Text
  pub missing_parity : List Text
  pub corrupt_segments : List Text
  pub can_recover : Bool
  pub details : Text

pub record BatchHealthReport : Type 0 where
  pub total_files : ℕ
  pub healthy_files : ℕ
  pub degraded_files : ℕ
  pub recoverable_files : ℕ
  pub unrecoverable_files : ℕ
  pub reports : List (Text × HealthReport)
