-- ===== src/Mount/Source.antt =====
-- The trait `SegmentSource` of src/mount/source.rs, as the file systems see it. A source is an
-- object with a state of its own: a directory, or a server that may answer differently each time.
use blockframe_rs.Base.{ℕ, Bool, Option, List, Text, Bytes}
use blockframe_rs.Base.Exec.{Exec}
use blockframe_rs.Manifest.{ManifestFile}

pub record SegmentSource : Type 1 where
  pub World : Type 0
  pub list_files : Exec World (List Text)
  pub get_manifest : Text → Exec World ManifestFile
  pub read_segment : Text → ℕ → Exec World Bytes
  pub read_block_segment : Text → ℕ → ℕ → Exec World Bytes
  pub read_parity : Text → ℕ → ℕ → Option ℕ → Exec World Bytes
  pub write_parity : Text → ℕ → Option ℕ → Bytes → Exec World Bool
  pub read_data : Text → Exec World Bytes
