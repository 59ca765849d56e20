-- ===== src/Tests/Lost.antt =====
-- A run of the theorem on the command `health`: a disk on which of a file of tier 2 nothing but the
-- manifest is left.
use blockframe_rs.Base.{
  ◌+◌, ◌<◌, ◌≡◌, refl, some, none, Option, List, [], ◌∷◌, Bytes, text, Result, ok, err, pos, length,
  ◌==◌, if◌then◌else◌, arith,
}
use blockframe_rs.Disk.{PathBuf, FileSystem, parent_dir}
use blockframe_rs.Manifest.{ManifestFile}
use blockframe_rs.Chunker.Io.{Serde, archive_directory}
use blockframe_rs.Filestore.Models.{File, BatchHealthReport}
use blockframe_rs.Filestore.Index.{get_all, all_files, load_files, read_manifest, new_file}
use blockframe_rs.Filestore.Index.Laws.{file_of, manifest_of}
use blockframe_rs.Filestore.Health.Blocks.{batch_health_check, health_check, tally}
use blockframe_rs.Filestore.Health.{health_check_segment, check_segments, segment_status}
use blockframe_rs.Cli.{run_health, checked_again}
use blockframe_rs.Cli.Laws.{run_health_idle}
use blockframe_rs.Tests.Crates.{plain, replication}
use blockframe_rs.Tests.Memory.{memory}

abbrev bare_manifest : ManifestFile
bare_manifest = record {
  erasure_coding = record {
    data_shards = pos 1;
    parity_shards = pos 3;
    type = text "reed-solomon";
  };
  merkle_tree = record {
    leaves = [];
    segments = (0, record { segment_data = text "x"; parity = [] }) ∷ [];
    blocks = [];
    root = text "root";
  };
  name = text "a.txt";
  original_hash = text "hash";
  size = pos 12;
  time_of_creation = text "2025-01-01";
  tier = 2;
  segment_size = 64;
}

-- One manifest, whatever its text.
abbrev one_manifest : Serde
one_manifest = record { to_string = λ m. []; from_str = λ s. ok bare_manifest }

abbrev store : PathBuf
store = archive_directory ∷ []

-- The manifests are on the disk, and nothing else.
abbrev manifests : PathBuf → Option Bytes
manifests path = if length path == 3 then some [] else none

abbrev disk : FileSystem
disk = memory (text "a" ∷ [])

abbrev bare_files : List File
bare_files =
    file_of disk one_manifest manifests (manifest_of disk one_manifest manifests store (text "a"))
      bare_manifest
    ∷ []

bare_listed : get_all disk one_manifest manifests store ≡ ok bare_files
unfolding get_all all_files load_files read_manifest new_file
bare_listed = refl

-- The checked result, and the value in it.
abbrev value_or : Result BatchHealthReport → BatchHealthReport → BatchHealthReport
value_or (ok report) other = report
value_or (err e) other = other

abbrev no_files : BatchHealthReport
no_files = record {
  total_files = 0;
  healthy_files = 0;
  degraded_files = 0;
  recoverable_files = 0;
  unrecoverable_files = 0;
  reports = [];
}

abbrev lost_report : BatchHealthReport
lost_report = value_or (batch_health_check plain disk manifests bare_files) no_files

lost_checked : batch_health_check plain disk manifests bare_files ≡ ok lost_report
unfolding batch_health_check health_check health_check_segment check_segments parent_dir
lost_checked = refl

one_lost : 0 < lost_report.recoverable_files + lost_report.degraded_files
unfolding batch_health_check health_check health_check_segment check_segments segment_status
    parent_dir tally
one_lost = omega arith

run_health_idle_example :
    run_health plain replication disk one_manifest store manifests
    ≡ (ok (checked_again lost_report), manifests)
run_health_idle_example =
    run_health_idle plain replication disk one_manifest manifests store bare_files bare_listed
      (record { tier = refl; leaves = refl }, tt) lost_report lost_checked one_lost
