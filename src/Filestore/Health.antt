-- ===== src/Filestore/Health.antt =====
-- The health checks of src/filestore/health.rs.
pub mod Blocks
pub mod Blocked
pub mod Laws
pub mod Batch
pub mod Archived
pub use blockframe_rs.Disk.Names.{data_file, parity_file, segment_file, segment_parity_file}
use blockframe_rs.Base.{
  ℕ, zero, suc, ◌+◌, Bool, true, false, not, ◌&&◌, Option, none, some, List, [], ◌∷◌, ◌++◌, Text,
  Bytes, text, text_eq, Result, ok, err, message, ok_or, ◌>>=◌, length, get_elem?, ltb, leb, ◌==◌,
  if◌then◌else◌, clamp_usize,
}
use blockframe_rs.Base.Decimal.{to_string}
use blockframe_rs.Utils.{Hasher, blake3_hash_bytes}
use blockframe_rs.Manifest.{ManifestFile, SegmentHashes, is_empty}
use blockframe_rs.Filestore.Models.{
  PathBuf, join, parent_dir, FileSystem, File, HealthStatus, healthy, degraded, recoverable,
  unrecoverable, HealthReport, BatchHealthReport,
}

-- What reading `data.dat` and hashing it says.
pub data Content : Type 0 where
  valid : Content
  corrupt : Content
  missing : Content

-- The status of a file of tier 1, and whether it can be recovered.
unfoldable pub tiny_status : Bool → ℕ → HealthStatus × Bool
tiny_status data_valid parity_count =
    if data_valid && parity_count == 3
    then (healthy, true)
    else if data_valid && ltb 0 parity_count
    then (degraded, true)
    else if not data_valid && ltb 0 parity_count
    then (recoverable, true)
    else (unrecoverable, false)

abbrev pub is_valid : Content → Bool
is_valid valid = true
is_valid corrupt = false
is_valid missing = false

abbrev missing_names : Content → List Text
missing_names valid = []
missing_names corrupt = []
missing_names missing = data_file ∷ []

abbrev corrupt_names : Content → List Text
corrupt_names valid = []
corrupt_names corrupt = data_file ∷ []
corrupt_names missing = []

abbrev pub tiny_report : Content → ℕ × List Text → HealthReport
tiny_report content (parity_count, missing_parity) = record {
  status = (tiny_status (is_valid content) parity_count).0;
  missing_data = missing_names content;
  missing_parity = missing_parity;
  corrupt_segments = corrupt_names content;
  can_recover = (tiny_status (is_valid content) parity_count).1;
  details =
      text "Data: "
      ++ ((if is_valid content then text "valid" else text "corrupt/missing")
          ++ (text ", Parity: " ++ (to_string parity_count ++ text "/3")));
}

-- What the loop over the segments of a file of tier 2 finds.
pub record SegmentFindings : Type 0 where
  pub missing_data : List Text
  pub missing_parity : List Text
  pub corrupt_segments : List Text
  pub total_segments : ℕ
  pub healthy_segments : ℕ

unfoldable pub segment_status : SegmentFindings → ℕ → HealthStatus × Bool
segment_status found parity_shards =
    let missing_count = length found.missing_data in
    let corrupt_count = length found.corrupt_segments in
    if missing_count == 0 && corrupt_count == 0
    then (healthy, true)
    else if leb (missing_count + corrupt_count) parity_shards
    then (recoverable, true)
    else if is_empty found.missing_parity
    then (degraded, true)
    else (unrecoverable, false)

abbrev pub segment_report : SegmentFindings → ℕ → HealthReport
segment_report found parity_shards = record {
  status = (segment_status found parity_shards).0;
  missing_data = found.missing_data;
  missing_parity = found.missing_parity;
  corrupt_segments = found.corrupt_segments;
  can_recover = (segment_status found parity_shards).1;
  details =
      to_string found.healthy_segments
      ++ (text "/"
          ++ (to_string found.total_segments
              ++ (text " segments healthy, "
                  ++ (to_string (length found.missing_data)
                      ++ (text " missing, "
                          ++ (to_string (length found.corrupt_segments) ++ text " corrupt"))))));
}

module _ (H : Hasher) (F : FileSystem) (w : F.World) where
  unfoldable pub check_data : PathBuf → Text → Content
  check_data path hash = if not (F.exists w path) then missing else elim (F.read w path) [
    | err e ↦ missing
    | ok bytes ↦ if text_eq (blake3_hash_bytes H bytes) hash then valid else corrupt
  ]

  -- The loop `for i in 0..n` over files of a directory, from `i` on: how many exist, and the labels
  -- of the others.
  unfoldable pub count_existing : PathBuf → (ℕ → Text) → (ℕ → Text) → ℕ → ℕ → ℕ × List Text
  count_existing dir name label i zero = (0, [])
  count_existing dir name label i (suc rounds) =
      let (count, absent) = count_existing dir name label (i + 1) rounds in
      if F.exists w (join dir (name i)) then (count + 1, absent) else (count, label i ∷ absent)

  unfoldable pub health_check_tiny : File → Result HealthReport
  health_check_tiny file_obj = do
    file_dir ←
        ok_or (parent_dir file_obj.file_data.path) (message (text "No parent directory found"))
    ok (
        tiny_report (check_data (join file_dir data_file) file_obj.file_data.hash)
          (count_existing file_dir parity_file parity_file 0 3))

  -- The loop over the parity files of one segment, from `i` on.
  unfoldable pub check_parity : PathBuf → ℕ → List Text → ℕ → ℕ → List Text
  check_parity parity_path idx hashes i zero = []
  check_parity parity_path idx hashes i (suc rounds) =
      let rest = check_parity parity_path idx hashes (i + 1) rounds in
      let name = segment_parity_file idx i in
      elim (F.read w (join parity_path name)) [
        | err e ↦ name ∷ rest
        | ok chunk ↦ elim (get_elem? hashes i) [
          | none ↦ rest
          | some expected ↦
              if text_eq (blake3_hash_bytes H chunk) expected
              then rest
              else (name ++ text " (CORRUPT)") ∷ rest
        ]
      ]

  unfoldable pub check_segments : PathBuf → PathBuf → ℕ → List (ℕ × SegmentHashes) → SegmentFindings
  check_segments segments_path parity_path parity_shards [] = record {
    missing_data = [];
    missing_parity = [];
    corrupt_segments = [];
    total_segments = 0;
    healthy_segments = 0;
  }
  check_segments segments_path parity_path parity_shards ((idx, info) ∷ segments) =
      let rest = check_segments segments_path parity_path parity_shards segments in
      elim (F.read w (join segments_path (segment_file idx))) [
        | err e ↦ record rest {
          missing_data = segment_file idx ∷ rest.missing_data;
          total_segments = rest.total_segments + 1;
        }
        | ok segment_data ↦
            let intact = text_eq (blake3_hash_bytes H segment_data) info.segment_data in
            record {
              missing_data = rest.missing_data;
              missing_parity =
                  check_parity parity_path idx info.parity 0 parity_shards ++ rest.missing_parity;
              corrupt_segments =
                  if intact
                  then rest.corrupt_segments
                  else segment_file idx ∷ rest.corrupt_segments;
              total_segments = rest.total_segments + 1;
              healthy_segments =
                  if intact then rest.healthy_segments + 1 else rest.healthy_segments;
            }
      ]

  unfoldable pub health_check_segment : File → Result HealthReport
  health_check_segment file_obj = do
    file_dir ←
        ok_or (parent_dir file_obj.file_data.path) (message (text "No parent directory found"))
    let parity_shards = clamp_usize file_obj.manifest.erasure_coding.parity_shards
    ok (
        segment_report
          (check_segments (join file_dir (text "segments")) (join file_dir (text "parity"))
            parity_shards file_obj.manifest.merkle_tree.segments)
          parity_shards)
