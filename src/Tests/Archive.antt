-- ===== src/Tests/Archive.antt =====
-- Runs of the theorems on src/filestore/health.rs, with a directory in which only the last
-- component of a path counts.
use blockframe_rs.Base.{
  ◌<◌, ◌≡◌, refl, ap, ◌∙◌, sym, subst, ◌↔◌, Bool, true, false, Option, some, none, List, [], ◌∷◌,
  Text, Bytes, text, text_eq, text_eq_refl, Result, ok, err, external, ok_or, HashMap, lookup,
  insert, lookup-insert, string_key, usize_key, length, All, resize, pos, arith, if◌then◌else◌,
}
use blockframe_rs.Base.Decimal.{to_string}
use blockframe_rs.Manifest.{ManifestFile}
use blockframe_rs.Chunker.Generate.{padded_size, generate_parity_segmented}
use blockframe_rs.Filestore.Models.{
  PathBuf, join, parent_dir, FileSystem, File, healthy, HealthReport, BatchHealthReport,
}
use blockframe_rs.Filestore.Health.{
  data_file, parity_file, count_existing, health_check_tiny, health_check_segment,
}
use blockframe_rs.Filestore.Health.Blocks.{health_check, batch_health_check, tally}
use blockframe_rs.Filestore.Health.Laws.{
  HasData, IsIntact, health_check_tiny-healthy_iff, health_check_segment-healthy_iff,
}
use blockframe_rs.Filestore.Health.Batch.{Tallies, batch_health_check-Tallies}
use blockframe_rs.Filestore.Repair.{already_valid, read_files, repair_tiny}
use blockframe_rs.Filestore.Repair.Laws.{Writes, Hold, available, repair_tiny_restores}
use blockframe_rs.Tests.Crates.{plain, replication, replication-IsReplicating}

abbrev last_name : PathBuf → Text
last_name [] = []
last_name (name ∷ []) = name
last_name (name ∷ next ∷ path) = last_name (next ∷ path)

abbrev is_there : Option Bytes → Bool
is_there none = false
is_there (some bytes) = true

abbrev disk : FileSystem
disk = record {
  World = HashMap Text Bytes;
  debug = λ path. [];
  exists = λ w path. is_there (lookup (last_name path) w);
  is_dir = λ w path. false;
  read = λ w path. ok_or (lookup (last_name path) w) (external (text "NotFound"));
  read_dir = λ w path. ok [];
  write = λ path bytes w. (ok tt, insert (last_name path) bytes w);
  append = λ path bytes w. (ok tt, w);
  create_dir_all = λ path w. (ok tt, w);
  rename = λ from to w. (ok tt, w);
  now = λ w. [];
}

disk-Writes : Writes disk
disk-Writes = record {
  written = λ w path bytes h.
      ap (λ found. ok_or found (external (text "NotFound")))
        (lookup-insert (last_name path) (last_name path) bytes w
          ∙ ap (λ b. if b then some bytes else lookup (last_name path) w)
              (text_eq_refl (last_name path)));
}

abbrev original : Bytes
original = text "hello, world"

abbrev padded : Bytes
padded = resize original 64

abbrev dir : PathBuf
dir = text "archive" ∷ text "a.txt" ∷ []

abbrev manifest : ManifestFile
manifest = record {
  erasure_coding = record {
    data_shards = pos 6;
    parity_shards = pos 3;
    type = text "reed-solomon";
  };
  merkle_tree = record {
    leaves = [];
    segments = (0, record { segment_data = text "x"; parity = [] }) ∷ [];
    blocks = [];
    root = text "root";
  };
  name = text "a.txt";
  original_hash = original;
  size = pos 12;
  time_of_creation = text "2025-01-01";
  tier = 1;
  segment_size = 64;
}

abbrev stored : File
stored = record {
  file_name = text "a.txt";
  file_data = record { hash = original; path = join dir (text "manifest.json") };
  manifest = manifest;
}

in_dir : parent_dir (join dir (text "manifest.json")) ≡ some dir
unfolding parent_dir
in_dir = refl

health_check_tiny-healthy_iff_example :
    (report : HealthReport) × (health_check_tiny plain disk [] stored ≡ ok report)
    × ((report.status ≡ healthy) ↔ (
        HasData plain disk [] (join dir data_file) original
        × ((disk.exists [] (join dir (parity_file 0)) ≡ true)
            × (disk.exists [] (join dir (parity_file 1)) ≡ true)
            × (disk.exists [] (join dir (parity_file 2)) ≡ true))))
    × ((report.can_recover ≡ true)
        ↔ (0 < (count_existing plain disk [] dir parity_file parity_file 0 3).0))
health_check_tiny-healthy_iff_example =
    health_check_tiny-healthy_iff plain disk [] stored dir in_dir

health_check_segment-healthy_iff_example :
    (report : HealthReport) × (health_check_segment plain disk [] stored ≡ ok report)
    × ((report.status ≡ healthy)
        ↔ All (IsIntact plain disk [] (join dir (text "segments"))) manifest.merkle_tree.segments)
health_check_segment-healthy_iff_example =
    health_check_segment-healthy_iff plain disk [] stored dir in_dir

-- A report on one file without data and without parity.
abbrev lost : HealthReport
lost = (health_check_tiny-healthy_iff plain disk [] stored dir in_dir).0

checked : health_check plain disk [] stored ≡ ok lost
unfolding health_check
checked = (health_check_tiny-healthy_iff plain disk [] stored dir in_dir).1

-- The disk holds one parity file and no data.
abbrev damaged : HashMap Text Bytes
damaged = (text "parity_1.dat", padded) ∷ []

abbrev reads : List (Result Bytes)
reads = err (external (text "NotFound")) ∷ ok padded ∷ err (external (text "NotFound")) ∷ []

three_reads : read_files plain replication disk damaged dir parity_file 0 3 ≡ reads
unfolding read_files lookup text_eq to_string
three_reads = refl

made : generate_parity_segmented replication original ≡ ok (padded ∷ padded ∷ padded ∷ [])
unfolding generate_parity_segmented
made = refl

reads-Hold :
    Hold replication 0
      (padded ∷ padded ∷ padded ∷ [])
      (read_files plain replication disk damaged dir parity_file 0 3)
reads-Hold =
    subst (Hold replication 0 (padded ∷ padded ∷ padded ∷ [])) (sym three_reads)
      (λ bytes h. cc, (λ bytes h. cc, (λ bytes h. cc, tt)))

one_read :
    available replication 0 (read_files plain replication disk damaged dir parity_file 0 3)
    ≡ (1, padded) ∷ []
one_read = ap (available replication 0) three_reads

no_data : already_valid plain replication disk damaged (join dir data_file) original ≡ ok false
unfolding already_valid lookup text_eq
no_data = refl

repair_tiny_restores_example :
    (repair_tiny plain replication disk stored damaged
      ≡ disk.write (join dir data_file) (resize original (padded_size (length original))) damaged)
    × ((repair_tiny plain replication disk stored damaged).0 ≡ ok tt
        → disk.read (repair_tiny plain replication disk stored damaged).1 (join dir data_file)
          ≡ ok (resize original (padded_size (length original))))
repair_tiny_restores_example =
    repair_tiny_restores plain replication disk replication-IsReplicating disk-Writes stored dir
      damaged original (padded ∷ padded ∷ padded ∷ []) 1 padded [] in_dir no_data (omega arith) refl
      made reads-Hold one_read

abbrev one_report : BatchHealthReport
one_report = tally (text "a.txt") lost (record {
  total_files = 0;
  healthy_files = 0;
  degraded_files = 0;
  recoverable_files = 0;
  unrecoverable_files = 0;
  reports = [];
})

all_checked : batch_health_check plain disk [] (stored ∷ []) ≡ ok one_report
unfolding batch_health_check
all_checked = rw checked refl

batch_health_check-Tallies_example : Tallies plain disk [] (stored ∷ []) one_report
batch_health_check-Tallies_example =
    batch_health_check-Tallies plain disk [] (stored ∷ []) one_report all_checked
