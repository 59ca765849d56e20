-- ===== src/Tests/Idle.antt =====
-- Runs of the theorems on repairs that find nothing to do, and on the health check of tier 3.
use blockframe_rs.Base.{
  ◌≡◌, refl, some, Option, [], ◌∷◌, Bytes, text, ok, length, ◌==◌, if◌then◌else◌, true, false, All,
  ◌↔◌, clamp_usize,
}
use blockframe_rs.Disk.{PathBuf, join, FileSystem}
use blockframe_rs.Disk.Names.{manifest_file}
use blockframe_rs.Disk.Laws.{parent_dir-join}
use blockframe_rs.Filestore.Models.{File, HealthReport, healthy}
use blockframe_rs.Filestore.Health.Blocked.{
  HasListing, IsWhole, IsMendable, health_check_block-healthy_iff,
}
use blockframe_rs.Filestore.Health.Blocks.{directories_of, health_check_block, is_degraded}
use blockframe_rs.Filestore.Repair.Blocked.{repair_blocked}
use blockframe_rs.Filestore.Repair.Idle.{IsPrefix, IsBare, archive-IsBare, repair_blocked_idle}
use blockframe_rs.Tests.Crates.{plain, replication}
use blockframe_rs.Tests.Codec.{json, json-IsSerde}
use blockframe_rs.Tests.Memory.{memory}
use blockframe_rs.Tests.Committed.{large}
use blockframe_rs.Tests.Restored.{
  name, store, listing, dir, after, large_file, large_found, large_archive,
}

-- The committed file is one that a repair leaves as it is.
large-IsBare : IsBare large_file
large-IsBare =
    archive-IsBare plain replication (memory (listing large)) json json-IsSerde store name
      (dir large) large (after large) large_file large_found refl large_archive

-- A disk with one block, of which the first segment is left.
abbrev one_left : FileSystem
one_left = record (memory []) {
  is_dir = λ w path. true;
  read_dir =
      λ w path. ok (if length path == 3 then text "block_0" ∷ [] else text "segment_0.dat" ∷ []);
}

abbrev one_file : PathBuf → Option Bytes
one_file path = some (1 ∷ 2 ∷ [])

abbrev blocked_file : File
blocked_file = record large_file { manifest = record large_file.manifest { tier = 3 } }

one_block : All (IsPrefix plain replication one_left one_file (join (dir large) (text "blocks"))) (
    directories_of plain one_left one_file (join (dir large) (text "blocks")) (text "block_0" ∷ []))
unfolding directories_of
one_block = ((text "segment_0.dat" ∷ [], refl, λ i l. (1 ∷ 2 ∷ [], refl)), tt)

repair_blocked_idle_example :
    repair_blocked plain replication one_left blocked_file one_file ≡ (ok tt, one_file)
repair_blocked_idle_example =
    repair_blocked_idle plain replication one_left one_file blocked_file (dir large)
      (text "block_0" ∷ []) (parent_dir-join (dir large) manifest_file) refl one_block

one_listed : All (HasListing plain one_left one_file (join (dir large) (text "blocks"))) (
    directories_of plain one_left one_file (join (dir large) (text "blocks")) (text "block_0" ∷ []))
unfolding directories_of
one_listed = ((text "segment_0.dat" ∷ [], refl), tt)

health_check_block-healthy_iff_example :
    (report : HealthReport) × (health_check_block plain one_left one_file blocked_file ≡ ok report)
    × ((report.status ≡ healthy)
        ↔ All
            (IsWhole plain one_left one_file
              (join (dir large) (text "blocks"))
              (clamp_usize blocked_file.manifest.erasure_coding.data_shards)
              (clamp_usize blocked_file.manifest.erasure_coding.parity_shards))
            (directories_of plain one_left one_file
              (join (dir large) (text "blocks"))
              (text "block_0" ∷ [])))
    × ((report.can_recover ≡ true)
        ↔ All
            (IsMendable plain one_left one_file
              (join (dir large) (text "blocks"))
              (clamp_usize blocked_file.manifest.erasure_coding.data_shards)
              (clamp_usize blocked_file.manifest.erasure_coding.parity_shards))
            (directories_of plain one_left one_file
              (join (dir large) (text "blocks"))
              (text "block_0" ∷ [])))
    × (is_degraded report.status ≡ false)
health_check_block-healthy_iff_example =
    health_check_block-healthy_iff plain one_left one_file blocked_file (dir large)
      (text "block_0" ∷ []) (parent_dir-join (dir large) manifest_file) refl one_listed
