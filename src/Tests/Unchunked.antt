-- ===== src/Tests/Unchunked.antt =====
-- A run of the theorem on the reconstruction of a committed file of tier 2.
use blockframe_rs.Base.{
  ◌≡◌, refl, true, false, Option, none, List, [], ◌∷◌, Text, Bytes, text, pos, leb, length,
  if◌then◌else◌, arith, is_ok, external,
}
use blockframe_rs.Disk.{PathBuf, join}
use blockframe_rs.Disk.Laws.{Holds, HasOnlyFiles}
use blockframe_rs.Disk.Names.{manifest_file, segment_file}
use blockframe_rs.Chunker.Commit.Laws.{IsSegmentedArchive}
use blockframe_rs.Filestore.Models.{File}
use blockframe_rs.Filestore.Reconstruct.{reconstruct}
use blockframe_rs.Filestore.Reconstruct.Laws.{reconstruct_fails}
use blockframe_rs.Tests.Crates.{plain, replication}
use blockframe_rs.Tests.Codec.{json}
use blockframe_rs.Tests.Memory.{memory, memory-IsLocal}
use blockframe_rs.Tests.Committed.{large, large_long}
use blockframe_rs.Tests.Restored.{name, listing, dir, after, large_archive}

abbrev segment_names : List Text
segment_names = segment_file 0 ∷ []

-- The disk after the commit, without what is below the files of the archive.
abbrev kept : PathBuf → Option Bytes
kept path = if leb (length path) 4 then after large path else none

kept-Holds :
    (path : PathBuf) (bytes : Bytes)
    → leb (length path) 4 ≡ true
    → Holds (memory (listing large)) (after large) path bytes
    → Holds (memory segment_names) kept path bytes
kept-Holds path bytes short h =
    let reads = h.reads in
    let there = h.there in record { reads = rw short reads; there = rw short there }

kept_archive :
    IsSegmentedArchive plain replication (memory segment_names) json (dir large) name large kept
kept_archive =
    let A = large_archive in
    record {
      manifest = A.manifest;
      named = A.named;
      is_segmented = A.is_segmented;
      no_leaves = A.no_leaves;
      hashed = A.hashed;
      describes = A.describes;
      manifest_there =
          kept-Holds (join (dir large) manifest_file) (json.to_string A.manifest) refl
            A.manifest_there;
      stored = λ k inside.
          let (info, found, s) = A.stored k inside in
          (
            info,
            found,
            record {
              parity = s.parity;
              generated = s.generated;
              data_hash = s.data_hash;
              parity_hashes = s.parity_hashes;
              data_there = kept-Holds _ _ refl s.data_there;
              parity_there = λ i shard at. kept-Holds _ shard refl (s.parity_there i shard at);
            },
          );
    }

kept-HasOnlyFiles : HasOnlyFiles (memory segment_names) kept (join (dir large) (text "segments"))
kept-HasOnlyFiles n sub file bytes reads = (external (text "NotFound"), refl)

abbrev large_obj : File
large_obj = record {
  file_name = name;
  file_data = record { hash = text "hash"; path = join (dir large) manifest_file };
  manifest = record kept_archive.manifest { size = pos (length large) };
}

reconstruct_fails_example : is_ok (reconstruct (memory segment_names) large_obj kept).0 ≡ false
reconstruct_fails_example =
    reconstruct_fails (memory segment_names) plain replication json (memory-IsLocal segment_names)
      large_obj (dir large) name large kept kept_archive (segment_file 0) [] refl refl
      (omega (arith, large_long)) (omega arith) kept-HasOnlyFiles refl
      ((0, omega (arith, large_long), refl), tt)
