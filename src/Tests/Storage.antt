-- ===== src/Tests/Storage.antt =====
-- Runs of the theorems on src/chunker/generate.rs and src/filestore/recovery.rs.
use blockframe_rs.Base.{◌≡◌, none, some, List, Bytes, text, length, resize, ok, arith}
use blockframe_rs.Chunker.Generate.{padded_size, generate_parity_segmented}
use blockframe_rs.Filestore.Recovery.{recover_segment_rs13}
use blockframe_rs.Filestore.Recovery.Laws.{recover_segment_rs13-generate_parity_segmented}
use blockframe_rs.Tests.Crates.{replication, replication-IsReplicating}

abbrev small : Bytes
small = text "hello, world"

recover_segment_rs13-generate_parity_segmented_example :
    (parity : List Bytes) × (generate_parity_segmented replication small ≡ ok parity)
    × (recover_segment_rs13 replication parity (some (length small)) ≡ ok small)
    × (recover_segment_rs13 replication parity none
        ≡ ok (resize small (padded_size (length small))))
recover_segment_rs13-generate_parity_segmented_example =
    recover_segment_rs13-generate_parity_segmented replication replication-IsReplicating small
      (omega arith)
