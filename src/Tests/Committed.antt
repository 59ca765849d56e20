-- ===== src/Tests/Committed.antt =====
-- Runs of the theorems on commits, and on the archives that they leave.
use blockframe_rs.Base.{
  ℕ, ◌<◌, ◌≤◌, ◌≡◌, refl, some, Option, List, [], ◌∷◌, Text, Bytes, text, length, string_key,
  replicate, length-replicate, arith, is_ok, false,
}
use blockframe_rs.Base.Exec.Ends.{Ends}
use blockframe_rs.Disk.{PathBuf, file_name_of}
use blockframe_rs.Chunker.{new_chunker}
use blockframe_rs.Chunker.Commit.Blocked.{commit}
use blockframe_rs.Chunker.Commit.Tiny.{IsCommitted}
use blockframe_rs.Chunker.Commit.Blocked.Archive.{IsBlockedArchive}
use blockframe_rs.Chunker.Commit.Laws.{IsSegmentedArchive}
use blockframe_rs.Chunker.Commit.Whole.{
  commit-IsSegmentedArchive, commit-IsBlockedArchive, commit_fails,
}
use blockframe_rs.Utils.{determine_segment_size}
use blockframe_rs.Tests.Crates.{
  plain, plain-IsIncremental, replication, replication-IsReplicating, replication-IsEncoding,
  replication-RefusesOdd,
}
use blockframe_rs.Tests.Codec.{json}
use blockframe_rs.Tests.Memory.{memory, memory-IsFileSystem}

abbrev pub small : Bytes
small = text "hello, world"

unfoldable pub large : Bytes
large = replicate 25_000_001 7

abbrev pub from : PathBuf
from = text "home" ∷ text "a.txt" ∷ []

abbrev listing : List Text
listing = []

abbrev pub with_file : Bytes → PathBuf → Option Bytes
with_file file path = some file

pub from-named : file_name_of from ≡ some (text "a.txt")
unfolding file_name_of
from-named = refl

length-large : length large ≡ 25_000_001
unfolding large
length-large = length-replicate {A = ℕ} 25_000_001 7

pub large_long : 25_000_000 < length large
large_long = omega (arith, length-large)

pub large_bounded : length large ≤ 1_000_000_000
large_bounded = omega (arith, length-large)

commit-IsSegmentedArchive_example :
    Ends ⊥
      (λ c w'.
        IsCommitted plain (text "a.txt") large c
        × IsSegmentedArchive plain replication (memory []) json c.file_dir (text "a.txt") large w')
      (commit plain replication (memory []) json new_chunker 8_000_000 from (with_file large))
commit-IsSegmentedArchive_example =
    commit-IsSegmentedArchive plain replication (memory []) json (memory-IsFileSystem [])
      replication-IsReplicating new_chunker 8_000_000 from (text "a.txt") large (with_file large)
      refl from-named plain-IsIncremental (omega (arith, length-large))
      (omega (arith, length-large))

unfoldable huge : Bytes
huge = replicate 1_000_000_002 7

length-huge : length huge ≡ 1_000_000_002
unfolding huge
length-huge = length-replicate {A = ℕ} 1_000_000_002 7

commit-IsBlockedArchive_example :
    Ends ⊥
      (λ c w'.
        IsCommitted plain (text "a.txt") huge c
        × IsBlockedArchive plain replication (memory []) json c.file_dir (text "a.txt") huge w')
      (commit plain replication (memory []) json new_chunker 8_000_000 from (with_file huge))
commit-IsBlockedArchive_example =
    commit-IsBlockedArchive plain replication (memory []) json (memory-IsFileSystem [])
      replication-IsReplicating new_chunker 8_000_000 from (text "a.txt") huge (with_file huge) refl
      from-named replication-IsEncoding (omega (arith, length-huge))
      (λ b inside short. omega (arith, length-huge))

-- One byte more than four blocks.
unfoldable unlucky : Bytes
unlucky = replicate 1_006_632_961 7

length-unlucky : length unlucky ≡ 1_006_632_961
unfolding unlucky
length-unlucky = length-replicate {A = ℕ} 1_006_632_961 7

unlucky_segments : determine_segment_size (length unlucky) 8_000_000 ≡ 8_388_608
unfolding determine_segment_size
unlucky_segments = let size = length-unlucky in ground arith

commit_fails_example :
    is_ok
      (commit plain replication (memory []) json new_chunker 8_000_000 from (with_file unlucky)).0
    ≡ false
commit_fails_example =
    commit_fails plain replication (memory []) json replication-RefusesOdd new_chunker 8_000_000
      from unlucky 4 (with_file unlucky) refl (omega (arith, length-unlucky))
      (omega (arith, length-unlucky)) (omega (arith, length-unlucky, unlucky_segments))
      (omega (arith, length-unlucky, unlucky_segments))
