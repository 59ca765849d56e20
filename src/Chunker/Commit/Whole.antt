-- ===== src/Chunker/Commit/Whole.antt =====
-- `commit` of src/chunker/commit.rs.
use blockframe_rs.Base.{
  true, false, ℕ, ◌+◌, ◌*◌, ◌%◌, ◌≤◌, ◌<◌, ◌≡◌, some, Text, Bytes, ok, is_ok, length, arith, leb,
  ◌==◌,
}
use blockframe_rs.Base.Exec.{proceed-step-fails}
use blockframe_rs.Base.Exec.Ends.{Ends, Ends-step}
use blockframe_rs.Utils.{Hasher, IsIncremental, determine_segment_size}
use blockframe_rs.ReedSolomon.{ReedSolomon, IsReplicating, IsEncoding, RefusesOdd}
use blockframe_rs.Disk.{PathBuf, file_name_of, FileSystem}
use blockframe_rs.Disk.Laws.{IsFileSystem}
use blockframe_rs.Chunker.{Chunker}
use blockframe_rs.Chunker.Io.{Serde}
use blockframe_rs.Chunker.Commit.{choose_tier}
use blockframe_rs.Chunker.Commit.Blocked.{commit}
use blockframe_rs.Chunker.Commit.Tiny.{IsCommitted, IsTinyArchive, commit_tiny-IsTinyArchive}
use blockframe_rs.Chunker.Commit.Laws.{IsSegmentedArchive, commit_segmented-IsSegmentedArchive}
use blockframe_rs.Chunker.Commit.Blocked.Parts.{HasEvenTail}
use blockframe_rs.Chunker.Commit.Blocked.Archive.{IsBlockedArchive}
use blockframe_rs.Chunker.Commit.Blocked.Laws.{
  commit_blocked-IsBlockedArchive, commit_blocked_fails,
}

module _ (H : Hasher) (R : ReedSolomon) (F : FileSystem) (J : Serde) {E : Type 0}
    (D : IsFileSystem F E) (L : IsReplicating R) (self : Chunker) (available_ram : ℕ)
    (path : PathBuf) (name : Text) (file : Bytes) (w : F.World) (readable : F.read w path ≡ ok file)
    (named : file_name_of path ≡ some name) where
  pub commit-IsTinyArchive :
      0 < length file
      → length file ≤ 25_000_000
      → Ends E
          (λ c w'. IsCommitted H name file c × IsTinyArchive H R F J c.file_dir name file w')
          (commit H R F J self available_ram path w)
  unfolding commit choose_tier
  commit-IsTinyArchive full small = Ends-step (F.read w path) w file _ readable (
      let not_empty : (length file == 0) ≡ false = ground arith in
      let tiny : leb (length file) 25_000_000 ≡ true = ground arith in
      rw (not_empty, tiny)
        (commit_tiny-IsTinyArchive H R F J D L self path name file w readable named full))

  -- A commit of a file that can be read and has more than 25,000,000 and at most 1,000,000,000
  -- bytes, with a code, a hasher and a disk that do what they document: it returns, unless an
  -- operation of the disk fails, the file's name, size and hash; the directory named after them
  -- then holds every segment of the file and the segment's three parity shards, each in the file
  -- that the indices name, and a manifest of tier 2 that describes the file and has the hashes of
  -- all of them.
  pub commit-IsSegmentedArchive :
      IsIncremental H
      → 25_000_000 < length file
      → length file ≤ 1_000_000_000
      → Ends E
          (λ c w'. IsCommitted H name file c × IsSegmentedArchive H R F J c.file_dir name file w')
          (commit H R F J self available_ram path w)
  unfolding commit choose_tier
  commit-IsSegmentedArchive I large bounded = Ends-step (F.read w path) w file _ readable (
      let not_empty : (length file == 0) ≡ false = ground arith in
      let not_tiny : leb (length file) 25_000_000 ≡ false = ground arith in
      let segmented : leb (length file) 1_000_000_000 ≡ true = ground arith in
      rw (not_empty, not_tiny, segmented)
        (commit_segmented-IsSegmentedArchive H R F J D I L self available_ram path name file w
          readable named (omega arith)))

  -- A commit of a file that can be read and has more than 1,000,000,000 bytes, with a code and a
  -- disk that do what they document, where no block begins less than a segment before the end of a
  -- file of an odd size: it returns, unless an operation of the disk fails, the file's name, size
  -- and hash; the directory named after them then holds every block of up to 30 segments, each
  -- segment and each of the block's three parity shards in the file that the indices name, and a
  -- manifest of tier 3 that describes the file and has the hashes of all of them.
  pub commit-IsBlockedArchive :
      IsEncoding R
      → 1_000_000_000 < length file
      → HasEvenTail file (determine_segment_size (length file) available_ram)
      → Ends E
          (λ c w'. IsCommitted H name file c × IsBlockedArchive H R F J c.file_dir name file w')
          (commit H R F J self available_ram path w)
  unfolding commit choose_tier
  commit-IsBlockedArchive L3 large tail = Ends-step (F.read w path) w file _ readable (
      let not_empty : (length file == 0) ≡ false = ground arith in
      let not_tiny : leb (length file) 25_000_000 ≡ false = ground arith in
      let blocked : leb (length file) 1_000_000_000 ≡ false = ground arith in
      rw (not_empty, not_tiny, blocked)
        (commit_blocked-IsBlockedArchive H R F J D L3 self available_ram path name file w readable
          named large tail))

module _ (H : Hasher) (R : ReedSolomon) (F : FileSystem) (J : Serde) where
  -- With an encoder that refuses shards of an odd size, as it documents, a commit of a file of more
  -- than 1,000,000,000 bytes and of an odd size fails, whatever the disk does, where a block begins
  -- less than a segment before the end of the file.
  pub commit_fails :
      RefusesOdd R
      → (self : Chunker) (available_ram : ℕ) (path : PathBuf) (file : Bytes) (b : ℕ) (w : F.World)
      → F.read w path ≡ ok file
      → 1_000_000_000 < length file
      → length file % 2 ≡ 1
      → b * 30 * determine_segment_size (length file) available_ram < length file
      → length file < (b * 30 + 1) * determine_segment_size (length file) available_ram
      → is_ok (commit H R F J self available_ram path w).0 ≡ false
  unfolding commit choose_tier
  commit_fails O self available_ram path file b w readable large odd inside short =
      proceed-step-fails (F.read w path) file w _ readable (
        let not_empty : (length file == 0) ≡ false = ground arith in
        let not_tiny : leb (length file) 25_000_000 ≡ false = ground arith in
        let blocked : leb (length file) 1_000_000_000 ≡ false = ground arith in
        rw (not_empty, not_tiny, blocked)
          (commit_blocked_fails H R F J O self available_ram path file b w readable large odd inside
            short))
