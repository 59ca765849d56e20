-- ===== src/Chunker/Commit/Success.antt =====
-- What a commit of src/chunker/commit.rs that returned has left, whatever the tier.
use blockframe_rs.Base.{
  ℕ, ◌%◌, ◌<◌, ◌≡◌, ◌⊎◌, refl, ap, inl, inr, true, false, some, Text, Bytes, Result, ok, is_ok,
  length, arith, leb, ◌==◌, Bool-cases,
}
use blockframe_rs.Base.Exec.{proceed-step-fails}
use blockframe_rs.Base.Exec.Ends.{Ends-eq-ok}
use blockframe_rs.Utils.{Hasher, IsIncremental, determine_segment_size}
use blockframe_rs.ReedSolomon.{ReedSolomon, IsReplicating, IsEncoding, RefusesOdd}
use blockframe_rs.Disk.{PathBuf, file_name_of, FileSystem}
use blockframe_rs.Disk.Laws.{IsFileSystem}
use blockframe_rs.Chunker.{Chunker, ChunkedFile}
use blockframe_rs.Chunker.Io.{Serde}
use blockframe_rs.Chunker.Commit.Blocked.{commit}
use blockframe_rs.Chunker.Commit.Blocked.Parts.{HasEvenTail}
use blockframe_rs.Chunker.Commit.Blocked.Archive.{IsBlockedArchive}
use blockframe_rs.Chunker.Commit.Tiny.{IsCommitted, IsTinyArchive}
use blockframe_rs.Chunker.Commit.Laws.{IsSegmentedArchive}
use blockframe_rs.Chunker.Commit.Whole.{
  commit-IsTinyArchive, commit-IsSegmentedArchive, commit-IsBlockedArchive, commit_fails,
}

-- An archive of one of the three tiers.
abbrev pub IsArchive :
    (H : Hasher) (R : ReedSolomon) (F : FileSystem)
    → Serde
    → PathBuf
    → Text
    → Bytes
    → F.World
    → Type 0
IsArchive H R F J dir name file w =
    IsTinyArchive H R F J dir name file w
    ⊎ IsSegmentedArchive H R F J dir name file w
    ⊎ IsBlockedArchive H R F J dir name file w

module _ (H : Hasher) (R : ReedSolomon) (F : FileSystem) (J : Serde) {E : Type 0}
    (D : IsFileSystem F E) (I : IsIncremental H) (L : IsReplicating R) (B : IsEncoding R)
    (O : RefusesOdd R) (self : Chunker) (available_ram : ℕ) (path : PathBuf) (name : Text)
    (file : Bytes) (w : F.World) (readable : F.read w path ≡ ok file)
    (named : file_name_of path ≡ some name) where
  abbrev run : Result ChunkedFile × F.World
  run = commit H R F J self available_ram path w

  -- An empty file is refused.
  empty_fails : length file ≡ 0 → is_ok run.0 ≡ false
  unfolding commit
  empty_fails none =
      proceed-step-fails (F.read w path) file w _ readable
        (let empty : (length file == 0) ≡ true = ground arith in rw empty refl)

  not_empty : (c : ChunkedFile) → run.0 ≡ ok c → 0 < length file
  not_empty c done = elim (Bool-cases (length file == 0)) [
    | inl none ↦
        let failed = empty_fails (ground arith) in
        let ended : is_ok run.0 ≡ true = ap is_ok done in absurd (cc)
    | inr some_left ↦ ground arith
  ]

  -- A commit that returned had no block that the encoder refuses.
  even_tail :
      (c : ChunkedFile)
      → run.0 ≡ ok c
      → 1_000_000_000 < length file
      → HasEvenTail file (determine_segment_size (length file) available_ram)
  even_tail c done large b inside short = elim (Bool-cases (length file % 2 == 0)) [
    | inl even ↦ ground arith
    | inr odd ↦
        let failed =
          commit_fails H R F J O self available_ram path file b w readable large (ground arith)
            inside short in
        let ended : is_ok run.0 ≡ true = ap is_ok done in absurd (cc)
  ]

  pub commit-IsArchive :
      (c : ChunkedFile)
      → run.0 ≡ ok c
      → IsCommitted H name file c × IsArchive H R F J c.file_dir name file run.1
  commit-IsArchive c done = elim (Bool-cases (leb (length file) 25_000_000)) [
    | inl tiny ↦
        let (facts, archive) =
          Ends-eq-ok c
            (commit-IsTinyArchive H R F J D L self available_ram path name file w readable named
              (not_empty c done) (ground arith))
            done in
        (facts, inl archive)
    | inr more ↦ elim (Bool-cases (leb (length file) 1_000_000_000)) [
      | inl segmented ↦
          let (facts, archive) =
            Ends-eq-ok c
              (commit-IsSegmentedArchive H R F J D L self available_ram path name file w readable
                named I (ground arith) (ground arith))
              done in
          (facts, inr (inl archive))
      | inr blocked ↦
          let large : 1_000_000_000 < length file = ground arith in
          let (facts, archive) =
            Ends-eq-ok c
              (commit-IsBlockedArchive H R F J D L self available_ram path name file w readable
                named B large (even_tail c done large))
              done in
          (facts, inr (inr archive))
    ]
  ]
