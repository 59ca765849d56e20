-- ===== src/Tests/Restored.antt =====
-- Runs of the theorems on the reading of archives that a commit left.
use blockframe_rs.Base.{
  ◌≡◌, ◌↔◌, refl, ap, ◌∙◌, sym, subst, Option, List, [], ◌∷◌, ◌++◌, Text, Bytes, text, ok,
  string_key, All, arith, Result, ◌>>=◌,
}
use blockframe_rs.Base.Exec.Ends.{Ends-returns}
use blockframe_rs.Utils.{blake3_hash_bytes}
use blockframe_rs.Disk.{PathBuf, join}
use blockframe_rs.Disk.Laws.{Holds}
use blockframe_rs.Disk.Names.{manifest_file}
use blockframe_rs.Manifest.{ManifestFile}
use blockframe_rs.Chunker.{new_chunker, ChunkedFile}
use blockframe_rs.Chunker.Io.{get_dir, archive_directory}
use blockframe_rs.Chunker.Commit.Blocked.{commit}
use blockframe_rs.Chunker.Commit.Tiny.{IsCommitted, IsTinyArchive}
use blockframe_rs.Chunker.Commit.Laws.{IsSegmentedArchive}
use blockframe_rs.Chunker.Commit.Whole.{commit-IsTinyArchive, commit-IsSegmentedArchive}
use blockframe_rs.Filestore.Models.{File}
use blockframe_rs.Filestore.Index.{read_manifest, find, get_all}
use blockframe_rs.Filestore.Index.Laws.{file_of, find-only, manifest_of, HasManifest, get_all_iff}
use blockframe_rs.Mount.Local.{local_source}
use blockframe_rs.Mount.Local.Laws.{local_source-segmented}
use blockframe_rs.Mount.Windows.Reads.{Describes}
use blockframe_rs.Mount.Windows.Honest.{IsHonest}
use blockframe_rs.Tests.Crates.{plain, plain-IsIncremental, replication, replication-IsReplicating}
use blockframe_rs.Tests.Codec.{json, json-IsSerde}
use blockframe_rs.Tests.Memory.{memory, memory-IsFileSystem}
use blockframe_rs.Tests.Committed.{
  small, large, from, from-named, with_file, large_long, large_bounded,
}

abbrev pub name : Text
name = text "a.txt"

abbrev pub store : PathBuf
store = archive_directory ∷ []

abbrev pub entry : Bytes → Text
entry file = name ++ (text "_" ++ blake3_hash_bytes plain file)

abbrev pub listing : Bytes → List Text
listing file = entry file ∷ []

abbrev pub dir : Bytes → PathBuf
dir file = get_dir name (blake3_hash_bytes plain file)

-- The disk after the commit.
abbrev pub after : Bytes → PathBuf → Option Bytes
after file =
    (commit plain replication (memory (listing file)) json new_chunker 8_000_000 from
      (with_file file)).1

-- The commit returns.
pub small_returns :
    (c : ChunkedFile) × ((commit plain replication
        (memory (listing small))
        json
        new_chunker
        8_000_000
        from
        (with_file small)).0
      ≡ ok c)
    × (IsCommitted plain name small c
        × IsTinyArchive plain replication
            (memory (listing small))
            json
            c.file_dir
            name
            small
            (after small))
small_returns = Ends-returns (
    commit-IsTinyArchive plain replication (memory (listing small)) json
      (memory-IsFileSystem (listing small)) replication-IsReplicating new_chunker 8_000_000 from
      name small (with_file small) refl from-named (omega arith) (omega arith))

pub small_archive :
    IsTinyArchive plain replication
      (memory (listing small))
      json
      (dir small)
      name
      small
      (after small)
small_archive =
    let (c, _, (committed, archive)) = small_returns in
    subst
      (λ d.
        IsTinyArchive plain replication (memory (listing small)) json d name small (after small))
      committed.dir_is archive

pub large_archive :
    IsSegmentedArchive plain replication
      (memory (listing large))
      json
      (dir large)
      name
      large
      (after large)
large_archive =
    let (c, _, (committed, archive)) = Ends-returns (
      commit-IsSegmentedArchive plain replication (memory (listing large)) json
        (memory-IsFileSystem (listing large)) replication-IsReplicating new_chunker 8_000_000 from
        name large (with_file large) refl from-named plain-IsIncremental large_long
        large_bounded) in
    subst
      (λ d.
        IsSegmentedArchive plain replication (memory (listing large)) json d name large
          (after large))
      committed.dir_is archive

readable :
    (file : Bytes) (m : ManifestFile)
    → Holds (memory (listing file)) (after file) (join (dir file) manifest_file) (json.to_string m)
    → read_manifest
        (memory (listing file))
        json
        (after file)
        (manifest_of (memory (listing file)) json (after file) store (entry file))
      ≡ ok (json-IsSerde.reads m).0
unfolding read_manifest
readable file m there =
    ap (λ (r : Result Bytes). r >>= json.from_str) there.reads ∙ (json-IsSerde.reads m).1

-- The manifest that is read back, and the file that the index makes of it.
abbrev pub read_back : ManifestFile → ManifestFile
read_back m = (json-IsSerde.reads m).0

abbrev pub indexed : Bytes → ManifestFile → File
indexed file m =
    file_of (memory (listing file)) json (after file)
      (manifest_of (memory (listing file)) json (after file) store (entry file)) (read_back m)

is_found :
    (file : Bytes) (m : ManifestFile)
    → Holds (memory (listing file)) (after file) (join (dir file) manifest_file) (json.to_string m)
    → m.name ≡ name
    → find (memory (listing file)) json (after file) store name ≡ ok (indexed file m)
is_found file m there named =
    ap (find (memory (listing file)) json (after file) store)
      (sym ((json-IsSerde.reads m).2.name ∙ named))
    ∙ find-only (memory (listing file)) json (after file) store (entry file) (read_back m) refl
        (readable file m there)

abbrev pub small_file : File
small_file = indexed small small_archive.manifest

abbrev pub large_file : File
large_file = indexed large large_archive.manifest

pub small_found : find (memory (listing small)) json (after small) store name ≡ ok small_file
small_found = is_found small small_archive.manifest small_archive.manifest_there small_archive.named

pub large_found : find (memory (listing large)) json (after large) store name ≡ ok large_file
large_found = is_found large large_archive.manifest large_archive.manifest_there large_archive.named

local_source-segmented_example :
    Describes plain large_file.manifest large
    × IsHonest plain replication
        (local_source (memory (listing large)) json store)
        name
        large_file.manifest
        large
        (after large)
local_source-segmented_example =
    local_source-segmented plain replication (memory (listing large)) json json-IsSerde store name
      (dir large) large (after large) large_file large_found refl large_archive

get_all_iff_example :
    ((files : List File) × (get_all (memory (listing small)) json (after small) store ≡ ok files))
    ↔ All
        (λ e.
          HasManifest
            (memory (listing small))
            json
            (after small)
            (manifest_of (memory (listing small)) json (after small) store e))
        (listing small)
get_all_iff_example =
    get_all_iff (memory (listing small)) json (after small) store (listing small) refl
