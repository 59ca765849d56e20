-- ===== src/Mount/Windows/Mounted.antt =====
-- A commit of src/chunker/commit.rs, and a read of the file by the file system of
-- src/mount/filesystem_win.rs over the archive. The reads of src/mount/filesystem_unix.rs are not
-- meant here.
use blockframe_rs.Base.{
  ℕ, ◌≡◌, ◌⊎◌, refl, inl, inr, some, List, [], ◌∷◌, map, Text, Bytes, ok, >>=-eq-ok, take, drop,
  text_eq, text_eq_iff, Bool-cases, lookup, string_key, arith,
}
use blockframe_rs.Utils.{Hasher, IsIncremental}
use blockframe_rs.ReedSolomon.{ReedSolomon, IsReplicating, IsEncoding, RefusesOdd}
use blockframe_rs.Disk.{PathBuf, join, file_name_of, FileSystem}
use blockframe_rs.Disk.Laws.{IsFileSystem}
use blockframe_rs.Disk.Names.{manifest_file}
use blockframe_rs.Chunker.{Chunker, ChunkedFile}
use blockframe_rs.Chunker.Io.{Serde}
use blockframe_rs.Chunker.Commit.Blocked.{commit}
use blockframe_rs.Chunker.Commit.Success.{IsArchive, commit-IsArchive}
use blockframe_rs.Filestore.Models.{File}
use blockframe_rs.Filestore.Index.{find_in, find, get_all}
use blockframe_rs.Filestore.Index.Laws.{IsSerde}
use blockframe_rs.Mount.Cache.{Cache, IsCache, cache_key}
use blockframe_rs.Mount.Names.Found.{IsListed, refresh_files-found}
use blockframe_rs.Mount.Local.{local_source}
use blockframe_rs.Mount.Local.Laws.{local_source-tiny, local_source-segmented, local_source-blocked}
use blockframe_rs.Mount.Windows.{returned, new_fs, read}
use blockframe_rs.Mount.Windows.Segments.{IsClean}
use blockframe_rs.Mount.Windows.Reads.{Describes, Forged}
use blockframe_rs.Mount.Windows.Honest.{IsHonest, read-IsHonest}

abbrev names_of : List File → List Text
names_of files = map (λ (f : File). f.file_name) files

find_in-IsListed :
    (name : Text) (files : List File) (obj : File)
    → find_in name files ≡ ok obj
    → IsListed name (names_of files)
unfolding find_in
find_in-IsListed name [] obj h = absurd (cc)
find_in-IsListed name (f ∷ files) obj h = elim (Bool-cases (text_eq f.file_name name)) [
  | inl same ↦ inl ((text_eq_iff f.file_name name).0 same)
  | inr other ↦ inr (find_in-IsListed name files obj (ground arith))
]

module _ (H : Hasher) (R : ReedSolomon) (F : FileSystem) (J : Serde) (store : PathBuf) (C : Cache)
    (K : IsCache C) (name : Text) (obj : File) (w : F.World)
    (found : find F J w store name ≡ ok obj) where
  -- A new file system over a store whose index finds a file has the file's manifest.
  new_fs-found :
      (lookup name (new_fs (local_source F J store) C w).names.manifests ≡ some obj.manifest)
      × ((new_fs (local_source F J store) C w).source ≡ w)
  unfolding new_fs find
  new_fs-found =
      let (files, all, at) = >>=-eq-ok (get_all F J w store) (find_in name) found in
      let (n, refreshed, kept, there) =
        refresh_files-found (local_source F J store) w (λ f. refl) name obj.manifest (rw found refl)
          (names_of files) (rw all refl) refl (find_in-IsListed name files obj at) in
      (rw (refreshed, new_fs) there, rw (kept, new_fs) refl)

  new_fs-IsClean : IsClean H R (local_source F J store) C K (new_fs (local_source F J store) C w)
  unfolding new_fs
  new_fs-IsClean = record {
    clean = λ f k bytes m hash held have e. absurd (K.empty-Holds (cache_key f k) bytes held);
  }

module _ (H : Hasher) (R : ReedSolomon) (F : FileSystem) (J : Serde) {E : Type 0}
    (D : IsFileSystem F E) (N : IsSerde J) (I : IsIncremental H) (L : IsReplicating R)
    (B : IsEncoding R) (O : RefusesOdd R) (C : Cache) (K : IsCache C) (self : Chunker)
    (available_ram : ℕ) (path : PathBuf) (name : Text) (file : Bytes) (w : F.World)
    (readable : F.read w path ≡ ok file) (named : file_name_of path ≡ some name) where
  -- The disk after the commit.
  abbrev pub after : F.World
  after = (commit H R F J self available_ram path w).1

  archive-IsHonest :
      (store dir : PathBuf) (obj : File)
      → find F J after store name ≡ ok obj
      → obj.file_data.path ≡ join dir manifest_file
      → IsArchive H R F J dir name file after
      → Describes H obj.manifest file
        × IsHonest H R (local_source F J store) name obj.manifest file after
  archive-IsHonest store dir obj found at (inl A) =
      local_source-tiny H R F J N store name dir file after obj found at A
  archive-IsHonest store dir obj found at (inr (inl A)) =
      local_source-segmented H R F J N store name dir file after obj found at A
  archive-IsHonest store dir obj found at (inr (inr A)) =
      local_source-blocked H R F J N store name dir file after obj found at A

  -- A file of any size, committed by a commit that returns, in a store whose index finds the file's
  -- name in the directory of that commit, with a code, a hasher, a disk and a serializer that do
  -- what they document: the Windows file system, that of src/mount/filesystem_win.rs, newly made
  -- over the store returns from its read, for every offset and every size of buffer, the file's
  -- bytes from the offset on, as many as the file has and the buffer holds, or a segment came up
  -- that has the digest of the file's and differs from it.
  pub commit-read :
      (c : ChunkedFile) (store : PathBuf) (obj : File) (buffer_len offset : ℕ)
      → (commit H R F J self available_ram path w).0 ≡ ok c
      → find F J after store name ≡ ok obj
      → obj.file_data.path ≡ join c.file_dir manifest_file
      → ((read H R
            (local_source F J store)
            C
            name
            buffer_len
            offset
            (new_fs (local_source F J store) C after)).0
          ≡ returned (take buffer_len (drop offset file)))
        ⊎ Forged H R
            (local_source F J store)
            C
            name
            obj.manifest
            file
            (new_fs (local_source F J store) C after)
  commit-read c store obj buffer_len offset done found at =
      let (_, archive) =
        commit-IsArchive H R F J D I L B O self available_ram path name file w readable named c
          done in
      let (describes, honest) = archive-IsHonest store c.file_dir obj found at archive in
      let (have, here) = new_fs-found H R F J store C K name obj after found in
      read-IsHonest H R (local_source F J store) C K name obj.manifest file after describes honest
        buffer_len offset (new_fs (local_source F J store) C after) here
        (new_fs-IsClean H R F J store C K name obj after found) have
