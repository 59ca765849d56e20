-- ===== src/Mount/Unix/Calls.antt =====
-- The calls of FUSE in src/mount/filesystem_unix.rs: `impl Filesystem for BlockframeFS`. The crate
-- `fuser` makes one call at a time. A time stamp is in seconds from the epoch.
pub mod Kept
pub mod Laws
use blockframe_rs.Base.{
  ℕ, zero, suc, ◌+◌, ◌-◌, ◌/◌, ◌%◌, ◌^◌, Bool, Option, none, some, List, [], ◌∷◌, ◌++◌, Text, Bytes,
  text, drop, min, lookup, insert, remove, HashMap, string_key, usize_key, leb, ◌==◌, if◌then◌else◌,
  ℤ, to_u64,
}
use blockframe_rs.Utils.{Hasher}
use blockframe_rs.ReedSolomon.{ReedSolomon}
use blockframe_rs.Manifest.{ManifestFile}
use blockframe_rs.Mount.Source.{SegmentSource}
use blockframe_rs.Mount.Cache.{Cache}
use blockframe_rs.Mount.Windows.{Inner, Outcome, returned, failed, panicked, unfinished}
use blockframe_rs.Mount.Unix.{read_bytes}

-- The fields of `BlockframeFS` that reads use, and those of the open files and of the owner.
pub record BlockframeFs (C : Cache) (S : SegmentSource) : Type 0 where
  pub inner : Inner C S
  pub open_files : HashMap ℕ (Text × ℕ)
  pub next_fh : ℕ
  pub uid : ℕ
  pub gid : ℕ

pub data FileType : Type 0 where
  directory : FileType
  regular_file : FileType

pub record FileAttr : Type 0 where
  pub ino : ℕ
  pub size : ℕ
  pub blocks : ℕ
  pub atime : ℕ
  pub mtime : ℕ
  pub ctime : ℕ
  pub crtime : ℕ
  pub kind : FileType
  pub perm : ℕ
  pub nlink : ℕ
  pub uid : ℕ
  pub gid : ℕ
  pub rdev : ℕ
  pub blksize : ℕ
  pub flags : ℕ

pub data Errno : Type 0 where
  enoent : Errno
  ebadf : Errno
  eio : Errno

-- What the kernel gets: an answer, an error, or nothing, since the call returned without a reply,
-- panicked, or did not end within the fuel.
pub data Reply (A : Type 0) : Type 0 where
  answered : A → Reply A
  error : Errno → Reply A
  unanswered : Reply A
  crashed : Reply A
  hung : Reply A

abbrev pub attr_or_enoent : Option FileAttr → Reply FileAttr
attr_or_enoent none = error enoent
attr_or_enoent (some attr) = answered attr

abbrev pub data_reply : Outcome Bytes → Reply Bytes
data_reply (returned bytes) = answered bytes
data_reply (failed e) = error eio
data_reply panicked = crashed
data_reply unfinished = hung

abbrev pub Entry : Type 0
Entry = ℕ × FileType × Text

abbrev file_entries : HashMap Text ℕ → List Entry
file_entries [] = []
file_entries ((filename, inode) ∷ files) = (inode, regular_file, filename) ∷ file_entries files

-- `full_entries`
abbrev pub directory_entries : HashMap Text ℕ → List Entry
directory_entries files = (1, directory, text ".") ∷ (1, directory, text "..") ∷ file_entries files

-- `reply.add`, for a buffer that holds `room` more entries: the entries that are added, with their
-- offsets, from the index `i` on.
unfoldable pub add_entries : ℕ → ℕ → List Entry → List (ℕ × Entry)
add_entries room i [] = []
add_entries zero i (entry ∷ entries) = []
add_entries (suc room) i (entry ∷ entries) = (i + 1, entry) ∷ add_entries room (i + 1) entries

module _ {C : Cache} {S : SegmentSource} where
  unfoldable pub get_file_attr : BlockframeFs C S → Text → Option FileAttr
  get_file_attr s filename = elim (lookup filename s.inner.names.manifests) [
    | none ↦ none
    | some manifest ↦ elim (lookup filename s.inner.names.filename_to_inode) [
      | none ↦ none
      | some inode ↦ some (record {
        ino = inode;
        size = to_u64 manifest.size;
        blocks = (to_u64 manifest.size + 511) % 2 ^ 64 / 512;
        atime = 0;
        mtime = 0;
        ctime = 0;
        crtime = 0;
        kind = regular_file;
        perm = 292;
        nlink = 1;
        uid = s.uid;
        gid = s.gid;
        rdev = 0;
        blksize = 512;
        flags = 0;
      })
    ]
  ]

  abbrev pub root_attr : BlockframeFs C S → FileAttr
  root_attr s = record {
    ino = 1;
    size = 0;
    blocks = 0;
    atime = 0;
    mtime = 0;
    ctime = 0;
    crtime = 0;
    kind = directory;
    perm = 493;
    nlink = 2;
    uid = s.uid;
    gid = s.gid;
    rdev = 0;
    blksize = 512;
    flags = 0;
  }

  unfoldable pub getattr : BlockframeFs C S → ℕ → Reply FileAttr
  getattr s ino =
      let of_file : Reply FileAttr = elim (lookup ino s.inner.names.inode_to_filename) [
        | some filename ↦ attr_or_enoent (get_file_attr s filename)
        | none ↦ error enoent
      ] in
      if ino == 1 then answered (root_attr s) else of_file

  -- `lookup`
  unfoldable pub lookup_entry : BlockframeFs C S → ℕ → Text → Reply FileAttr
  lookup_entry s parent filename =
      if parent == 1 then attr_or_enoent (get_file_attr s filename) else error enoent

  -- An offset below zero is a large one as `usize`.
  unfoldable pub readdir : BlockframeFs C S → ℕ → ℕ → ℤ → Reply (List (ℕ × Entry))
  readdir s room ino offset =
      if ino == 1
      then answered (
          add_entries room (to_u64 offset)
            (drop (to_u64 offset) (directory_entries s.inner.names.filename_to_inode)))
      else error enoent

  unfoldable pub open_file : BlockframeFs C S → ℕ → Reply ℕ × BlockframeFs C S
  open_file s ino = elim (lookup ino s.inner.names.inode_to_filename) [
    | some filename ↦ (
      answered s.next_fh,
      record s {
        open_files = insert s.next_fh (filename, 0) s.open_files;
        next_fh = s.next_fh + 1;
      },
    )
    | none ↦ (unanswered, s)
  ]

  unfoldable pub release : BlockframeFs C S → ℕ → Reply (Unit {0}) × BlockframeFs C S
  release s fh = (answered tt, record s { open_files = remove fh s.open_files })

module _ (H : Hasher) (R : ReedSolomon) (S : SegmentSource) (C : Cache) where
  -- The part of `read` for a file with a manifest.
  unfoldable pub read_described :
      ℕ → Text → ManifestFile → ℕ → ℕ → BlockframeFs C S → Reply Bytes × BlockframeFs C S
  read_described fuel filename m offset size s =
      let file_size = to_u64 m.size in
      let actual_size = min size (file_size - offset) in
      let (outcome, inner) =
        read_bytes H R S C filename fuel m.segment_size m.tier offset actual_size s.inner in
      if leb file_size offset
      then (answered [], s)
      else (data_reply outcome, record s { inner = inner })

  -- `read`; the fuel is that of `read_bytes`.
  unfoldable pub read_file : ℕ → BlockframeFs C S → ℕ → ℤ → ℕ → Reply Bytes × BlockframeFs C S
  read_file fuel s fh offset size = elim (lookup fh s.open_files) [
    | none ↦ (error ebadf, s)
    | some (filename, cursor) ↦ elim (lookup filename s.inner.names.manifests) [
      | none ↦ (error enoent, s)
      | some m ↦ read_described fuel filename m (to_u64 offset) size s
    ]
  ]
