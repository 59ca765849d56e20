-- ===== src/Tests/Calls.antt =====
-- Runs of the theorems on the calls of FUSE.
use blockframe_rs.Base.{
  ◌+◌, ◌/◌, ◌%◌, ◌^◌, ◌≡◌, refl, inl, inr, none, some, [], text_eq, text_eq_iff, lookup, string_key,
  usize_key, pos, to_u64, ◌==◌, if◌then◌else◌, arith, Bool-cases,
}
use blockframe_rs.Mount.Source.{SegmentSource}
use blockframe_rs.Mount.Local.{local_source}
use blockframe_rs.Mount.Names.Inodes.{IsInverse}
use blockframe_rs.Mount.Unix.Calls.{
  BlockframeFs, answered, error, ebadf, regular_file, FileAttr, getattr, lookup_entry,
  get_file_attr, open_file, release, read_file, read_described,
}
use blockframe_rs.Mount.Unix.Calls.Laws.{
  here, then_call, opens, HasHandles, Calls-HasHandles, open_file-read_file, getattr-lookup_entry,
}
use blockframe_rs.Tests.Crates.{plain, replication, table}
use blockframe_rs.Tests.Codec.{json}
use blockframe_rs.Tests.Memory.{memory}
use blockframe_rs.Tests.Committed.{small}
use blockframe_rs.Tests.Restored.{name, store, listing, small_file}
use blockframe_rs.Tests.Remounted.{mounted, mounted-lookup}

abbrev source : SegmentSource
source = local_source (memory (listing small)) json store

abbrev start : BlockframeFs table source
start = record { inner = mounted; open_files = []; next_fh = 1; uid = 1000; gid = 1000 }

Calls-HasHandles_example : HasHandles (open_file start 2).1
Calls-HasHandles_example =
    Calls-HasHandles plain replication source table start (open_file start 2).1 refl
      (then_call here (opens 2))

start-HasHandles : HasHandles start
start-HasHandles = Calls-HasHandles plain replication source table start start refl here

start-named : lookup 2 start.inner.names.inode_to_filename ≡ some name
unfolding lookup
start-named = refl

open_file-read_file_example :
    ((open_file start 2).0 ≡ answered 1)
    × (lookup 1 start.open_files ≡ none)
    × (lookup 9 (open_file start 2).1.open_files
        ≡ (if 9 == 1 then some (name, 0) else lookup 9 start.open_files))
    × (read_file plain replication source table 20 (open_file start 2).1 1 (pos 7) 5
        ≡ read_described plain replication source table 20 name small_file.manifest
            (to_u64 (pos 7))
            5
            (open_file start 2).1)
    × ((read_file plain replication source table 20
          (release (open_file start 2).1 1).1
          1
          (pos 7)
          5).0
        ≡ error ebadf)
open_file-read_file_example =
    open_file-read_file plain replication source table start 2 name small_file.manifest 20 5 9
      (pos 7) start-HasHandles start-named mounted-lookup

start-IsInverse : IsInverse start.inner.names
unfolding lookup
start-IsInverse = record {
  filed = λ f i h. elim (Bool-cases (text_eq f name)) [
    | inl e ↦ let same = (text_eq_iff f name).0 e in ground arith
    | inr e ↦ absurd (ground arith)
  ];
  named = λ i f h. elim (Bool-cases (i == 2)) [
    | inl e ↦
        let same : f ≡ name = ground arith in let t = (text_eq_iff f name).1 same in ground arith
    | inr e ↦ absurd (ground arith)
  ];
  above_root = omega arith;
}

abbrev attributes : FileAttr
attributes = record {
  ino = 2;
  size = to_u64 small_file.manifest.size;
  blocks = (to_u64 small_file.manifest.size + 511) % 2 ^ 64 / 512;
  atime = 0;
  mtime = 0;
  ctime = 0;
  crtime = 0;
  kind = regular_file;
  perm = 292;
  nlink = 1;
  uid = 1000;
  gid = 1000;
  rdev = 0;
  blksize = 512;
  flags = 0;
}

looked_up : lookup_entry start 1 name ≡ answered attributes
unfolding lookup_entry get_file_attr lookup text_eq
looked_up = refl

getattr-lookup_entry_example : getattr start 2 ≡ answered attributes
getattr-lookup_entry_example = getattr-lookup_entry start name attributes start-IsInverse looked_up
