-- ===== src/Tests/Offsets.antt =====
-- A run of the theorem on the offsets of src/mount/filesystem_unix.rs, with segments of two bytes
-- and a cache that has evicted everything.
use blockframe_rs.Base.{
  ℕ, ◌/◌, ◌^◌, ◌≤◌, ◌≡◌, ◌≢◌, none, [], ◌∷◌, Text, Bytes, text, ok, err, message, arith, length,
  true, inl, inr, Option-cases, Result-cases,
}
use blockframe_rs.Manifest.{ManifestFile}
use blockframe_rs.Mount.Source.{SegmentSource}
use blockframe_rs.Mount.Cache.{Cache}
use blockframe_rs.Mount.Recover.{recover_segment}
use blockframe_rs.Mount.Windows.{Inner, returned, store_segment}
use blockframe_rs.Mount.Unix.{
  read_unix_segment, cached_or, fetch_verified, keep_or_recover, read_bytes, segment_hash,
}
use blockframe_rs.Mount.Unix.Offsets.{read_bytes_stuck}
use blockframe_rs.Tests.Crates.{plain, replication}
use blockframe_rs.Tests.Mounted.{manifest, name}

abbrev evicted : Cache
evicted = record { State = Unit {0}; empty = tt; get = λ s k. (none, s); insert = λ s k v. s }

-- Every segment is the same, and there is no parity.
abbrev pairs : SegmentSource
pairs = record {
  World = Unit {0};
  list_files = λ w. (ok [], w);
  get_manifest = λ f w. (ok manifest, w);
  read_segment = λ f k w. (ok (104 ∷ 105 ∷ []), w);
  read_block_segment = λ f b k w. (err (message (text "no blocks")), w);
  read_parity = λ f k i b w. (err (message (text "no parity")), w);
  write_parity = λ f k b bytes w. (ok true, w);
  read_data = λ f w. (err (message (text "no data")), w);
}

pair_or_fails :
    (f : Text) (m : ManifestFile) (k : ℕ) (hash : Text) (segment : Bytes)
    → (keep_or_recover plain replication pairs f m k none hash (104 ∷ 105 ∷ []) tt).0 ≡ ok segment
    → length segment ≤ 2
unfolding keep_or_recover recover_segment
pair_or_fails f m k hash segment h = ground arith

pairs_short :
    (m : ManifestFile) (s : Inner evicted pairs) (segment : Bytes)
    → (read_unix_segment plain replication pairs evicted name m 2 (2 / 2 ^ 1) s).0 ≡ ok segment
    → length segment ≤ 2 ^ 1
unfolding read_unix_segment cached_or fetch_verified store_segment
pairs_short m s segment h = elim (Option-cases (segment_hash m 1)) [
  | inl gone ↦ absurd (ground arith)
  | inr (hash, there) ↦
      elim (Result-cases
        (keep_or_recover plain replication pairs name m 1 none hash (104 ∷ 105 ∷ []) tt).0) [
          | inl (bytes, given) ↦ let few = pair_or_fails name m 1 hash bytes given in ground arith
          | inr (e, fails) ↦ absurd (ground arith)
        ]
]

read_bytes_stuck_example :
    (read_bytes plain replication pairs evicted name 7 2 2 2 1 (record {
      source = tt;
      cache = tt;
      names = record {
        inode_to_filename = [];
        filename_to_inode = [];
        next_inode = 2;
        manifests = (name, manifest) ∷ [];
      };
    })).0
    ≢ returned (104 ∷ [])
read_bytes_stuck_example =
    read_bytes_stuck plain replication pairs evicted name 1 2 2 pairs_short 7 1 0 0 (104 ∷ []) _
      (omega arith) (omega arith) (omega arith) (omega arith)
