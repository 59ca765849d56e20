-- ===== src/Mount/Unix.antt =====
-- src/mount/filesystem_unix.rs: the file system of FUSE. Its state has the source, the cache and
-- the tables that the one of src/mount/filesystem_win.rs has; the open files play no part in reads.
pub mod Tiny
pub mod Offsets
pub mod Calls
use Prim.Native.Nat.{bit_and}
use mathlib.Core.Option
use blockframe_rs.Base.{
  ℕ, zero, suc, ◌+◌, ◌-◌, ◌/◌, ◌%◌, Bool, not, Option, none, some, List, [], ◌∷◌, ◌++◌, Text, Bytes,
  text, text_eq, Result, Error, ok, err, message, ok_or, lookup, string_key, usize_key, i32_key,
  length, take, drop, min, ltb, ◌==◌, if◌then◌else◌, get_elem?, slice, pos,
}
use blockframe_rs.Base.Decimal.{to_string}
use blockframe_rs.Base.Exec.{Exec, pure, lift, proceed, ◌>>=◌}
use blockframe_rs.Utils.{Hasher, blake3_hash_bytes}
use blockframe_rs.ReedSolomon.{ReedSolomon}
use blockframe_rs.Manifest.{ManifestFile, SegmentHashes, BlockHashes}
use blockframe_rs.Mount.Source.{SegmentSource}
use blockframe_rs.Mount.Cache.{Cache, cache_key, get_or_fetch}
use blockframe_rs.Mount.Recover.{recover_segment}
use blockframe_rs.Mount.Windows.{
  Inner, Outcome, returned, failed, panicked, unfinished, store_segment,
}

-- The hash in the manifest for a segment of tier 3, and of tier 2.
abbrev block_segment_hash : ManifestFile → ℕ → ℕ → Option Text
block_segment_hash manifest block_id seg_idx =
    Option.bind (lookup block_id manifest.merkle_tree.blocks)
      (λ (b : BlockHashes). get_elem? b.segments seg_idx)

abbrev pub segment_hash : ManifestFile → ℕ → Option Text
segment_hash manifest segment_id =
    Option.map (λ (s : SegmentHashes). s.segment_data)
      (lookup segment_id manifest.merkle_tree.segments)

-- `format!("{}:block{}:seg{}", filename, block_id, segment_in_block)`
unfoldable pub block_cache_key : Text → ℕ → ℕ → Text
block_cache_key filename block_id segment_in_block =
    filename
    ++ (text ":block" ++ (to_string block_id ++ (text ":seg" ++ to_string segment_in_block)))

module _ (H : Hasher) (R : ReedSolomon) (S : SegmentSource) where
  -- What was fetched, against a hash: as it is, or recovered.
  unfoldable pub keep_or_recover :
      Text → ManifestFile → ℕ → Option ℕ → Text → Bytes → Exec S.World Bytes
  keep_or_recover filename manifest segment_id block_id expected_hash bytes =
      if not (text_eq (blake3_hash_bytes H bytes) expected_hash)
      then recover_segment H R S filename manifest segment_id block_id
      else pure bytes

  -- On a miss of the cache: the fetched segment, verified.
  unfoldable pub fetch_verified :
      Text → ManifestFile → ℕ → Option ℕ → Option Text → Exec S.World Bytes → Exec S.World Bytes
  fetch_verified filename manifest segment_id block_id hash fetch = do
    bytes ← fetch
    expected_hash ←
        lift (ok_or hash (message (text "Hash not found for segment " ++ to_string segment_id)))
    keep_or_recover filename manifest segment_id block_id expected_hash bytes

  module _ (C : Cache) where
    unfoldable pub cached_or : Text → Exec S.World Bytes → Exec (Inner C S) Bytes
    cached_or key fetch s =
        let (hit, cache) = C.get s.cache key in
        elim hit [
          | some cached ↦ (ok cached, record s { cache = cache })
          | none ↦ store_segment H R S C key cache s.names (fetch s.source)
        ]

    -- The segment that a round of the loop of `read_bytes` copies from.
    unfoldable pub read_unix_segment : Text → ManifestFile → ℕ → ℕ → Exec (Inner C S) Bytes
    read_unix_segment filename manifest tier segment_id =
        if tier == 3
        then cached_or (block_cache_key filename (segment_id / 30) (segment_id % 30)) (
            fetch_verified filename manifest segment_id (some (segment_id / 30))
              (block_segment_hash manifest (segment_id / 30) (segment_id % 30))
              (S.read_block_segment filename (segment_id / 30) (segment_id % 30)))
        else cached_or (cache_key filename segment_id) (
            fetch_verified filename manifest segment_id none (segment_hash manifest segment_id)
              (S.read_segment filename segment_id))

    -- The loop of `read_bytes`; the offset inside a segment is a bitwise and.
    unfoldable pub read_bytes_loop :
        ℕ → Text → ℕ → ℕ → ℕ → ℕ → Bytes → Inner C S → Outcome Bytes × Inner C S
    read_bytes_loop zero filename segment_size tier remaining current_offset result s =
        (unfinished, s)
    read_bytes_loop (suc fuel) filename segment_size tier remaining current_offset result s =
        let segment_id = current_offset / segment_size in
        let offset_in_segment = bit_and current_offset segment_size in
        let copied : ManifestFile → Outcome Bytes × Inner C S = λ manifest.
          let (segment, s') = read_unix_segment filename manifest tier segment_id s in
          elim segment [
            | err e ↦ (failed e, s')
            | ok segment_data ↦
                let to_read = min remaining (length segment_data - offset_in_segment) in
                let rest =
                  read_bytes_loop fuel filename segment_size tier (remaining - to_read)
                    (current_offset + to_read)
                    (result ++ take to_read (drop offset_in_segment segment_data)) s' in
                if ltb (length segment_data) offset_in_segment then (panicked, s') else rest
          ] in
        let next : Outcome Bytes × Inner C S = elim (lookup filename s.names.manifests) [
          | none ↦ (
            failed (message (text "file not found in manifests hashtable line: 184 read_bytes")),
            s,
          )
          | some manifest ↦ copied manifest
        ] in
        if remaining == 0
        then (returned result, s)
        else if segment_size == 0
        then (panicked, s)
        else next

    -- The whole file of tier 1, checked where the manifest has a hash for it, cached or not.
    unfoldable pub check_tiny : Text → Bytes → Inner C S → Result Bytes × Inner C S
    check_tiny filename bytes s = elim (lookup filename s.names.manifests) [
      | none ↦ (ok bytes, s)
      | some manifest ↦ elim (lookup (pos 0) manifest.merkle_tree.leaves) [
        | none ↦ (ok bytes, s)
        | some expected_hash ↦
            let (checked, w) =
              keep_or_recover filename manifest 0 none expected_hash bytes s.source in
            (checked, record s { source = w })
      ]
    ]

    unfoldable pub read_tiny : Text → Exec (Inner C S) Bytes
    read_tiny filename s =
        let (fetched, cache, w) =
          get_or_fetch C s.cache filename 0 (S.read_data filename) s.source in
        proceed (fetched, record s { source = w; cache = cache }) (check_tiny filename)

    unfoldable pub read_bytes : Text → ℕ → ℕ → ℕ → ℕ → ℕ → Inner C S → Outcome Bytes × Inner C S
    read_bytes filename fuel segment_size tier offset size s =
        let (tiny, s') = read_tiny filename s in
        let whole : Outcome Bytes × Inner C S = elim tiny [
          | err e ↦ (failed e, s')
          | ok bytes ↦
              let end = min (offset + size) (length bytes) in
              if ltb end offset then (panicked, s') else (returned (slice bytes offset end), s')
        ] in
        if tier == 1
        then whole
        else read_bytes_loop fuel filename segment_size tier size offset [] s
