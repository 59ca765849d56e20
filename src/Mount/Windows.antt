-- ===== src/Mount/Windows.antt =====
-- src/mount/filesystem_win.rs: the file system of WinFSP. A call holds the lock of the inner state
-- for each segment that it reads; the model runs one call at a time.
pub mod Segments
pub mod Reads
pub mod Honest
pub mod Mounted
pub mod Calls
use blockframe_rs.Base.{
  ℕ, zero, suc, ◌+◌, ◌-◌, ◌/◌, ◌%◌, Bool, not, Option, none, some, List, [], ◌∷◌, ◌++◌, Text, Bytes,
  text, text_eq, Result, Error, ok, err, message, lookup, string_key, length, take, drop, min, ltb,
  leb, ◌==◌, if◌then◌else◌, to_u64,
}
use blockframe_rs.Base.Exec.{Exec, pure, lift, ◌>>=◌}
use blockframe_rs.Utils.{Hasher, blake3_hash_bytes}
use blockframe_rs.ReedSolomon.{ReedSolomon}
use blockframe_rs.Manifest.{ManifestFile}
use blockframe_rs.Mount.Source.{SegmentSource}
use blockframe_rs.Mount.Cache.{Cache, cache_key}
use blockframe_rs.Mount.Names.{Names, no_names, refresh_files}
use blockframe_rs.Mount.Hashes.{expected_hash, block_of}
use blockframe_rs.Mount.Recover.{recover_segment}

-- `BlockframeFSInner`
pub record Inner (C : Cache) (S : SegmentSource) : Type 0 where
  pub source : S.World
  pub cache : C.State
  pub names : Names

-- How a call ends: with a value, with an error status, in a panic, or not within the fuel.
pub data Outcome (A : Type 0) : Type 0 where
  returned : A → Outcome A
  failed : Error → Outcome A
  panicked : Outcome A
  unfinished : Outcome A

-- `STATUS_OBJECT_NAME_NOT_FOUND`
abbrev pub name_not_found : Error
name_not_found = message (text "NTSTATUS(-1073741772)")

module _ (H : Hasher) (R : ReedSolomon) (S : SegmentSource) where
  unfoldable pub fetch : Text → ℕ → ℕ → Exec S.World Bytes
  fetch filename segment_index tier =
      if tier == 1
      then S.read_data filename
      else if tier == 2
      then S.read_segment filename segment_index
      else if tier == 3
      then S.read_block_segment filename (segment_index / 30) (segment_index % 30)
      else lift (err (message (text "Unsupported tier")))

  -- The test against the manifest, where it has a hash, and the recovery.
  unfoldable pub verified : Text → ℕ → ℕ → ManifestFile → Bytes → Exec S.World Bytes
  verified filename segment_index tier manifest segment_data =
      elim (expected_hash manifest tier segment_index) [
        | none ↦ pure segment_data
        | some hash ↦
            if not (text_eq (blake3_hash_bytes H segment_data) hash)
            then recover_segment H R S filename manifest segment_index (block_of tier segment_index)
            else pure segment_data
      ]

  module _ (C : Cache) where
    -- What a miss leaves: the cache holds the segment if there is one.
    unfoldable pub store_segment :
        Text → C.State → Names → Result Bytes × S.World → Result Bytes × Inner C S
    store_segment key cache names (ok segment, world) =
        (ok segment, record { source = world; cache = C.insert cache key segment; names = names })
    store_segment key cache names (err e, world) =
        (err e, record { source = world; cache = cache; names = names })

    unfoldable pub read_from_source : Text → ℕ → ℕ → ManifestFile → Exec (Inner C S) Bytes
    read_from_source filename segment_index tier manifest s =
        let key = cache_key filename segment_index in
        let (hit, cache) = C.get s.cache key in
        elim hit [
          | some segment ↦ (ok segment, record s { cache = cache })
          | none ↦ store_segment key cache s.names (
              (fetch filename segment_index tier >>= λ segment_data.
              verified filename segment_index tier manifest segment_data)
                s.source)
        ]

    -- The loop of `read`. `buffer` is what has been copied; `bytes_to_read` are wanted in all. A
    -- segment that ends before the offset makes the subtraction of `usize` fail.
    unfoldable pub read_loop :
        ℕ → Text → ManifestFile → ℕ → ℕ → Bytes → Inner C S → Outcome Bytes × Inner C S
    read_loop zero filename manifest bytes_to_read current_offset buffer s = (unfinished, s)
    read_loop (suc fuel) filename manifest bytes_to_read current_offset buffer s =
        let segment_size = manifest.segment_size in
        let segment_index = current_offset / segment_size in
        let segment_offset = current_offset % segment_size in
        let (segment, s') = read_from_source filename segment_index manifest.tier manifest s in
        let next : Outcome Bytes × Inner C S = elim segment [
          | err e ↦ (failed name_not_found, s')
          | ok segment_data ↦
              let len =
                min (length segment_data - segment_offset) (bytes_to_read - length buffer) in
              let rest =
                read_loop fuel filename manifest bytes_to_read (current_offset + len)
                  (buffer ++ take len (drop segment_offset segment_data)) s' in
              if ltb (length segment_data) segment_offset then (panicked, s') else rest
        ] in
        if not (ltb (length buffer) bytes_to_read)
        then (returned buffer, s)
        else if segment_size == 0
        then (panicked, s)
        else next

    -- `read` into a buffer of `buffer_len` bytes. The result is what the buffer holds afterwards.
    unfoldable pub read : Text → ℕ → ℕ → Inner C S → Outcome Bytes × Inner C S
    read filename buffer_len offset s = elim (lookup filename s.names.manifests) [
      | none ↦ (failed name_not_found, s)
      | some manifest ↦
          let size = to_u64 manifest.size in
          let bytes_to_read = min (size - offset) buffer_len in
          if leb size offset
          then (returned [], s)
          else read_loop (bytes_to_read + 1) filename manifest bytes_to_read offset [] s
    ]

-- The tables after `let _ = inner.refresh_files()`: a source that cannot be listed leaves them empty.
abbrev pub listed_or_none : Result Names → Names
listed_or_none (ok names) = names
listed_or_none (err e) = no_names

-- `BlockframeFS::new`
unfoldable pub new_fs : (S : SegmentSource) (C : Cache) → S.World → Inner C S
new_fs S C w =
    let (names, source) = refresh_files S no_names w in
    record { source = source; cache = C.empty; names = listed_or_none names }
