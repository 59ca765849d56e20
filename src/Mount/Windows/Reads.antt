-- ===== src/Mount/Windows/Reads.antt =====
-- `read` of src/mount/filesystem_win.rs: the bytes of the file, or an error, or a forged segment.
pub mod Steps
use blockframe_rs.Base.{
  ne_of_text_eq, text_eq, eq_of_text_eq, ◌≢◌, ℕ, zero, suc, ◌+◌, ◌-◌, ◌*◌, ◌/◌, ◌%◌, ◌≤◌, ◌<◌, ◌≡◌,
  ◌⊎◌, inl, inr, refl, ap, ◌∙◌, sym, subst, some, [], ◌++◌, Text, Bytes, Result, ok, err, length,
  take, drop, min, piece, piece-eq, length-take, length-drop, length-append, Result-cases, lookup,
  string_key, ℤ, pos, arith, take-nil, take-min, drop-of_le, leb, true, false, Bool-cases,
}
use blockframe_rs.Utils.{Hasher, blake3_hash_bytes}
use blockframe_rs.ReedSolomon.{ReedSolomon}
use blockframe_rs.Manifest.{ManifestFile}
use blockframe_rs.Mount.Source.{SegmentSource}
use blockframe_rs.Mount.Cache.{Cache, IsCache}
use blockframe_rs.Mount.Hashes.{expected_hash, IsTier}
use blockframe_rs.Mount.Windows.{
  Inner, Outcome, returned, failed, name_not_found, read_from_source, read_loop, read,
}
use blockframe_rs.Mount.Windows.Segments.{IsClean, Gives, read_from_source-Gives}
use Steps.{loop_done, loop_failed, loop_copies, length-piece_after, prefix_grows}

-- A manifest that describes a file: its size, a size of segments, and the hash of every segment.
pub record Describes (H : Hasher) (m : ManifestFile) (file : Bytes) : Type 0 where
  pub tier : IsTier m.tier
  pub size : m.size ≡ pos (length file)
  pub cut : 0 < m.segment_size
  pub hashes :
      (k : ℕ)
      → k * m.segment_size < length file
      → expected_hash m m.tier k ≡ some (blake3_hash_bytes H (piece file m.segment_size k))

module _ (H : Hasher) (R : ReedSolomon) (S : SegmentSource) (C : Cache) where
  -- The states that the reads of a file's segments lead to.
  pub data Reached (f : Text) (m : ManifestFile) (s : Inner C S) : Inner C S → Type 0 where
    here : Reached f m s s
    further :
        {s' : Inner C S} (k : ℕ)
        → Reached f m s s'
        → Reached f m s (read_from_source H R S C f k m.tier m s').1

  -- A segment that came up on the way, is not the file's, and has the digest of the file's.
  pub record Forged (f : Text) (m : ManifestFile) (file : Bytes) (s : Inner C S) : Type 0 where
    pub index : ℕ
    pub before : Inner C S
    pub segment : Bytes
    pub reached : Reached f m s before
    pub given : (read_from_source H R S C f index m.tier m before).0 ≡ ok segment
    pub differs : segment ≢ piece file m.segment_size index
    pub collides :
        blake3_hash_bytes H segment ≡ blake3_hash_bytes H (piece file m.segment_size index)

  -- The outcomes that are allowed for a read, from a state, that should give `bytes` of a file.
  abbrev pub Reads : Text → ManifestFile → Bytes → Inner C S → Bytes → Outcome Bytes → Type 0
  Reads f m file s bytes o = (o ≡ returned bytes) ⊎ (o ≡ failed name_not_found) ⊎ Forged f m file s

  -- A segment with the right digest is the file's, or it is forged.
  genuine :
      (f : Text) (m : ManifestFile) (file : Bytes) (s before : Inner C S) (k : ℕ) (segment : Bytes)
      → Reached f m s before
      → (read_from_source H R S C f k m.tier m before).0 ≡ ok segment
      → blake3_hash_bytes H segment ≡ blake3_hash_bytes H (piece file m.segment_size k)
      → (segment ≡ piece file m.segment_size k) ⊎ Forged f m file s
  genuine f m file s before k segment reach r e =
      let p = piece file m.segment_size k in
      elim (Bool-cases (text_eq segment p)) [
        | inl same ↦ inl (eq_of_text_eq segment p same)
        | inr other ↦ inr (record {
          index = k;
          before = before;
          segment = segment;
          reached = reach;
          given = r;
          differs = ne_of_text_eq segment p other;
          collides = e;
        })
      ]

module _ (H : Hasher) (R : ReedSolomon) (S : SegmentSource) (C : Cache) (L : IsCache C) where
  module _ (f : Text) (m : ManifestFile) (file : Bytes) (D : Describes H m file) (offset n : ℕ)
      (origin : Inner C S) (within : offset + n ≤ length file) where
    read_loop-Reads :
        (fuel current : ℕ) (buffer : Bytes) (s : Inner C S)
        → Reached H R S C f m origin s
        → IsClean H R S C L s
        → lookup f s.names.manifests ≡ some m
        → current ≡ offset + length buffer
        → buffer ≡ take (length buffer) (drop offset file)
        → length buffer ≤ n
        → n < fuel + length buffer
        → Reads H R S C f m file origin
            (take n (drop offset file))
            (read_loop H R S C fuel f m n current buffer s).0
    read_loop-Reads zero current buffer s path inv found at so_far l fuel_left =
        absurd (omega arith)
    read_loop-Reads (suc fuel) current buffer s path inv found at so_far l fuel_left =
        elim (Bool-cases (leb n (length buffer))) [
          | inl full ↦
              let all_read : length buffer ≡ n = ground arith in
              inl (
                ap (λ run. run.0) (loop_done H R S C fuel f m n current buffer s (ground arith))
                ∙ ap returned (so_far ∙ ap (λ k. take k (drop offset file)) all_read))
          | inr more ↦
              let k = current / m.segment_size in
              let short : length buffer < n = ground arith in
              let positive = D.cut in
              let inside : current < length file = omega arith in
              let before : k * m.segment_size ≤ current = omega arith in
              let G =
                read_from_source-Gives H R S C L s f k m
                  (blake3_hash_bytes H (piece file m.segment_size k)) inv D.tier found
                  (D.hashes k (omega arith)) in
              elim (Result-cases (read_from_source H R S C f k m.tier m s).0) [
                | inr (e, r) ↦
                    inr (inl (loop_failed H R S C fuel f m n current buffer s e short D.cut r))
                | inl (segment, r) ↦
                    elim (genuine H R S C f m file origin s k segment path r (G.good segment r)) [
                      | inr forged ↦ inr (inr forged)
                      | inl same ↦
                          let p = piece file m.segment_size k in
                          let off = current % m.segment_size in
                          let len = min (length p - off) (n - length buffer) in
                          let reach = length-piece_after file m.segment_size current D.cut inside in
                          let (grown, prefix) =
                            prefix_grows file buffer m.segment_size offset current len D.cut inside
                              at so_far (omega arith) in
                          subst
                            (λ run. Reads H R S C f m file origin (take n (drop offset file)) run.0)
                            (sym (
                              loop_copies H R S C fuel f m n current buffer s p short D.cut
                                (r ∙ ap ok same) (omega arith)))
                            (read_loop-Reads fuel (current + len) (buffer ++ take len (drop off p))
                              _ (further k path) G.still_clean
                              (ap (λ names. lookup f names.manifests) G.same_names ∙ found)
                              (omega arith) prefix (omega arith) (omega arith))
                    ]
              ]
        ]

  module _ (f : Text) (m : ManifestFile) (buffer_len offset size : ℕ) (s : Inner C S)
      (found : lookup f s.names.manifests ≡ some m) (described : m.size ≡ pos size) where
    pub read_past_end : size ≤ offset → (read H R S C f buffer_len offset s).0 ≡ returned []
    unfolding read
    read_past_end h = ground arith

    pub read_inside :
        offset < size
        → let n = min (size - offset) buffer_len in
          read H R S C f buffer_len offset s ≡ read_loop H R S C (n + 1) f m n offset [] s
    unfolding read
    read_inside h = ground arith

  -- A read of a file that its manifest describes, from a state whose cache is clean, whatever the
  -- source answers and the cache has evicted: it puts the file's bytes from the offset on into the
  -- buffer, as many as the file has and the buffer holds, or it fails with a status, or one of the
  -- segments that came up has the digest of the file's segment and differs from it. It does not
  -- panic and it ends, unless such a segment came up.
  pub read-Reads :
      (f : Text) (m : ManifestFile) (file : Bytes) (buffer_len offset : ℕ) (s : Inner C S)
      → Describes H m file
      → IsClean H R S C L s
      → lookup f s.names.manifests ≡ some m
      → Reads H R S C f m file s
          (take buffer_len (drop offset file))
          (read H R S C f buffer_len offset s).0
  read-Reads f m file buffer_len offset s D inv found =
      elim (Bool-cases (leb (length file) offset)) [
        | inl past ↦ inl (
            read_past_end f m buffer_len offset (length file) s found D.size (ground arith)
            ∙ ap returned (
                sym (
                  ap (take buffer_len) (drop-of_le offset file (ground arith))
                  ∙ take-nil buffer_len)))
        | inr more ↦
            let n = min (length file - offset) buffer_len in
            let before : offset < length file = ground arith in
            let whole : take n (drop offset file) ≡ take buffer_len (drop offset file) =
              take-min buffer_len n (drop offset file) (omega (arith, length-drop offset file)) in
            subst (λ run. Reads H R S C f m file s (take buffer_len (drop offset file)) run.0)
              (sym (read_inside f m buffer_len offset (length file) s found D.size before))
              (subst
                (λ bytes.
                  Reads H R S C f m file s bytes (read_loop H R S C (n + 1) f m n offset [] s).0)
                whole
                (read_loop-Reads f m file D offset n s (omega arith) (n + 1) offset [] s here inv
                  found (omega arith) refl (omega arith) (omega arith)))
      ]
