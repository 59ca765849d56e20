-- ===== src/Mount/Windows/Honest.antt =====
-- `read` of src/mount/filesystem_win.rs over a source that has the file.
use blockframe_rs.Base.{
  ℕ, zero, suc, ◌+◌, ◌-◌, ◌*◌, ◌/◌, ◌%◌, ◌≤◌, ◌<◌, ◌≡◌, ◌≢◌, ◌⊎◌, inl, inr, ap, ◌∙◌, sym, some, [],
  ◌++◌, Text, Bytes, text_eq_refl, Error, ok, length, take, drop, min, piece, length-take,
  length-drop, length-append, lookup, string_key, arith, leb, Bool-cases, Option-cases,
}
use blockframe_rs.Base.Exec.{proceed}
use blockframe_rs.Utils.{Hasher, blake3_hash_bytes}
use blockframe_rs.ReedSolomon.{ReedSolomon}
use blockframe_rs.Manifest.{ManifestFile}
use blockframe_rs.Mount.Source.{SegmentSource}
use blockframe_rs.Mount.Cache.{Cache, IsCache, cache_key}
use blockframe_rs.Mount.Windows.{
  Inner, returned, failed, panicked, name_not_found, fetch, verified, store_segment,
  read_from_source, read_loop, read,
}
use blockframe_rs.Mount.Windows.Segments.{
  IsClean, missed, read_from_source_hit, read_from_source_miss,
}
use blockframe_rs.Mount.Windows.Reads.{Describes, Forged, read-Reads, read_past_end, read_inside}
use blockframe_rs.Mount.Windows.Reads.Steps.{loop_done, loop_copies, loop_panics}

module _ (H : Hasher) (R : ReedSolomon) (S : SegmentSource) where
  -- The source answers with the segments of a file, and stays as it is.
  pub record IsHonest (f : Text) (m : ManifestFile) (file : Bytes) (w : S.World) : Type 0 where
    pub gives :
        (k : ℕ)
        → k * m.segment_size < length file
        → fetch H R S f k m.tier w ≡ (ok (piece file m.segment_size k), w)

  module _ (C : Cache) (L : IsCache C) (f : Text) (m : ManifestFile) (file : Bytes) (w : S.World)
      (D : Describes H m file) (G : IsHonest f m file w) where
    verified-kept :
        (k : ℕ)
        → k * m.segment_size < length file
        → verified H R S f k m.tier m (piece file m.segment_size k) w
          ≡ (ok (piece file m.segment_size k), w)
    unfolding verified
    verified-kept k inside =
        let hash = D.hashes k inside in
        let same = text_eq_refl (blake3_hash_bytes H (piece file m.segment_size k)) in
        ground (arith, hash, same)

    missed-ok :
        (k : ℕ) (s : Inner C S)
        → s.source ≡ w
        → k * m.segment_size < length file
        → missed H R S C L s f k m ≡ (ok (piece file m.segment_size k), w)
    missed-ok k s here inside =
        ap (λ v. proceed (fetch H R S f k m.tier v) (λ bytes. verified H R S f k m.tier m bytes))
          here
        ∙ ap (λ run. proceed run (λ bytes. verified H R S f k m.tier m bytes)) (G.gives k inside)
        ∙ verified-kept k inside

    -- Cached or not, a segment of the file is there.
    read_from_source-ok :
        (k : ℕ) (s : Inner C S)
        → s.source ≡ w
        → k * m.segment_size < length file
        → (segment : Bytes) × ((read_from_source H R S C f k m.tier m s).0 ≡ ok segment)
          × ((read_from_source H R S C f k m.tier m s).1.source ≡ w)
    unfolding store_segment
    read_from_source-ok k s here inside =
        let key = cache_key f k in
        elim (Option-cases (C.get s.cache key).0) [
          | inr (segment, hit) ↦
              let e = read_from_source_hit H R S C L s f k m segment hit in
              (segment, ap (λ run. run.0) e, ap (λ run. run.1.source) e ∙ here)
          | inl miss ↦
              let e =
                read_from_source_miss H R S C L s f k m miss
                ∙ ap (store_segment H R S C key (C.get s.cache key).1 s.names)
                    (missed-ok k s here inside) in
              (piece file m.segment_size k, ap (λ run. run.0) e, ap (λ run. run.1.source) e)
        ]

    read_loop-ne-failed :
        (fuel offset n current : ℕ) (buffer : Bytes) (s : Inner C S) (e : Error)
        → s.source ≡ w
        → offset + n ≤ length file
        → current ≡ offset + length buffer
        → (read_loop H R S C fuel f m n current buffer s).0 ≢ failed e
    read_loop-ne-failed zero offset n current buffer s e here within at p = unfold read_loop in cc
    read_loop-ne-failed (suc fuel) offset n current buffer s e here within at p =
        elim (Bool-cases (leb n (length buffer))) [
          | inl full ↦
              let q =
                ap (λ run. run.0) (loop_done H R S C fuel f m n current buffer s (ground arith)) in
              let r : returned buffer ≡ failed e = sym q ∙ p in cc
          | inr more ↦
              let short : length buffer < n = ground arith in
              let positive = D.cut in
              let k = current / m.segment_size in
              let off = current % m.segment_size in
              let (segment, r, here') = read_from_source-ok k s here (omega arith) in
              elim (Bool-cases (leb off (length segment))) [
                | inl fits ↦
                    let len = min (length segment - off) (n - length buffer) in
                    let step =
                      loop_copies H R S C fuel f m n current buffer s segment short D.cut r
                        (ground arith) in
                    read_loop-ne-failed fuel offset n (current + len)
                      (buffer ++ take len (drop off segment))
                      (read_from_source H R S C f k m.tier m s).1 e here' within
                      (omega (
                        arith,
                        length-append buffer (take len (drop off segment)),
                        length-take len (drop off segment),
                        length-drop off segment,
                      ))
                      (ap (λ run. run.0) (sym step) ∙ p)
                | inr beyond ↦
                    let q =
                      loop_panics H R S C fuel f m n current buffer s segment short D.cut r
                        (ground arith) in
                    let bad : panicked ≡ failed e = sym q ∙ p in cc
              ]
        ]

    read-ne-failed :
        (buffer_len offset : ℕ) (s : Inner C S)
        → s.source ≡ w
        → lookup f s.names.manifests ≡ some m
        → (e : Error) → (read H R S C f buffer_len offset s).0 ≢ failed e
    read-ne-failed buffer_len offset s here found e p =
        elim (Bool-cases (leb (length file) offset)) [
          | inl past ↦
              let q =
                read_past_end H R S C L f m buffer_len offset (length file) s found D.size
                  (ground arith) in
              let bad : returned [] ≡ failed e = sym q ∙ p in cc
          | inr more ↦
              let n = min (length file - offset) buffer_len in
              let q =
                read_inside H R S C L f m buffer_len offset (length file) s found D.size
                  (ground arith) in
              read_loop-ne-failed (n + 1) offset n offset [] s e here (ground arith) (omega arith)
                (ap (λ run. run.0) (sym q) ∙ p)
        ]

    -- A read of a file that its manifest describes, from a state whose cache is clean, over a
    -- source that has the file's segments: it returns the file's bytes from the offset on, as many
    -- as the file has and the buffer holds, or the cache gave a segment that has the digest of the
    -- file's segment and differs from it.
    pub read-IsHonest :
        (buffer_len offset : ℕ) (s : Inner C S)
        → s.source ≡ w
        → IsClean H R S C L s
        → lookup f s.names.manifests ≡ some m
        → ((read H R S C f buffer_len offset s).0 ≡ returned (take buffer_len (drop offset file)))
          ⊎ Forged H R S C f m file s
    read-IsHonest buffer_len offset s here inv found =
        elim (read-Reads H R S C L f m file buffer_len offset s D inv found) [
          | inl done ↦ inl done
          | inr (inr forged) ↦ inr forged
          | inr (inl fails) ↦
              absurd (read-ne-failed buffer_len offset s here found name_not_found fails)
        ]
