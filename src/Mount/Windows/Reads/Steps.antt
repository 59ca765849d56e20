-- ===== src/Mount/Windows/Reads/Steps.antt =====
-- The ways through one round of the loop of `read`, and the bytes that a round copies.
use blockframe_rs.Base.{
  ℕ, suc, ◌+◌, ◌-◌, ◌*◌, ◌/◌, ◌%◌, ◌≤◌, ◌<◌, ◌≡◌, refl, ap, ◌∙◌, sym, ◌++◌, Text, Bytes, Error, ok,
  err, length, take, drop, min, piece, piece-eq, take-split, take-take, drop-take, drop-drop,
  length-take, length-drop, length-append, arith,
}
use blockframe_rs.Utils.{Hasher}
use blockframe_rs.ReedSolomon.{ReedSolomon}
use blockframe_rs.Manifest.{ManifestFile}
use blockframe_rs.Mount.Source.{SegmentSource}
use blockframe_rs.Mount.Cache.{Cache}
use blockframe_rs.Mount.Windows.{
  Inner, returned, failed, panicked, name_not_found, read_from_source, read_loop,
}

module _ (H : Hasher) (R : ReedSolomon) (S : SegmentSource) (C : Cache) where
  module _ (fuel : ℕ) (f : Text) (m : ManifestFile) (n current : ℕ) (buffer : Bytes)
      (s : Inner C S) where
    -- The segment that the round reads, and the state behind it.
    abbrev index : ℕ
    index = current / m.segment_size

    pub loop_done :
        n ≤ length buffer
        → read_loop H R S C (suc fuel) f m n current buffer s ≡ (returned buffer, s)
    unfolding read_loop
    loop_done h = ground arith

    pub loop_failed :
        (e : Error)
        → length buffer < n
        → 0 < m.segment_size
        → (read_from_source H R S C f index m.tier m s).0 ≡ err e
        → (read_loop H R S C (suc fuel) f m n current buffer s).0 ≡ failed name_not_found
    unfolding read_loop
    loop_failed e h z r = ground arith

    pub loop_copies :
        (segment : Bytes)
        → length buffer < n
        → 0 < m.segment_size
        → (read_from_source H R S C f index m.tier m s).0 ≡ ok segment
        → current % m.segment_size ≤ length segment
        → let len = min (length segment - current % m.segment_size) (n - length buffer) in
          read_loop H R S C (suc fuel) f m n current buffer s
          ≡ read_loop H R S C fuel f m n
              (current + len)
              (buffer ++ take len (drop (current % m.segment_size) segment))
              (read_from_source H R S C f index m.tier m s).1
    unfolding read_loop
    loop_copies segment h z r fits = ground arith

    pub loop_panics :
        (segment : Bytes)
        → length buffer < n
        → 0 < m.segment_size
        → (read_from_source H R S C f index m.tier m s).0 ≡ ok segment
        → length segment < current % m.segment_size
        → (read_loop H R S C (suc fuel) f m n current buffer s).0 ≡ panicked
    unfolding read_loop
    loop_panics segment h z r beyond = ground arith

-- The part of a piece from an offset on is the file from that position on.
pub take-drop-piece :
    (file : Bytes) (z current len : ℕ)
    → 0 < z
    → len ≤ z - current % z
    → take len (drop (current % z) (piece file z (current / z))) ≡ take len (drop current file)
take-drop-piece file z current len h fits =
    ap (λ p. take len (drop (current % z) p)) (piece-eq file z (current / z))
    ∙ ap (take len) (drop-take (z - current % z) (current % z) z (drop (current / z * z) file) refl)
    ∙ take-take len len (z - current % z) (drop (current % z) (drop (current / z * z) file))
        (omega arith)
    ∙ ap (take len) (drop-drop current (current / z * z) (current % z) file (omega arith))

-- Copying on: what was copied, and the next bytes of the file.
pub copy_on :
    (file : Bytes) (offset done len current : ℕ)
    → current ≡ offset + done
    → take done (drop offset file) ++ take len (drop current file)
      ≡ take (done + len) (drop offset file)
copy_on file offset done len current e =
    ap (λ rest. take done (drop offset file) ++ take len rest)
      (sym (drop-drop current offset done file e))
    ∙ sym (take-split (done + len) done len (drop offset file) refl)

-- The piece at a position inside the file reaches past that position.
pub length-piece_after :
    (file : Bytes) (z current : ℕ)
    → 0 < z
    → current < length file
    → current % z < length (piece file z (current / z))
length-piece_after file z current h inside = omega (
  arith,
  ap length (piece-eq file z (current / z)),
  length-take z (drop (current / z * z) file),
  length-drop (current / z * z) file,
)

-- A round that copies `len` bytes of the piece keeps the buffer a prefix of what is wanted.
pub prefix_grows :
    (file buffer : Bytes) (z offset current len : ℕ)
    → 0 < z
    → current < length file
    → current ≡ offset + length buffer
    → buffer ≡ take (length buffer) (drop offset file)
    → len ≤ length (piece file z (current / z)) - current % z
    → let buffer' = buffer ++ take len (drop (current % z) (piece file z (current / z))) in
      (length buffer' ≡ length buffer + len) × (buffer' ≡ take (length buffer') (drop offset file))
prefix_grows file buffer z offset current len h inside at so_far fits =
    let p = piece file z (current / z) in
    let part = take len (drop (current % z) p) in
    let size : length p ≤ z = omega (
      arith,
      ap length (piece-eq file z (current / z)),
      length-take z (drop (current / z * z) file),
    ) in
    let grown : length (buffer ++ part) ≡ length buffer + len = omega (
      arith,
      length-append buffer part,
      length-take len (drop (current % z) p),
      length-drop (current % z) p,
    ) in
    let same : buffer ++ part ≡ take (length buffer + len) (drop offset file) =
      ap (λ rest. buffer ++ rest) (take-drop-piece file z current len h (omega arith))
      ∙ ap (λ front. front ++ take len (drop current file)) so_far
      ∙ copy_on file offset (length buffer) len current at in
    (grown, same ∙ ap (λ k. take k (drop offset file)) (sym grown))
