-- ===== src/Chunker/Generate/Laws.antt =====
-- What src/chunker/generate.rs promises: the chunks hold the file, and parity can be made.
use mathlib.Core.List.{append-nil}
use mathlib.Core.Path.{fun_ext}
use blockframe_rs.Base.{
  ℕ, zero, suc, ◌+◌, ◌-◌, ◌*◌, ◌≤◌, ◌<◌, ◌≡◌, refl, ap, ◌∙◌, sym, inl, inr, List, [], ◌∷◌, ◌++◌,
  Bytes, Result, ok, ◌>>=◌, length, length-take, length-append, length-replicate, take, drop,
  replicate, concat, All, min, ltb, if◌then◌else◌, Bool-cases, slice, div_ceil, resize, take-split,
  take-of_le, drop-of_le, drop-drop, piece-eq, take-nil, arith,
}
use blockframe_rs.ReedSolomon.{ReedSolomon, IsReplicating}
use blockframe_rs.Chunker.Generate.{chunks_from, get_chunks, padded_size, generate_parity_segmented}

-- One chunk: the window at its index, empty past the end.
chunk_eq :
    (i z : ℕ) (file : Bytes)
    → (if ltb (i * z) (length file)
        then slice file (i * z) (min ((i + 1) * z) (length file))
        else [])
      ≡ take z (drop (i * z) file)
chunk_eq i z file = elim (Bool-cases (ltb (i * z) (length file))) [
  | inl e ↦ rw e (piece-eq file z i)
  | inr e ↦ rw (e, drop-of_le (i * z) file (ground arith)) (sym (take-nil z))
]

concat-chunks_from :
    (rounds i z : ℕ) (file : Bytes)
    → concat (chunks_from rounds i z file) ≡ take (rounds * z) (drop (i * z) file)
unfolding chunks_from
concat-chunks_from zero i z file = let none_left : 0 * z ≡ 0 = omega arith in rw none_left refl
concat-chunks_from (suc rounds) i z file =
    ap (λ c. c ++ concat (chunks_from rounds (i + 1) z file)) (chunk_eq i z file)
    ∙ ap (λ rest. take z (drop (i * z) file) ++ rest)
        (concat-chunks_from rounds (i + 1) z file
          ∙ ap (take (rounds * z)) (sym (drop-drop ((i + 1) * z) (i * z) z file (omega arith))))
    ∙ sym (take-split (suc rounds * z) z (rounds * z) (drop (i * z) file) (omega arith))

length-chunks_from : (rounds i z : ℕ) (file : Bytes) → length (chunks_from rounds i z file) ≡ rounds
unfolding chunks_from
length-chunks_from zero i z file = refl
length-chunks_from (suc rounds) i z file = ap suc (length-chunks_from rounds (i + 1) z file)

All-chunks_from :
    (rounds i z : ℕ) (file : Bytes) → All (λ c. length c ≤ z) (chunks_from rounds i z file)
unfolding chunks_from
All-chunks_from zero i z file = tt
All-chunks_from (suc rounds) i z file = (
  rw (chunk_eq i z file) (omega (arith, length-take z (drop (i * z) file))),
  All-chunks_from rounds (i + 1) z file,
)

-- `get_chunks` cuts a file into six chunks, none longer than a sixth of the file rounded up, which
-- put together in order are the file.
pub get_chunks_lem :
    (file : Bytes)
    → (length (get_chunks file) ≡ 6)
      × All (λ c. length c ≤ div_ceil (length file) 6) (get_chunks file)
      × (concat (get_chunks file) ≡ file)
unfolding get_chunks
get_chunks_lem file =
    let z = div_ceil (length file) 6 in
    let none_skipped : 0 * z ≡ 0 = omega arith in
    (
      length-chunks_from 6 0 z file,
      All-chunks_from 6 0 z file,
      concat-chunks_from 6 0 z file
          ∙ ap (λ k. take (6 * z) (drop k file)) none_skipped
          ∙ take-of_le (6 * z) file (omega arith),
    )

pub length-resize : (v : Bytes) (n : ℕ) → length (resize v n) ≡ n
length-resize v n = omega (
  arith,
  length-append (take n v) (replicate (n - length v) 0),
  length-take n v,
  length-replicate {A = ℕ} (n - length v) 0,
)

pub resize_self : (v : Bytes) (n : ℕ) → n ≡ length v → resize v n ≡ v
resize_self v n e =
    let full : n - length v ≡ 0 = omega arith in
    ap (λ k. take n v ++ replicate k 0) full ∙ append-nil (take n v) ∙ take-of_le n v (omega arith)

module _ (R : ReedSolomon) where
  add_padded :
      (segment : Bytes) (n : ℕ) (e : R.Encoder)
      → length segment ≤ n
      → (if ltb (length segment) n
          then R.add_original e (resize segment n)
          else R.add_original e segment)
        ≡ R.add_original e (resize segment n)
  add_padded segment n e h = elim (Bool-cases (ltb (length segment) n)) [
    | inl short ↦ rw short
    | inr full ↦ rw full (ap (R.add_original e) (sym (resize_self segment n (ground arith))))
  ]

  -- Padded or not, what the encoder gets is the data filled up with zeros.
  pub generate_parity_segmented_lem :
      (segment : Bytes)
      → generate_parity_segmented R segment ≡ (
          R.encoder_new 1 3 (padded_size (length segment)) >>= λ e.
          R.add_original e (resize segment (padded_size (length segment))) >>= R.encode)
  unfolding generate_parity_segmented
  generate_parity_segmented_lem segment =
      let n = padded_size (length segment) in
      ap (λ (f : R.Encoder → Result (List Bytes)). R.encoder_new 1 3 n >>= f)
        (fun_ext
          λ e. ap (λ (m : Result R.Encoder). m >>= R.encode) (add_padded segment n e (omega arith)))

  -- For data that is not empty `generate_parity_segmented` returns three shards, of the size of
  -- the data rounded up to a multiple of 64, which are the code word of the padded data.
  pub generate_parity_segmented_total :
      IsReplicating R
      → (segment : Bytes) → 0 < length segment
      → (e e' : R.Encoder) × (p q r : Bytes) × (generate_parity_segmented R segment
          ≡ ok (p ∷ q ∷ r ∷ []))
        × (R.encoder_new 1 3 (padded_size (length segment)) ≡ ok e)
        × (R.add_original e (resize segment (padded_size (length segment))) ≡ ok e')
        × (R.encode e' ≡ ok (p ∷ q ∷ r ∷ []))
        × (length p ≡ padded_size (length segment))
        × (length q ≡ padded_size (length segment))
        × (length r ≡ padded_size (length segment))
  generate_parity_segmented_total L segment h =
      let n = padded_size (length segment) in
      let shard = resize segment n in
      let size : length shard ≡ n = length-resize segment n in
      let (e, e', p, q, r, made, added, encoded, lp, lq, lr) =
        L.encodes shard (omega arith) (omega arith) in
      let made' : R.encoder_new 1 3 n ≡ ok e = ap (R.encoder_new 1 3) (sym size) ∙ made in
      (
        e,
        e',
        p,
        q,
        r,
        generate_parity_segmented_lem segment ∙ rw (made', added, encoded) refl,
        made',
        added,
        encoded,
        lp ∙ size,
        lq ∙ size,
        lr ∙ size,
      )
