-- ===== src/Chunker/Generate.antt =====
-- src/chunker/generate.rs
pub mod Laws
pub mod Encoded
use blockframe_rs.Base.{
  ℕ, zero, suc, ◌+◌, ◌-◌, ◌*◌, ◌/◌, Option, none, some, List, [], ◌∷◌, ◌++◌, map, Bytes, slice,
  div_ceil, resize, text, Result, ok, err, message, ◌>>=◌, length, take, drop, replicate, min, max,
  ltb, if◌then◌else◌,
}
use blockframe_rs.ReedSolomon.{ReedSolomon}

-- The loop of `get_chunks`, from the chunk `i` on, for `rounds` chunks.
chunks_from : ℕ → ℕ → ℕ → Bytes → List Bytes
chunks_from zero i chunk_size file_data = []
chunks_from (suc rounds) i chunk_size file_data =
    let start = i * chunk_size in
    let end = min ((i + 1) * chunk_size) (length file_data) in
    (if ltb start (length file_data) then slice file_data start end else [])
    ∷ chunks_from rounds (i + 1) chunk_size file_data

unfoldable pub get_chunks : Bytes → List Bytes
unfolding chunks_from
get_chunks file_data = chunks_from 6 0 (div_ceil (length file_data) 6) file_data

abbrev pub padded_size : ℕ → ℕ
padded_size len = div_ceil len 64 * 64

-- `segments.iter().map(|chunk| chunk.len()).max()`
unfoldable pub max_len : List Bytes → Option ℕ
max_len [] = none
max_len (s ∷ segments) = elim (max_len segments) [
  | none ↦ some (length s)
  | some m ↦ some (max (length s) m)
]

module _ (R : ReedSolomon) where
  unfoldable pub generate_parity_segmented : Bytes → Result (List Bytes)
  generate_parity_segmented segment_data = do
    encoder ← R.encoder_new 1 3 (padded_size (length segment_data))
    full ←
        if ltb (length segment_data) (padded_size (length segment_data))
        then R.add_original encoder (resize segment_data (padded_size (length segment_data)))
        else R.add_original encoder segment_data
    R.encode full

  -- `for shard in padded_chunks.iter()`
  add_all : R.Encoder → List Bytes → Result R.Encoder
  add_all encoder [] = ok encoder
  add_all encoder (shard ∷ shards) = R.add_original encoder shard >>= λ e. add_all e shards

  unfoldable pub generate_parity : List Bytes → ℕ → ℕ → Result (List Bytes)
  unfolding add_all max_len
  generate_parity segments data_shards parity_shards = elim (max_len segments) [
    | none ↦ err (message (text "No chunks provided"))
    | some max_chunk_size ↦ do
      encoder ← R.encoder_new data_shards parity_shards max_chunk_size
      full ← add_all encoder (map (λ chunk. resize chunk max_chunk_size) segments)
      R.encode full
  ]
