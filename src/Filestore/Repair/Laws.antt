-- ===== src/Filestore/Repair/Laws.antt =====
-- What the repairs of src/filestore/health.rs do.
use mathlib.Core.Path.{fun_ext}
use blockframe_rs.Base.{
  ℕ, suc, ◌+◌, ◌<◌, ◌≡◌, refl, ap, ◌∙◌, sym, subst, false, some, List, [], ◌∷◌, Bytes, Result, ok,
  err, ◌>>=◌, length, get_elem?, resize, arith,
}
use blockframe_rs.Utils.{Hasher}
use blockframe_rs.ReedSolomon.{ReedSolomon, IsReplicating, add_recovery_shards, AreShardsOf}
use blockframe_rs.Chunker.Generate.{padded_size, generate_parity_segmented}
use blockframe_rs.Chunker.Generate.Laws.{generate_parity_segmented_total, length-resize}
use blockframe_rs.Filestore.Models.{PathBuf, join, parent_dir, FileSystem, File}
use blockframe_rs.Filestore.Health.{data_file, parity_file}
use blockframe_rs.Filestore.Repair.{
  add_available, decode_tiny, read_files, already_valid, rebuild_tiny, repair_tiny,
}

-- Documented behaviour of `fs::write`, where it succeeds: the file holds what was written.
pub record Writes (F : FileSystem) : Type 0 where
  pub written :
      (w : F.World) (path : PathBuf) (bytes : Bytes)
      → (F.write path bytes w).0 ≡ ok tt
      → F.read (F.write path bytes w).1 path ≡ ok bytes

module _ (R : ReedSolomon) where
  -- The shards that could be read, with their indices.
  abbrev pub available : ℕ → List (Result Bytes) → List (ℕ × Bytes)
  available i [] = []
  available i (err e ∷ reads) = available (i + 1) reads
  available i (ok bytes ∷ reads) = (i, bytes) ∷ available (i + 1) reads

  add_available-eq :
      (d : R.Decoder) (i : ℕ) (reads : List (Result Bytes))
      → add_available R d i reads ≡ add_recovery_shards R d (available i reads)
  unfolding add_available
  add_available-eq d i [] = refl
  add_available-eq d i (err e ∷ reads) = add_available-eq d (i + 1) reads
  add_available-eq d i (ok bytes ∷ reads) =
      ap (λ (f : R.Decoder → Result R.Decoder). R.add_recovery_shard d i bytes >>= f)
        (fun_ext λ d'. add_available-eq d' (i + 1) reads)

  -- Each file that can be read holds the shard at its index.
  abbrev pub Hold : ℕ → List Bytes → List (Result Bytes) → Type 0
  Hold i parity [] = Unit
  Hold i parity (r ∷ reads) =
      ((bytes : Bytes) → r ≡ ok bytes → get_elem? parity i ≡ some bytes) × Hold (i + 1) parity reads

  available-AreShardsOf :
      (low i : ℕ) (parity : List Bytes) (reads : List (Result Bytes))
      → low < suc i
      → Hold i parity reads
      → AreShardsOf R low parity (available i reads)
  available-AreShardsOf low i parity [] l h = tt
  available-AreShardsOf low i parity (err e ∷ reads) l (h, hs) =
      available-AreShardsOf low (i + 1) parity reads (omega arith) hs
  available-AreShardsOf low i parity (ok bytes ∷ reads) l (h, hs) =
      (l, h bytes refl, available-AreShardsOf (suc i) (i + 1) parity reads (omega arith) hs)

  -- Any shards of the code word, one at least, decode to the shard behind it.
  decode_tiny-eq :
      IsReplicating R
      → (shard : Bytes) (parity : List Bytes) (e e' : R.Encoder) (reads : List (Result Bytes))
        (i : ℕ) (first : Bytes) (more : List (ℕ × Bytes))
      → R.encoder_new 1 3 (length shard) ≡ ok e
      → R.add_original e shard ≡ ok e'
      → R.encode e' ≡ ok parity
      → Hold 0 parity reads
      → available 0 reads ≡ (i, first) ∷ more
      → decode_tiny R (length shard) reads ≡ ok shard
  unfolding decode_tiny
  decode_tiny-eq L shard parity e e' reads i first more made added encoded holds some_read =
      let shards =
        subst (AreShardsOf R 0 parity) some_read
          (available-AreShardsOf 0 0 parity reads (omega arith) holds) in
      let (d, d', restored, made', added', decoded, original) =
        L.restores shard parity e e' i first more made added encoded shards in
      let all_added : add_available R d 0 reads ≡ ok d' =
        add_available-eq d 0 reads ∙ ap (add_recovery_shards R d) some_read ∙ added' in
      rw (made', all_added, decoded, original) refl

module _ (H : Hasher) (R : ReedSolomon) (F : FileSystem) where
  repair_tiny_rebuilds :
      (file_obj : File) (dir : PathBuf) (w : F.World)
      → parent_dir file_obj.file_data.path ≡ some dir
      → already_valid H R F w (join dir data_file) file_obj.file_data.hash ≡ ok false
      → repair_tiny H R F file_obj w ≡ rebuild_tiny H R F dir file_obj.manifest.segment_size w
  unfolding repair_tiny
  repair_tiny_rebuilds file_obj dir w here invalid = rw (here, invalid) refl

  -- A file of tier 1 whose data is not valid, whose parity files, one at least, hold shards that
  -- `generate_parity_segmented` made of some data that is not empty, and whose manifest has the
  -- padded size: `repair_tiny` writes the data filled up with zeros to a multiple of 64 bytes, and
  -- where the write succeeds the repair does, and the file holds that.
  pub repair_tiny_restores :
      IsReplicating R
      → Writes F
      → (file_obj : File) (dir : PathBuf) (w : F.World) (original : Bytes) (parity : List Bytes)
        (i : ℕ) (first : Bytes) (more : List (ℕ × Bytes))
      → parent_dir file_obj.file_data.path ≡ some dir
      → already_valid H R F w (join dir data_file) file_obj.file_data.hash ≡ ok false
      → 0 < length original
      → file_obj.manifest.segment_size ≡ padded_size (length original)
      → generate_parity_segmented R original ≡ ok parity
      → Hold R 0 parity (read_files H R F w dir parity_file 0 3)
      → available R 0 (read_files H R F w dir parity_file 0 3) ≡ (i, first) ∷ more
      → let padded = resize original (padded_size (length original)) in
        (repair_tiny H R F file_obj w ≡ F.write (join dir data_file) padded w)
        × ((repair_tiny H R F file_obj w).0 ≡ ok tt
            → F.read (repair_tiny H R F file_obj w).1 (join dir data_file) ≡ ok padded)
  unfolding rebuild_tiny
  repair_tiny_restores L W file_obj dir w original parity i first more here invalid h size generated
        holds some_read =
      let n = padded_size (length original) in
      let padded = resize original n in
      let long : length padded ≡ n = length-resize original n in
      let (e, e', p, q, r, generated', made, added, encoded, _, _, _) =
        generate_parity_segmented_total R L original h in
      let same : parity ≡ p ∷ q ∷ r ∷ [] = cc in
      let reads = read_files H R F w dir parity_file 0 3 in
      let decoded =
        decode_tiny-eq R L padded parity e e' reads i first more
          (ap (R.encoder_new 1 3) long ∙ made) added (encoded ∙ ap ok (sym same)) holds some_read in
      let sized : decode_tiny R file_obj.manifest.segment_size reads ≡ ok padded =
        ap (λ k. decode_tiny R k reads) (size ∙ sym long) ∙ decoded in
      let writes : repair_tiny H R F file_obj w ≡ F.write (join dir data_file) padded w =
        repair_tiny_rebuilds file_obj dir w here invalid ∙ rw sized refl in
      (
        writes,
        λ done.
            ap (λ (run : Result (Unit {0}) × F.World). F.read run.1 (join dir data_file)) writes
            ∙ W.written w (join dir data_file) padded
                (ap (λ (run : Result (Unit {0}) × F.World). run.0) (sym writes) ∙ done),
      )
