-- ===== src/Filestore/Reconstruct/Laws.antt =====
-- What the reconstruction of src/filestore/mod.rs does with the archives that a commit writes.
use blockframe_rs.Base.{
  ℕ, ◌≤◌, ◌<◌, ◌≡◌, refl, ap, ◌∙◌, sym, subst, inl, inr, Bool, true, false, ◌&&◌, some, List, [],
  ◌∷◌, map, Text, Bytes, text, Result, ok, err, Error, All, ◌≢◌, ◌+◌, ◌*◌, length-append, piece,
  is_ok, message, ok_or, ◌>>=◌, length, concat, pos, int_le, arith, if◌then◌else◌, leb, Bool-cases,
}
use blockframe_rs.Base.Exec.{proceed-left-fails, proceed-step-fails}
use blockframe_rs.Base.Exec.Ends.{Ends, Ends-bind, Ends-step, Ends-weaken}
use blockframe_rs.Utils.{Hasher}
use blockframe_rs.ReedSolomon.{ReedSolomon}
use blockframe_rs.Disk.{PathBuf, join, parent_dir, FileSystem}
use blockframe_rs.Disk.Laws.{
  IsFileSystem, IsLocal, HasOnlyFiles, Holds, Holds-Keeps, parent_dir-join,
}
use blockframe_rs.Disk.Names.{data_file, manifest_file, segment_file}
use blockframe_rs.Chunker.Io.{Serde}
use blockframe_rs.Chunker.Commit.Tiny.{IsTinyArchive}
use blockframe_rs.Chunker.Commit.Laws.{IsSegmentedArchive}
use blockframe_rs.Filestore.Models.{File}
use blockframe_rs.Filestore.Reconstruct.{
  reconstructed, chunk_file, parts, segment_key, insert_by_key, sort_by_key, get_segments_paths,
  get_chunks_paths, append_chunks, tiny_reconstruct, segment_reconstruct, reconstruct,
}

-- The sorted names are the names.
insert_by_key-All :
    (P : Text → Type 0) (name : Text) (names : List Text)
    → P name
    → All P names
    → All P (insert_by_key name names)
unfolding insert_by_key
insert_by_key-All P name [] p all = (p, tt)
insert_by_key-All P name (other ∷ names) p (q, all) =
    elim (Bool-cases (leb (segment_key name) (segment_key other))) [
      | inl first ↦ rw first (p, (q, all))
      | inr later ↦ rw later (q, insert_by_key-All P name names p all)
    ]

sort_by_key-All : (P : Text → Type 0) (names : List Text) → All P names → All P (sort_by_key names)
unfolding sort_by_key
sort_by_key-All P [] all = tt
sort_by_key-All P (name ∷ names) (p, all) =
    insert_by_key-All P name (sort_by_key names) p (sort_by_key-All P names all)

-- A list that is not empty has a first name when it is sorted.
insert_by_key-cons :
    (name : Text) (names : List Text)
    → (n : Text) × (ns : List Text) × (insert_by_key name names ≡ n ∷ ns)
unfolding insert_by_key
insert_by_key-cons name [] = (name, [], refl)
insert_by_key-cons name (other ∷ names) =
    elim (Bool-cases (leb (segment_key name) (segment_key other))) [
      | inl first ↦ (name, other ∷ names, rw first refl)
      | inr later ↦ (other, insert_by_key name names, rw later refl)
    ]

sort_by_key-cons :
    (P : Text → Type 0) (name : Text) (names : List Text)
    → All P (name ∷ names)
    → (n : Text) × (ns : List Text) × (sort_by_key (name ∷ names) ≡ n ∷ ns) × P n
unfolding sort_by_key
sort_by_key-cons P name names all =
    let (n, ns, e) = insert_by_key-cons name (sort_by_key names) in
    (n, ns, e, (subst (All P) e (unfold sort_by_key in sort_by_key-All P (name ∷ names) all)).0)

module _ (F : FileSystem) where
  append_chunks-fails :
      (target chunk : PathBuf) (chunks : List PathBuf) (w : F.World) (e : Error)
      → F.read w chunk ≡ err e
      → is_ok (append_chunks F target (chunk ∷ chunks) w).0 ≡ false
  unfolding append_chunks
  append_chunks-fails target chunk chunks w e h = rw h refl

  -- A path of a chunk, which the archive does not have.
  abbrev chunk_path : PathBuf → Text → PathBuf
  chunk_path dir name =
      join (join (join (join dir (text "segments")) name) (text "chunks")) (chunk_file 0)

  length-chunk_path : (dir : PathBuf) (name : Text) → length (chunk_path dir name) ≡ length dir + 4
  length-chunk_path dir name =
      let a = length-append dir (text "segments" ∷ []) in
      let b = length-append (join dir (text "segments")) (name ∷ []) in
      let c = length-append (join (join dir (text "segments")) name) (text "chunks" ∷ []) in
      let d =
        length-append (join (join (join dir (text "segments")) name) (text "chunks"))
          (chunk_file 0 ∷ []) in
      omega (arith, a, b, c, d)

  chunk_path-ne :
      (dir : PathBuf) (name file_name : Text)
      → 0 < length dir
      → chunk_path dir name ≢ join reconstructed file_name
  chunk_path-ne dir name file_name some_dir e =
      let long = length-chunk_path dir name in omega (arith, long, ap length e)

  get_chunks_paths-cons :
      (obj : File) (dir : PathBuf) (v : F.World) (n name : Text) (ns names : List Text)
      → parent_dir obj.file_data.path ≡ some dir
      → F.read_dir v (join dir (text "segments")) ≡ ok (n ∷ ns)
      → sort_by_key (n ∷ ns) ≡ name ∷ names
      → (chunks : List PathBuf) × (get_chunks_paths F v obj ≡ ok (chunk_path dir name ∷ chunks))
  unfolding get_chunks_paths get_segments_paths
  get_chunks_paths-cons obj dir v n name ns names here listed sorted =
      let segments_dir = join dir (text "segments") in
      let folder : get_segments_paths F v obj
          ≡ ok (join segments_dir name ∷ map (join segments_dir) names) =
        rw (here, listed, sorted) refl in
      (
        _,
        ap
            (λ (r : Result (List PathBuf)). r >>= λ folder.
              ok (concat (map (λ segment. parts segment (text "chunks") chunk_file 0 6) folder)))
            folder,
      )

  -- The first chunk that is looked for stops the reconstruction.
  segment_reconstruct-fails :
      (L : IsLocal F) (obj : File) (dir : PathBuf) (w : F.World) (n name : Text)
      (ns names : List Text) (e : Error)
      → 0 < length dir
      → parent_dir obj.file_data.path ≡ some dir
      → F.read_dir w (join dir (text "segments")) ≡ ok (n ∷ ns)
      → sort_by_key (n ∷ ns) ≡ name ∷ names
      → F.read w (chunk_path dir name) ≡ err e
      → is_ok (segment_reconstruct F obj w).0 ≡ false
  unfolding segment_reconstruct
  segment_reconstruct-fails L obj dir w n name ns names e some_dir here listed sorted gone =
      let segments_dir = join dir (text "segments") in
      let target = join reconstructed obj.file_name in
      let chunk = chunk_path dir name in
      let v = (F.create_dir_all reconstructed w).1 in
      let deep = length-append dir (text "segments" ∷ []) in
      let long = length-chunk_path dir name in
      let listed' = L.create-read_dir reconstructed segments_dir w (omega (arith, deep)) ∙ listed in
      let gone' = L.create-read reconstructed chunk w (omega (arith, long)) ∙ gone in
      let (chunks, found) = get_chunks_paths-cons obj dir v n name ns names here listed' sorted in
      proceed-left-fails (F.create_dir_all reconstructed w) _ (λ _.
        proceed-step-fails (get_chunks_paths F v obj) (chunk ∷ chunks) v _ found (
          proceed-left-fails (F.append target [] v) _ (λ _.
            append_chunks-fails target chunk chunks (F.append target [] v).1 e (
              L.append-read target chunk [] v (chunk_path-ne dir name obj.file_name some_dir)
              ∙ gone'))))

  abbrev is_small : File → Bool
  is_small obj = int_le (pos 0) obj.manifest.size && int_le obj.manifest.size (pos 10_000_000)

  branch :
      (obj : File) (w : F.World) (b : Bool)
      → is_small obj ≡ b
      → reconstruct F obj w ≡ (if b then tiny_reconstruct F obj else segment_reconstruct F obj) w
  unfolding reconstruct
  branch obj w b e = ap (λ c. (if c then tiny_reconstruct F obj else segment_reconstruct F obj) w) e

  -- The names of segment files of a committed file.
  abbrev pub AreSegments : ℕ → ℕ → List Text → Type 0
  AreSegments size segment_size names =
      All (λ name. (k : ℕ) × (k * segment_size < size) × (name ≡ segment_file k)) names

  -- A file of more than 10,000,000 bytes in the archive of tier 2 that the commit leaves, in a
  -- directory whose path is not empty, on a disk whose creations and appends change nothing elsewhere:
  -- where the directory of its segments can be listed with at least one name, all of them names of
  -- the file's segments, and nothing can be read below a file in it, the reconstruction fails. It
  -- looks for chunks below the segment that it takes first.
  pub reconstruct_fails :
      (H : Hasher) (R : ReedSolomon) (Js : Serde)
      → IsLocal F
      → (obj : File) (dir : PathBuf) (name : Text) (file : Bytes) (w : F.World)
        (A : IsSegmentedArchive H R F Js dir name file w) (n : Text) (ns : List Text)
      → obj.file_data.path ≡ join dir manifest_file
      → obj.manifest.size ≡ pos (length file)
      → 10_000_000 < length file
      → 0 < length dir
      → HasOnlyFiles F w (join dir (text "segments"))
      → F.read_dir w (join dir (text "segments")) ≡ ok (n ∷ ns)
      → AreSegments (length file) A.manifest.segment_size (n ∷ ns)
      → is_ok (reconstruct F obj w).0 ≡ false
  reconstruct_fails H R Js L obj dir name file w A n ns at size large some_dir files listed
        segments =
      let above : is_small obj ≡ false = rw size (ground arith) in
      let here = ap parent_dir at ∙ parent_dir-join dir manifest_file in
      let (first, others, sorted, (k, inside, is_segment)) =
        sort_by_key-cons
          (λ name. (k : ℕ) × (k * A.manifest.segment_size < length file) × (name ≡ segment_file k))
          n ns segments in
      let (_, _, stored) = A.stored k inside in
      let held = stored.data_there in
      let reads =
        ap (λ name. F.read w (join (join dir (text "segments")) name)) is_segment ∙ held.reads in
      let (e, gone) =
        files first (text "chunks") (chunk_file 0) (piece file A.manifest.segment_size k) reads in
      ap (λ run. is_ok run.0) (branch obj w false above)
      ∙ segment_reconstruct-fails L obj dir w n first ns others e some_dir here listed sorted gone

  -- The reconstruction of a file of tier 1 that is archived and has at most 10,000,000 bytes: it
  -- returns, unless an operation of the disk fails, and the file that it wrote holds the bytes.
  pub reconstruct-Holds :
      (H : Hasher) (R : ReedSolomon) (Js : Serde) {E : Type 0} (D : IsFileSystem F E) (obj : File)
      (dir : PathBuf) (name : Text) (file : Bytes) (w : F.World)
      → IsTinyArchive H R F Js dir name file w
      → obj.file_data.path ≡ join dir manifest_file
      → obj.manifest.size ≡ pos (length file)
      → length file ≤ 10_000_000
      → Ends E (λ _ w'. Holds F w' (join reconstructed obj.file_name) file) (reconstruct F obj w)
  unfolding tiny_reconstruct
  reconstruct-Holds H R Js {E} D obj dir name file w A at size small =
      let below : is_small obj ≡ true = rw size (ground arith) in
      let here = ap parent_dir at ∙ parent_dir-join dir manifest_file in
      subst (Ends E (λ _ w'. Holds F w' (join reconstructed obj.file_name) file))
        (sym (branch obj w true below))
        (Ends-bind (F.create_dir_all reconstructed w) _ (D.creates reconstructed w) (λ _ v kept.
          let there = Holds-Keeps A.data_there (kept (join dir data_file)) in
          let reads = there.reads in
          let read_back : (ok_or (parent_dir obj.file_data.path)
                  (message (text "Could not get parent directory"))
                >>= λ d. F.read v (join d data_file))
              ≡ ok file =
            rw (here, reads) refl in
          Ends-step _ v file _ read_back (
            Ends-weaken (D.writes (join reconstructed obj.file_name) file v)
              (λ _ u (held, _). held))))
