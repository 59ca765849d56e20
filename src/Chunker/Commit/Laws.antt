-- ===== src/Chunker/Commit/Laws.antt =====
-- `commit_segmented` of src/chunker/commit.rs.
use native.Mathlib.Nat.{mul-le-mul_right}
use blockframe_rs.Base.{
  ℕ, ◌+◌, ◌*◌, ◌≤◌, ◌<◌, ◌≡◌, refl, ap, ◌∙◌, inl, inr, some, [], ◌∷◌, Text, Bytes, text, ok, ok_or,
  message, length, piece, take, drop, take-of_le, lookup, usize_key, pos, arith, ◌↔◌, ltb,
  Bool-cases, div_ceil,
}
use blockframe_rs.Base.Exec.Ends.{Ends, returns, Ends-bind, Ends-step}
use blockframe_rs.Utils.{Hasher, IsIncremental, blake3_hash_bytes, determine_segment_size}
use blockframe_rs.Utils.Hashing.{determine_segment_size_bounds}
use blockframe_rs.ReedSolomon.{ReedSolomon, IsReplicating}
use blockframe_rs.Merkle.{from_hashes}
use blockframe_rs.Merkle.Trees.{from_hashes_total}
use blockframe_rs.Manifest.{ManifestFile, SegmentHashes}
use blockframe_rs.Disk.{PathBuf, join, file_name_of, FileSystem}
use blockframe_rs.Disk.Laws.{IsFileSystem, Keeps, Holds, Holds-Keeps}
use blockframe_rs.Disk.Names.{manifest_file}
use blockframe_rs.Disk.Names.Apart.{segments-ne-parity, deeper_ne}
use blockframe_rs.Chunker.{Chunker}
use blockframe_rs.Chunker.Io.{
  Serde, get_dir, create_dir, check_for_archive_dir, write_manifest_struct,
}
use blockframe_rs.Chunker.Io.Laws.{create_dir-Keeps, check_for_archive_dir-Keeps}
use blockframe_rs.Chunker.Commit.{commit_segmented, segment_loop, segments_of, tree_or, placeholder}
use blockframe_rs.Chunker.Commit.Tiny.{IsCommitted}
use blockframe_rs.Chunker.Commit.Segmented.{IsStored}
use blockframe_rs.Chunker.Commit.Segmented.Rounds.{segment_loop-Collects}
use blockframe_rs.Mount.Hashes.{expected_hash}
use blockframe_rs.Mount.Windows.Reads.{Describes}

-- The segments that `div_ceil` counts are those that start within the file.
pub div_ceil_iff : (j len z : ℕ) → 0 < z → (j < div_ceil len z) ↔ (j * z < len)
div_ceil_iff j len z cut = (
  λ l.
      let above : (j + 1) * z ≤ div_ceil len z * z = mul-le-mul_right z (omega arith) in
      omega (arith, above),
  λ l. elim (Bool-cases (ltb j (div_ceil len z))) [
    | inl below ↦ ground arith
    | inr beyond ↦
        let above : div_ceil len z * z ≤ j * z = mul-le-mul_right z (ground arith) in
        absurd (omega (arith, above))
  ],
)

covers : (len z : ℕ) → 0 < z → len ≤ div_ceil len z * z
covers len z cut = omega arith

pub segments_of-positive : (len z : ℕ) → 0 < z → segments_of len z ≡ ok (div_ceil len z)
segments_of-positive len z cut = ground arith

module _ (H : Hasher) (R : ReedSolomon) (F : FileSystem) (J : Serde) where
  -- A directory that holds the segments of a file with their parity shards, and a manifest that
  -- describes the file and has the hashes of all of them.
  pub record IsSegmentedArchive (dir : PathBuf) (name : Text) (file : Bytes) (w : F.World)
      : Type 0 where
    pub manifest : ManifestFile
    pub named : manifest.name ≡ name
    pub is_segmented : manifest.tier ≡ 2
    pub no_leaves : manifest.merkle_tree.leaves ≡ []
    pub hashed : manifest.original_hash ≡ blake3_hash_bytes H file
    pub describes : Describes H manifest file
    pub manifest_there : Holds F w (join dir manifest_file) (J.to_string manifest)
    pub stored :
        (k : ℕ)
        → k * manifest.segment_size < length file
        → (info : SegmentHashes) × (lookup k manifest.merkle_tree.segments ≡ some info)
          × IsStored H R F
              (join dir (text "segments"))
              (join dir (text "parity"))
              k
              (piece file manifest.segment_size k)
              info
              w

  -- The move of the directory moves what the loop wrote.
  IsStored-rename :
      (from to : PathBuf) (k : ℕ) (segment : Bytes) (info : SegmentHashes) (w w' w'' : F.World)
      → ((sub name : Text)
          → (F.read w' (join (join to sub) name) ≡ F.read w (join (join from sub) name))
            × (F.exists w' (join (join to sub) name) ≡ F.exists w (join (join from sub) name)))
      → ((sub name : Text) → Keeps F w' w'' (join (join to sub) name))
      → IsStored H R F (join from (text "segments")) (join from (text "parity")) k segment info w
      → IsStored H R F (join to (text "segments")) (join to (text "parity")) k segment info w''
  IsStored-rename from to k segment info w w' w'' moved kept s = record {
    parity = s.parity;
    generated = s.generated;
    data_hash = s.data_hash;
    parity_hashes = s.parity_hashes;
    data_there = there (text "segments") _ segment s.data_there;
    parity_there = λ i shard at. there (text "parity") _ shard (s.parity_there i shard at);
  }
    where
      there :
          (sub name : Text) (bytes : Bytes)
          → Holds F w (join (join from sub) name) bytes
          → Holds F w'' (join (join to sub) name) bytes
      there sub name bytes h =
          let (reads, exists) = moved sub name in
          Holds-Keeps (record { reads = reads ∙ h.reads; there = exists ∙ h.there }) (kept sub name)

  -- The manifest that the loop's findings make.
  segmented_archive :
      (dir : PathBuf) (name : Text) (file : Bytes) (m : ManifestFile) (w : F.World)
      → 0 < m.segment_size
      → m.name ≡ name
      → m.tier ≡ 2
      → m.merkle_tree.leaves ≡ []
      → m.original_hash ≡ blake3_hash_bytes H file
      → m.size ≡ pos (length file)
      → Holds F w (join dir manifest_file) (J.to_string m)
      → ((k : ℕ)
          → k * m.segment_size < length file
          → (info : SegmentHashes) × (lookup k m.merkle_tree.segments ≡ some info)
            × IsStored H R F
                (join dir (text "segments"))
                (join dir (text "parity"))
                k
                (piece file m.segment_size k)
                info
                w)
      → IsSegmentedArchive dir name file w
  unfolding expected_hash
  segmented_archive dir name file m w cut named tier bare hash size manifest_there stored = record {
    manifest = m;
    named = named;
    is_segmented = tier;
    no_leaves = bare;
    hashed = hash;
    describes = record {
      tier = inr (inl tier);
      size = size;
      cut = cut;
      hashes = λ k inside.
          (let (info, found, s) = stored k inside in
            let same = s.data_hash in ground (arith, found, same));
    };
    manifest_there = manifest_there;
    stored = stored;
  }

  pub whole_hash :
      (file : Bytes) (z : ℕ) (state : H.State)
      → 0 < z
      → state ≡ H.update H.init (take (div_ceil (length file) z * z) (drop (0 * z) file))
      → H.finalize state ≡ blake3_hash_bytes H file
  unfolding blake3_hash_bytes
  whole_hash file z state cut e =
      let start : 0 * z ≡ 0 = omega arith in
      let all_in : length file ≤ div_ceil (length file) z * z = covers (length file) z cut in
      ap H.finalize (
        e
        ∙ ap (λ k. H.update H.init (take (div_ceil (length file) z * z) (drop k file))) start
        ∙ ap (H.update H.init) (take-of_le (div_ceil (length file) z * z) file all_in))

  module _ {E : Type 0} (D : IsFileSystem F E) (I : IsIncremental H) (L : IsReplicating R)
      (self : Chunker) where
    pub commit_segmented-IsSegmentedArchive :
        (available_ram : ℕ) (path : PathBuf) (name : Text) (file : Bytes) (w : F.World)
        → F.read w path ≡ ok file
        → file_name_of path ≡ some name
        → 0 < length file
        → Ends E
            (λ c w'. IsCommitted H name file c × IsSegmentedArchive c.file_dir name file w')
            (commit_segmented H R F J self available_ram path 2 w)
    unfolding commit_segmented write_manifest_struct
    commit_segmented-IsSegmentedArchive available_ram path name file w readable named full =
        let z = determine_segment_size (length file) available_ram in
        let (cut, _) = determine_segment_size_bounds (length file) available_ram full in
        let n = div_ceil (length file) z in
        let from = get_dir name placeholder in
        let segments_dir = join from (text "segments") in
        let parity_dir = join from (text "parity") in
        Ends-step (F.read w path) w file _ readable (
          Ends-step (ok_or (file_name_of path) (message (text "error getting filename"))) w name _
            (rw named refl)
            (Ends-step (segments_of (length file) z) w n _
              (segments_of-positive (length file) z cut)
              (Ends-bind (create_dir F from w) _ (create_dir-Keeps D from w) (λ _ w₁ _.
                Ends-bind (create_dir F parity_dir w₁) _ (create_dir-Keeps D parity_dir w₁)
                  (λ _ w₂ _.
                    Ends-bind (create_dir F segments_dir w₂) _ (create_dir-Keeps D segments_dir w₂)
                      (λ _ w₃ _.
                        Ends-bind (check_for_archive_dir F w₃) _ (check_for_archive_dir-Keeps D w₃)
                          (λ _ w₄ _.
                            Ends-bind
                              (segment_loop H R F segments_dir parity_dir file z H.init 0 n w₄) _
                              (segment_loop-Collects H I R F segments_dir parity_dir
                                (segments-ne-parity from) D L file z cut n 0 H.init w₄
                                (λ j _ l. (div_ceil_iff j (length file) z cut).0 (omega arith)))
                              (λ c w₅ loop.
                                let hash = whole_hash file z c.0 cut loop.hashed in
                                let to = get_dir name (H.finalize c.0) in
                                let (tree, built, _) = from_hashes_total H c.2 (
                                  let some_left : 0 < n =
                                    (div_ceil_iff 0 (length file) z cut).1 (omega arith) in
                                  omega (arith, loop.count, some_left)) in
                                Ends-bind (F.rename from to w₅) _ (D.renames from to w₅)
                                  (λ _ w₆ moved.
                                    Ends-step (tree_or (from_hashes H c.2)) w₆ tree _
                                      (rw built refl)
                                      (Ends-bind (F.write (join to manifest_file) _ w₆) _
                                        (D.writes (join to manifest_file) _ w₆)
                                        (λ _ w₇ (there, kept). returns _ refl (
                                          record {
                                            name_is = refl;
                                            size_is = refl;
                                            hash_is = hash;
                                            dir_is = ap (get_dir name) hash;
                                          },
                                          segmented_archive to name file _ w₇ cut refl refl refl
                                              hash refl there
                                              (λ k inside.
                                                let (info, found, stored) =
                                                  loop.stored k (omega arith) (
                                                    let below : k < n =
                                                      (div_ceil_iff k (length file) z cut).1
                                                        inside in
                                                    omega (arith, below)) in
                                                (
                                                  info,
                                                  found,
                                                  IsStored-rename from to k _ info w₅ w₆ w₇
                                                      (λ sub part. moved (sub ∷ part ∷ []))
                                                      (λ sub part.
                                                        kept _
                                                          (deeper_ne to sub part manifest_file))
                                                      stored,
                                                )),
                                        ))))))))))))
