-- ===== src/Chunker/Commit/Tiny.antt =====
-- `commit_tiny` of src/chunker/commit.rs, as `commit` of the same file calls it.
use blockframe_rs.Base.{
  ℕ, zero, suc, ◌+◌, ◌*◌, ◌≤◌, ◌<◌, ◌≡◌, ◌≢◌, refl, ◌∙◌, subst, inl, some, List, [], ◌∷◌, map, Text,
  Bytes, text, ok, ok_or, message, length, get_elem?, get_elem?-map, piece, piece-eq, take-of_le,
  lookup, i32_key, pos, arith,
}
use blockframe_rs.Base.Exec.Ends.{Ends, returns, Ends-bind, Ends-step}
use blockframe_rs.Utils.{Hasher, blake3_hash_bytes}
use blockframe_rs.ReedSolomon.{ReedSolomon, IsReplicating}
use blockframe_rs.Merkle.{MerkleTree, leaf, from_hashes}
use blockframe_rs.Merkle.Trees.{from_hashes_total}
use blockframe_rs.Manifest.{ManifestFile}
use blockframe_rs.Disk.{PathBuf, join, file_name_of, FileSystem}
use blockframe_rs.Disk.Laws.{IsFileSystem, Keeps, Holds, Holds-Keeps}
use blockframe_rs.Disk.Names.{data_file, parity_file, manifest_file}
use blockframe_rs.Disk.Names.Apart.{
  join_injective, parity_file_injective, data_file-ne-parity_file, data_file-ne-manifest_file,
  parity_file-ne-manifest_file,
}
use blockframe_rs.Chunker.{Chunker, ChunkedFile}
use blockframe_rs.Chunker.Generate.{padded_size, generate_parity_segmented}
use blockframe_rs.Chunker.Generate.Laws.{generate_parity_segmented_total}
use blockframe_rs.Chunker.Io.{
  Serde, get_dir, create_dir, check_for_archive_dir, write_chunks, write_parity_chunks,
  write_manifest, write_manifest_struct, get_json, leaves_object,
}
use blockframe_rs.Chunker.Io.Laws.{
  create_dir-Keeps, check_for_archive_dir-Keeps, lookup-leaves_object, Written,
  write_chunks-Written,
}
use blockframe_rs.Chunker.Commit.{commit_tiny, tree_or}
use blockframe_rs.Mount.Hashes.{expected_hash}
use blockframe_rs.Mount.Windows.Reads.{Describes}

pub whole_piece : (file : Bytes) (n : ℕ) → length file ≤ n → piece file n 0 ≡ file
whole_piece file n h =
    let start : 0 * n ≡ 0 = omega arith in piece-eq file n 0 ∙ rw start (take-of_le n file h)

pub only_segment : (k n len : ℕ) → len ≤ n → k * n < len → k ≡ 0
only_segment zero n len fits inside = refl
only_segment (suc k) n len fits inside = absurd (omega arith)

-- What a commit of a file says of it.
pub record IsCommitted (H : Hasher) (name : Text) (file : Bytes) (c : ChunkedFile) : Type 0 where
  pub name_is : c.file_name ≡ name
  pub size_is : c.file_size ≡ length file
  pub hash_is : c.file_hash ≡ blake3_hash_bytes H file
  pub dir_is : c.file_dir ≡ get_dir name (blake3_hash_bytes H file)

module _ (H : Hasher) (R : ReedSolomon) (F : FileSystem) (J : Serde) where
  -- A directory that holds a file with its three parity shards, and a manifest that describes it.
  pub record IsTinyArchive (dir : PathBuf) (name : Text) (file : Bytes) (w : F.World) : Type 0 where
    pub manifest : ManifestFile
    pub parity : List Bytes
    pub named : manifest.name ≡ name
    pub is_tiny : manifest.tier ≡ 1
    pub hashed : manifest.original_hash ≡ blake3_hash_bytes H file
    pub describes : Describes H manifest file
    pub whole : length file ≤ manifest.segment_size
    pub padded : manifest.segment_size ≡ padded_size (length file)
    pub generated : generate_parity_segmented R file ≡ ok parity
    pub three : length parity ≡ 3
    pub data_there : Holds F w (join dir data_file) file
    pub manifest_there : Holds F w (join dir manifest_file) (J.to_string manifest)
    pub parity_there :
        (k : ℕ) (shard : Bytes)
        → get_elem? parity k ≡ some shard
        → Holds F w (join dir (parity_file k)) shard
    pub parity_hashes :
        (k : ℕ) (shard : Bytes)
        → get_elem? parity k ≡ some shard
        → lookup (pos (k + 1)) manifest.merkle_tree.leaves ≡ some (blake3_hash_bytes H shard)

  -- A manifest of tier 1 whose first leaf is the file's hash describes the file.
  tiny-Describes :
      (file : Bytes) (m : ManifestFile)
      → 0 < length file
      → m.tier ≡ 1
      → m.size ≡ pos (length file)
      → m.segment_size ≡ padded_size (length file)
      → lookup (pos 0) m.merkle_tree.leaves ≡ some (blake3_hash_bytes H file)
      → Describes H m file
  unfolding expected_hash
  tiny-Describes file m full tier size cut first = record {
    tier = inl tier;
    size = size;
    cut = omega arith;
    hashes = λ k inside.
        (let one = only_segment k m.segment_size (length file) (omega arith) inside in
          rw (tier, one, whole_piece file m.segment_size (omega arith)) first);
  }

  json-leaf :
      (hashes : List Text) (tree : MerkleTree)
      → tree.leaves ≡ map leaf hashes
      → (k : ℕ) (hash : Text) → get_elem? hashes k ≡ some hash
      → lookup (pos k) (get_json tree).leaves ≡ some hash
  json-leaf hashes tree leaves k hash e =
      let at : 0 + k ≡ k = omega arith in
      rw leaves (
        subst (λ n. lookup (pos n) (leaves_object 0 (map leaf hashes)) ≡ some hash) at
          (lookup-leaves_object 0 k hashes hash e))

  -- The files that the writes leave are an archive.
  tiny_archive :
      (dir : PathBuf) (name : Text) (file p q r : Bytes) (w v v' : F.World) (m : ManifestFile)
      → 0 < length file
      → generate_parity_segmented R file ≡ ok (p ∷ q ∷ r ∷ [])
      → ((k : ℕ) (hash : Text)
          → get_elem? (blake3_hash_bytes H file ∷ map (blake3_hash_bytes H) (p ∷ q ∷ r ∷ [])) k
            ≡ some hash
          → lookup (pos k) m.merkle_tree.leaves ≡ some hash)
      → m.name ≡ name
      → m.tier ≡ 1
      → m.original_hash ≡ blake3_hash_bytes H file
      → m.size ≡ pos (length file)
      → m.segment_size ≡ padded_size (length file)
      → Holds F w (join dir data_file) file
      → Written F dir parity_file w 0 (p ∷ q ∷ r ∷ []) v
      → Holds F v' (join dir manifest_file) (J.to_string m)
      → ((other : PathBuf) → other ≢ join dir manifest_file → Keeps F v v' other)
      → IsTinyArchive dir name file v'
  tiny_archive dir name file p q r w v v' m full made leaf_at named tier hash size cut data_there
        written manifest_there rest =
      record {
        manifest = m;
        parity = p ∷ q ∷ r ∷ [];
        named = named;
        is_tiny = tier;
        hashed = hash;
        describes =
            tiny-Describes file m full tier size cut (leaf_at 0 (blake3_hash_bytes H file) refl);
        whole = omega arith;
        padded = cut;
        generated = made;
        three = refl;
        data_there =
            Holds-Keeps
              (Holds-Keeps data_there (
                written.keeps (join dir data_file)
                  (λ k _ same. data_file-ne-parity_file k (join_injective dir _ _ same))))
              (rest (join dir data_file)
                (λ same. data_file-ne-manifest_file (join_injective dir _ _ same)));
        manifest_there = manifest_there;
        parity_there = λ k shard at.
            Holds-Keeps
              (subst (λ n. Holds F v (join dir (parity_file n)) shard) (omega arith)
                (written.holds k shard at))
              (rest (join dir (parity_file k))
                (λ same. parity_file-ne-manifest_file k (join_injective dir _ _ same)));
        parity_hashes = λ k shard at.
            (let next : suc k ≡ k + 1 = omega arith in
              subst (λ n. lookup (pos n) m.merkle_tree.leaves ≡ some (blake3_hash_bytes H shard))
                next
                (leaf_at (suc k) (blake3_hash_bytes H shard)
                  (get_elem?-map (blake3_hash_bytes H) (p ∷ q ∷ r ∷ []) k shard at)));
      }

  module _ {E : Type 0} (D : IsFileSystem F E) (L : IsReplicating R) (self : Chunker) where
    pub commit_tiny-IsTinyArchive :
        (path : PathBuf) (name : Text) (file : Bytes) (w : F.World)
        → F.read w path ≡ ok file
        → file_name_of path ≡ some name
        → 0 < length file
        → Ends E
            (λ c w'. IsCommitted H name file c × IsTinyArchive c.file_dir name file w')
            (commit_tiny H R F J self path (length file) 1 w)
    unfolding commit_tiny write_parity_chunks write_manifest write_manifest_struct
    commit_tiny-IsTinyArchive path name file w readable named full =
        let (e, e', p, q, r, made, _, _, _, _, _, _) =
          generate_parity_segmented_total R L file full in
        let parity = p ∷ q ∷ r ∷ [] in
        let hash = blake3_hash_bytes H file in
        let dir = get_dir name hash in
        let (tree, built, leaves) =
          from_hashes_total H (hash ∷ map (blake3_hash_bytes H) parity) (omega arith) in
        Ends-step (F.read w path) w file _ readable (
          Ends-step (generate_parity_segmented R file) w parity _ made (
            Ends-step (ok_or (file_name_of path) (message (text "error getting filename"))) w name _
              (rw named refl)
              (Ends-bind (check_for_archive_dir F w) _ (check_for_archive_dir-Keeps D w) (λ _ w₁ _.
                Ends-bind (create_dir F dir w₁) _ (create_dir-Keeps D dir w₁) (λ _ w₂ _.
                  Ends-bind (F.write (join dir data_file) file w₂) _
                    (D.writes (join dir data_file) file w₂)
                    (λ _ w₃ (data_there, _).
                      Ends-bind (write_chunks F dir parity_file 0 parity w₃) _
                        (write_chunks-Written D dir parity_file parity_file_injective 0 parity w₃)
                        (λ _ w₄ written.
                          Ends-step
                            (tree_or (from_hashes H (hash ∷ map (blake3_hash_bytes H) parity))) w₄
                            tree _ (rw built refl)
                            (Ends-bind (F.write (join dir manifest_file) _ w₄) _
                              (D.writes (join dir manifest_file) _ w₄)
                              (λ _ w₅ (manifest_there, rest). returns _ refl (
                                record {
                                  name_is = refl;
                                  size_is = refl;
                                  hash_is = refl;
                                  dir_is = refl;
                                },
                                tiny_archive dir name file p q r w₃ w₄ w₅ _ full made
                                    (json-leaf (hash ∷ map (blake3_hash_bytes H) parity) tree
                                      leaves)
                                    refl refl refl refl refl data_there written manifest_there rest,
                              ))))))))))
