-- ===== src/Merkle/Verify.antt =====
-- `get_proof` and `verify_proof` together: what a tree says of its own chunks.
use blockframe_rs.Base.{
  ℕ, ◌+◌, ◌<◌, ◌≡◌, refl, ◌↔◌, some, List, [], ◌∷◌, true, length, length-map, get_elem?,
  get_elem?-of_lt, get_elem?-map, arith, Text, Bytes, text_eq_iff, text_eq_refl,
}
use blockframe_rs.Utils.{Hasher, blake3_hash_bytes}
use blockframe_rs.Merkle.{
  leaf, hash_val, combine, parent, pad, build_level, hash_leaves, new, MerkleTree, get_root,
  get_proof, verify_proof,
}
use blockframe_rs.Merkle.Proofs.{PathTo-build_tree}
use blockframe_rs.Merkle.Trees.{new_total, new-root}

module _ (H : Hasher) where
  -- For two chunks or more, and every index of a chunk: `new` returns a tree, its `get_proof`
  -- returns a proof, and `verify_proof` accepts the chunk with that proof and the tree's root.
  pub verify_proof-get_proof :
      (chunks : List Bytes) (index : ℕ)
      → 1 < length chunks
      → index < length chunks
      → (tree : MerkleTree) × (proof : List Text) × (chunk : Bytes) × (new H chunks ≡ some tree)
        × (get_elem? chunks index ≡ some chunk)
        × (get_proof H tree index ≡ some proof)
        × (verify_proof H chunk index proof (get_root tree) ≡ true)
  unfolding get_proof verify_proof
  verify_proof-get_proof chunks index h l =
      let (tree, made) = new_total H chunks (omega arith) in
      let (chunk, at) = get_elem?-of_lt chunks index l in
      let fuel = length (hash_leaves H chunks) + 1 in
      let (same, built) =
        new-root H chunks tree fuel h
          (omega (arith, length-map (λ c. leaf (blake3_hash_bytes H c)) chunks)) made in
      let path =
        PathTo-build_tree H fuel index (hash_leaves H chunks) (leaf (blake3_hash_bytes H chunk))
          tree.root [] (get_elem?-map (λ c. leaf (blake3_hash_bytes H c)) chunks index chunk at)
          built in
      (
        tree,
        path.proof,
        chunk,
        made,
        at,
        rw same path.found,
        rw (path.leads) (text_eq_refl (hash_val tree.root)),
      )

  -- With a single chunk the proof is empty, while the root is the hash of the doubled leaf: the
  -- chunk is accepted only if its hash is the hash of its hash taken twice.
  pub single_chunk_verifies_iff :
      (chunk : Bytes)
      → (tree : MerkleTree) × (new H (chunk ∷ []) ≡ some tree)
        × (get_proof H tree 0 ≡ some [])
        × ((verify_proof H chunk 0 [] (get_root tree) ≡ true) ↔ (
            blake3_hash_bytes H chunk
            ≡ combine H (blake3_hash_bytes H chunk) (blake3_hash_bytes H chunk)))
  unfolding new get_proof verify_proof pad build_level
  single_chunk_verifies_iff chunk =
      let hashed = leaf (blake3_hash_bytes H chunk) in
      (
        record {
          chunks = chunk ∷ [];
          leaves = hashed ∷ hashed ∷ [];
          root = parent H hashed hashed;
        },
        refl,
        refl,
        text_eq_iff _ _,
      )
