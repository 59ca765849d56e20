-- ===== src/Merkle/Trees.antt =====
-- The two ways to make a tree: `MerkleTree::new` and `MerkleTree::from_hashes`.
use blockframe_rs.Base.{
  ℕ, zero, suc, ◌+◌, ◌≤◌, ◌<◌, ◌≡◌, refl, ap, ◌∙◌, sym, some, List, [], ◌∷◌, map, length,
  length-map, arith, Bytes, Text,
}
use blockframe_rs.Utils.{Hasher, blake3_hash_bytes}
use blockframe_rs.Merkle.{
  Node, leaf, hash_val, pad, build_level, build_tree, hash_leaves, tree_over, new, from_hashes,
  MerkleTree, get_root,
}
use blockframe_rs.Merkle.Levels.{
  length-pad, build_level-pad, build_tree_total, build_tree_mono, build_tree_unique,
}

module _ (H : Hasher) where
  pub build_tree-pad :
      (fuel : ℕ) (nodes : List Node)
      → 1 < length nodes
      → build_tree H fuel (pad nodes) ≡ build_tree H fuel nodes
  build_tree-pad zero nodes h = unfold build_tree in refl
  build_tree-pad (suc fuel) nodes h =
      build_tree-step fuel (pad nodes) (omega (arith, length-pad nodes))
      ∙ ap (build_tree H fuel) (build_level-pad H nodes)
      ∙ sym (build_tree-step fuel nodes h)
    where
      build_tree-step :
          (fuel : ℕ) (nodes : List Node)
          → 1 < length nodes
          → build_tree H (suc fuel) nodes ≡ build_tree H fuel (build_level H nodes)
      build_tree-step fuel [] h = absurd (omega arith)
      build_tree-step fuel (n ∷ []) h = absurd (omega arith)
      build_tree-step fuel (n ∷ m ∷ nodes) h = unfold build_tree in refl

  -- What a successful constructor says of the root.
  pub tree_over-root :
      (chunks : List Bytes) (leaves : List Node) (tree : MerkleTree)
      → tree_over H chunks leaves ≡ some tree
      → (tree.chunks ≡ chunks)
        × (tree.leaves ≡ leaves)
        × (build_tree H (length leaves) leaves ≡ some tree.root)
  tree_over-root chunks leaves tree e = ground arith

  -- `new` returns a tree for every list of chunks that is not empty.
  pub new_total :
      (chunks : List Bytes) → 0 < length chunks → (tree : MerkleTree) × (new H chunks ≡ some tree)
  unfolding new
  new_total chunks h =
      let nodes = pad (hash_leaves H chunks) in
      let (root, e) =
        build_tree_total H (length nodes) nodes
          (omega (
            arith,
            length-pad (hash_leaves H chunks),
            length-map (λ c. leaf (blake3_hash_bytes H c)) chunks,
          ))
          (omega arith) in
      (record { chunks = chunks; leaves = nodes; root = root }, ground (arith, e))

  -- The root of `new`, for two chunks or more, is the root over the leaves before padding.
  pub new-root :
      (chunks : List Bytes) (tree : MerkleTree) (fuel : ℕ)
      → 1 < length chunks
      → length chunks < fuel
      → new H chunks ≡ some tree
      → (tree.chunks ≡ chunks) × (build_tree H fuel (hash_leaves H chunks) ≡ some tree.root)
  unfolding new
  new-root chunks tree fuel h l e =
      let leaves = hash_leaves H chunks in
      let lengths : length leaves ≡ length chunks =
        length-map (λ c. leaf (blake3_hash_bytes H c)) chunks in
      let (same, _, built) = tree_over-root chunks (pad leaves) tree e in
      let fits : length (pad leaves) ≤ fuel = omega (arith, length-pad leaves) in
      (
        same,
        rw (← build_tree-pad fuel leaves (omega arith))
            (build_tree_mono H (length (pad leaves)) fuel (pad leaves) tree.root fits built),
      )

  map-leaf_hash :
      (chunks : List Bytes) → map leaf (map (blake3_hash_bytes H) chunks) ≡ hash_leaves H chunks
  map-leaf_hash [] = refl
  map-leaf_hash (c ∷ chunks) =
      ap (λ rest. leaf (blake3_hash_bytes H c) ∷ rest) (map-leaf_hash chunks)

  -- For two chunks or more: `from_hashes` over the hashes of the chunks returns a tree, and its root
  -- is the root that `new` finds over the chunks.
  pub from_hashes-new :
      (chunks : List Bytes) (tree : MerkleTree)
      → 1 < length chunks
      → new H chunks ≡ some tree
      → (other : MerkleTree) × (from_hashes H (map (blake3_hash_bytes H) chunks) ≡ some other)
        × (get_root other ≡ get_root tree)
  unfolding from_hashes
  from_hashes-new chunks tree h e =
      let leaves = hash_leaves H chunks in
      let lengths : length leaves ≡ length chunks =
        length-map (λ c. leaf (blake3_hash_bytes H c)) chunks in
      let (root, built) = build_tree_total H (length leaves) leaves (omega arith) (omega arith) in
      let (_, built') = new-root chunks tree (length chunks + 1) h (omega arith) e in
      let same : root ≡ tree.root =
        build_tree_unique H (length leaves) (length chunks + 1) leaves root tree.root (omega arith)
          built built' in
      (
        record { chunks = []; leaves = leaves; root = root },
        rw map-leaf_hash (ground (arith, built)),
        ap hash_val same,
      )

  -- `from_hashes` returns a tree, over one leaf for each hash, for every list that is not empty.
  pub from_hashes_total :
      (hashes : List Text)
      → 0 < length hashes
      → (tree : MerkleTree) × (from_hashes H hashes ≡ some tree) × (tree.leaves ≡ map leaf hashes)
  unfolding from_hashes
  from_hashes_total hashes h =
      let leaves = map leaf hashes in
      let lengths : length leaves ≡ length hashes = length-map leaf hashes in
      let (root, e) = build_tree_total H (length leaves) leaves (omega arith) (omega arith) in
      (record { chunks = []; leaves = leaves; root = root }, ground (arith, e), refl)
