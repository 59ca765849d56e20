-- ===== src/Merkle.antt =====
-- src/merkle_tree/node.rs and src/merkle_tree/mod.rs. `none` stands for a call that does not
-- return: the unbounded recursion of `build_tree` on no nodes, and an index out of range.
pub mod Levels
pub mod Trees
pub mod Proofs
pub mod Verify
pub mod Binding
use mathlib.Core.Option
use blockframe_rs.Base.{
  ℕ, zero, suc, ◌+◌, ◌/◌, ◌%◌, Bool, true, false, ◌||◌, Option, none, some, List, [], ◌∷◌, ◌++◌,
  map, Text, Bytes, text_eq, length, ltb, ◌==◌, if◌then◌else◌,
}
use blockframe_rs.Utils.{Hasher, blake3_hash_bytes}

mutual
  pub data Node : Type 0 where
    node : Text → Child → Child → Node

  -- `Option<Box<Node>>`
  pub data Child : Type 0 where
    absent : Child
    present : Node → Child

abbrev pub hash_val : Node → Text
hash_val (node hash left right) = hash

-- `Node::new`
abbrev pub leaf : Text → Node
leaf hash = node hash absent absent

-- `Node::with_children`
abbrev pub with_children : Text → Child → Child → Node
with_children hash left right = node hash left right

pub record MerkleTree : Type 0 where
  pub chunks : List Bytes
  pub leaves : List Node
  pub root : Node

-- `leaves.last().cloned()`, where there is one, is pushed once more if the length is odd.
abbrev last? : List Node → Option Node
last? [] = none
last? (n ∷ []) = some n
last? (n ∷ m ∷ nodes) = last? (m ∷ nodes)

unfoldable pub pad : List Node → List Node
pad nodes =
    if length nodes % 2 == 1
    then elim (last? nodes) [ none ↦ nodes | some last ↦ nodes ++ last ∷ [] ]
    else nodes

-- What one run of the loop over a level of `get_proof` leaves: the parents, the index, and the
-- siblings that it pushed.
pub record Scan : Type 0 where
  pub next_level : List Node
  pub index : ℕ
  pub pushed : List Text

module _ (H : Hasher) where
  unfoldable pub combine : Text → Text → Text
  combine left right = blake3_hash_bytes H (left ++ right)

  abbrev pub parent : Node → Node → Node
  parent left right =
      with_children (combine (hash_val left) (hash_val right)) (present left) (present right)

  -- The loop of `build_tree` over one level; a last node without a partner is its own partner.
  unfoldable pub build_level : List Node → List Node
  build_level [] = []
  build_level (left ∷ []) = parent left left ∷ []
  build_level (left ∷ right ∷ nodes) = parent left right ∷ build_level nodes

  -- The fuel bounds the depth of the recursion.
  unfoldable pub build_tree : ℕ → List Node → Option Node
  unfolding build_level
  build_tree zero nodes = none
  build_tree (suc fuel) [] = build_tree fuel (build_level [])
  build_tree (suc fuel) (n ∷ []) = some n
  build_tree (suc fuel) (n ∷ m ∷ nodes) = build_tree fuel (build_level (n ∷ m ∷ nodes))

  abbrev pub hash_leaves : List Bytes → List Node
  hash_leaves = map (λ chunk. leaf (blake3_hash_bytes H chunk))

  abbrev pub tree_over : List Bytes → List Node → Option MerkleTree
  tree_over chunks leaves =
      Option.map (λ root. record { chunks = chunks; leaves = leaves; root = root })
        (build_tree (length leaves) leaves)

  unfoldable pub new : List Bytes → Option MerkleTree
  unfolding build_tree pad
  new chunks = tree_over chunks (pad (hash_leaves chunks))

  unfoldable pub from_hashes : List Text → Option MerkleTree
  unfolding build_tree
  from_hashes hashes = tree_over [] (map leaf hashes)

  -- The inner loop of `get_proof` from position `i` of the level on. A node without a partner is
  -- the read `level[i + 1]` out of range.
  unfoldable pub scan : ℕ → ℕ → List Node → Option Scan
  scan i index [] = some (record { next_level = []; index = index; pushed = [] })
  scan i index (left ∷ []) = none
  scan i index (left ∷ right ∷ level) =
      let hit = (i == index) || (i + 1 == index) in
      let sibling = if i == index then hash_val right else hash_val left in
      Option.map
        (λ (rest : Scan). record {
          next_level = parent left right ∷ rest.next_level;
          index = rest.index;
          pushed = if hit then sibling ∷ rest.pushed else rest.pushed;
        })
        (scan (i + 2) (if hit then i / 2 else index) level)

  -- The outer loop of `get_proof`.
  unfoldable pub proof_loop : ℕ → ℕ → List Node → List Text → Option (List Text)
  proof_loop zero index level proof = none
  proof_loop (suc fuel) index level proof =
      let rest : Option (List Text) = elim (scan 0 index (pad level)) [
        | none ↦ none
        | some s ↦ proof_loop fuel s.index s.next_level (proof ++ s.pushed)
      ] in
      if ltb 1 (length level) then rest else some proof

  unfoldable pub get_proof : MerkleTree → ℕ → Option (List Text)
  unfolding proof_loop scan pad
  get_proof tree chunk_index =
      let leaves = hash_leaves tree.chunks in proof_loop (length leaves + 1) chunk_index leaves []

  -- The loop of `verify_proof`.
  unfoldable pub climb : Text → ℕ → List Text → Text
  climb current index [] = current
  climb current index (sibling ∷ proof) =
      climb (if index % 2 == 0 then combine current sibling else combine sibling current)
        (index / 2) proof

  unfoldable pub verify_proof : Bytes → ℕ → List Text → Text → Bool
  unfolding climb combine
  verify_proof chunk chunk_index proof root_hash =
      text_eq (climb (blake3_hash_bytes H chunk) chunk_index proof) root_hash

abbrev pub get_root : MerkleTree → Text
get_root tree = hash_val tree.root
