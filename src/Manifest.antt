-- ===== src/Manifest.antt =====
-- src/merkle_tree/manifest.rs. A `HashMap` is the list of its entries in iteration order.
pub mod Checks
use mathlib.Core.Option
use blockframe_rs.Base.{
  ℕ, zero, suc, ◌+◌, Bool, true, false, not, ◌&&◌, ◌||◌, Option, none, some, List, [], ◌∷◌, map,
  Text, Bytes, text_eq, length, all, ℤ, pos, negsuc, int_le, to_u64, to_i32, HashMap, keys, values,
  lookup, i32_key, ◌==◌, if◌then◌else◌,
}
use blockframe_rs.Utils.{Hasher, blake3_hash_bytes, is_ascii_hexdigit}
use blockframe_rs.Merkle.{MerkleTree, new, get_root}

pub record SegmentHashes : Type 0 where
  pub segment_data : Text
  pub parity : List Text

pub record BlockHashes : Type 0 where
  pub segments : List Text
  pub parity : List Text

pub record ErasureCoding : Type 0 where
  pub data_shards : ℤ
  pub parity_shards : ℤ
  pub type : Text

pub record MerkleTreeStructure : Type 0 where
  pub leaves : HashMap ℤ Text
  pub segments : HashMap ℕ SegmentHashes
  pub blocks : HashMap ℕ BlockHashes
  pub root : Text

pub record ManifestFile : Type 0 where
  pub erasure_coding : ErasureCoding
  pub merkle_tree : MerkleTreeStructure
  pub name : Text
  pub original_hash : Text
  pub size : ℤ
  pub time_of_creation : Text
  pub tier : ℕ
  pub segment_size : ℕ

unfoldable pub is_valid_hash : Text → Bool
unfolding is_ascii_hexdigit
is_valid_hash hash = length hash == 64 && all is_ascii_hexdigit hash

abbrev pub is_empty {ℓ} : {A : Type ℓ} → List A → Bool
is_empty [] = true
is_empty (x ∷ xs) = false

-- `indices.sort()`
unfoldable pub insert_sorted : ℤ → List ℤ → List ℤ
insert_sorted x [] = x ∷ []
insert_sorted x (y ∷ ys) = if int_le x y then x ∷ y ∷ ys else y ∷ insert_sorted x ys

unfoldable pub sort : List ℤ → List ℤ
unfolding insert_sorted
sort [] = []
sort (x ∷ xs) = insert_sorted x (sort xs)

-- `for (expected, actual) in indices.iter().enumerate()`, from the index `expected` on.
unfoldable pub is_counting_from : ℕ → List ℤ → Bool
is_counting_from expected [] = true
is_counting_from expected (actual ∷ indices) =
    expected == to_u64 actual && is_counting_from (expected + 1) indices

unfoldable pub validate : ManifestFile → Bool
validate m =
    if not (is_valid_hash m.merkle_tree.root)
    then false
    else if is_empty m.merkle_tree.leaves
        && is_empty m.merkle_tree.segments
        && is_empty m.merkle_tree.blocks
    then false
    else if not (all is_valid_hash (values m.merkle_tree.leaves))
    then false
    else is_counting_from 0 (sort (keys m.merkle_tree.leaves))

module _ (H : Hasher) where
  -- The loop of `verify_against_chunks` from the index `i` on.
  unfoldable pub leaves_match : HashMap ℤ Text → ℕ → List Bytes → Bool
  leaves_match leaves i [] = true
  leaves_match leaves i (chunk ∷ chunks) =
      let rest = leaves_match leaves (i + 1) chunks in
      elim (lookup (to_i32 i) leaves) [
        | none ↦ false
        | some expected_hash ↦
            if not (text_eq (blake3_hash_bytes H chunk) expected_hash) then false else rest
      ]

  -- `none`: `MerkleTree::new` does not return.
  unfoldable pub verify_against_chunks : ManifestFile → List Bytes → Option Bool
  verify_against_chunks m chunks =
      if not (length chunks == length m.merkle_tree.leaves)
      then some false
      else if not (leaves_match m.merkle_tree.leaves 0 chunks)
      then some false
      else Option.map (λ tree. text_eq (get_root tree) m.merkle_tree.root) (new H chunks)
