-- ===== src/Tests/Trees.antt =====
-- Runs of the theorems on src/merkle_tree/mod.rs and src/merkle_tree/manifest.rs.
use blockframe_rs.Base.{
  text_eq, ℕ, ◌<◌, ◌≡◌, ◌≢◌, refl, ◌↔◌, ◌⊎◌, some, List, [], ◌∷◌, true, Text, Bytes, text,
  replicate, length, get_elem?, pos, lookup, i32_key, arith,
}
use blockframe_rs.Utils.{blake3_hash_bytes, is_ascii_hexdigit}
use blockframe_rs.Merkle.{MerkleTree, new, combine, climb, get_proof, get_root, verify_proof}
use blockframe_rs.Merkle.Verify.{verify_proof-get_proof, single_chunk_verifies_iff}
use blockframe_rs.Merkle.Trees.{new_total}
use blockframe_rs.Merkle.Binding.{Clash, hashed, verify_proof_binding}
use blockframe_rs.Manifest.{
  ManifestFile, is_valid_hash, sort, insert_sorted, is_counting_from, validate,
  verify_against_chunks,
}
use blockframe_rs.Manifest.Checks.{validate_sound, verify_against_chunks_iff, Agree}
use blockframe_rs.Tests.Crates.{plain, checksum, checksum-IsHexDigest}

abbrev three_chunks : List Bytes
three_chunks = text "ab" ∷ text "cd" ∷ text "e" ∷ []

verify_proof-get_proof_example :
    (tree : MerkleTree) × (proof : List Text) × (chunk : Bytes) × (new plain three_chunks
      ≡ some tree)
    × (get_elem? three_chunks 2 ≡ some chunk)
    × (get_proof plain tree 2 ≡ some proof)
    × (verify_proof plain chunk 2 proof (get_root tree) ≡ true)
verify_proof-get_proof_example =
    verify_proof-get_proof plain three_chunks 2 (omega arith) (omega arith)

single_chunk_verifies_iff_example :
    (tree : MerkleTree) × (new plain (text "ab" ∷ []) ≡ some tree)
    × (get_proof plain tree 0 ≡ some [])
    × ((verify_proof plain (text "ab") 0 [] (get_root tree) ≡ true) ↔ (
        blake3_hash_bytes plain (text "ab")
        ≡ combine plain
            (blake3_hash_bytes plain (text "ab"))
            (blake3_hash_bytes plain (text "ab"))))
single_chunk_verifies_iff_example = single_chunk_verifies_iff plain (text "ab")

abbrev one : Bytes
one = 1 ∷ []

abbrev seven : Bytes
seven = 7 ∷ []

-- A checksum takes these two chunks for the same.
abbrev one_proof : List Text
one_proof = blake3_hash_bytes checksum (text "x") ∷ []

abbrev one_root : Text
one_root = climb checksum (blake3_hash_bytes checksum one) 0 one_proof

accepted : verify_proof checksum one 0 one_proof one_root ≡ true
unfolding verify_proof climb combine text_eq blake3_hash_bytes
accepted = refl

accepted_too : verify_proof checksum seven 0 one_proof one_root ≡ true
unfolding verify_proof climb combine text_eq blake3_hash_bytes
accepted_too = refl

verify_proof_binding_example :
    ((one ≡ seven) × (one_proof ≡ one_proof))
    ⊎ Clash checksum (hashed checksum one 0 one_proof) (hashed checksum seven 0 one_proof)
verify_proof_binding_example =
    verify_proof_binding checksum checksum-IsHexDigest one seven 0 one_proof one_proof one_root refl
      accepted accepted_too

abbrev hash_a : Text
hash_a = replicate 64 b'a'

abbrev hash_b : Text
hash_b = replicate 64 b'b'

abbrev two_leaves : ManifestFile
two_leaves = record {
  erasure_coding = record {
    data_shards = pos 6;
    parity_shards = pos 3;
    type = text "reed-solomon";
  };
  merkle_tree = record {
    leaves = (pos 1, hash_b) ∷ (pos 0, hash_a) ∷ [];
    segments = [];
    blocks = [];
    root = hash_a;
  };
  name = text "a.txt";
  original_hash = hash_a;
  size = pos 3;
  time_of_creation = text "2025-01-01";
  tier = 1;
  segment_size = 64;
}

is_accepted : validate two_leaves ≡ true
unfolding validate is_valid_hash is_ascii_hexdigit sort insert_sorted is_counting_from
is_accepted = refl

validate_sound_example :
    (is_valid_hash hash_a ≡ true)
    × ((two_leaves.merkle_tree.leaves ≢ [])
        ⊎ (two_leaves.merkle_tree.segments ≢ [])
        ⊎ (two_leaves.merkle_tree.blocks ≢ []))
    × ((i : ℕ)
        → i < 2
        → (hash : Text) × (lookup (pos i) two_leaves.merkle_tree.leaves ≡ some hash)
          × (is_valid_hash hash ≡ true))
validate_sound_example =
    validate_sound two_leaves (omega arith, (omega arith, tt)) (omega arith) is_accepted

abbrev two_letters : List Bytes
two_letters = text "a" ∷ text "b" ∷ []

verify_against_chunks_iff_example :
    (verify_against_chunks plain two_leaves two_letters ≡ some true) ↔ (
      (length two_letters ≡ length two_leaves.merkle_tree.leaves)
      × Agree plain two_leaves.merkle_tree.leaves 0 two_letters
      × ((tree : MerkleTree) × (new plain two_letters ≡ some tree) × (get_root tree ≡ hash_a)))
verify_against_chunks_iff_example = verify_against_chunks_iff plain two_leaves two_letters

-- What `new` gives for three chunks.
abbrev made : (tree : MerkleTree) × (new plain three_chunks ≡ some tree)
made = new_total plain three_chunks (omega arith)
