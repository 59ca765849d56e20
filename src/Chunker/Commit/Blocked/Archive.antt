-- ===== src/Chunker/Commit/Blocked/Archive.antt =====
-- The archive that `commit_blocked` of src/chunker/commit.rs leaves.
use mathlib.Core.Option
use native.Mathlib.Nat.{mul-le-mul_right}
use blockframe_rs.Base.{
  ℕ, ◌+◌, ◌*◌, ◌/◌, ◌%◌, ◌≤◌, ◌<◌, ◌≡◌, ◌∙◌, inr, some, List, Text, Bytes, text, length, get_elem?,
  get_elem?-map, piece, lookup, usize_key, pos, arith, div_ceil, subst, sym,
}
use blockframe_rs.Utils.{Hasher, blake3_hash_bytes}
use blockframe_rs.ReedSolomon.{ReedSolomon}
use blockframe_rs.Manifest.{ManifestFile, BlockHashes}
use blockframe_rs.Disk.{PathBuf, join, FileSystem}
use blockframe_rs.Disk.Laws.{Keeps, Holds, Holds-Keeps}
use blockframe_rs.Disk.Names.{manifest_file, block_name}
use blockframe_rs.Chunker.Io.{Serde}
use blockframe_rs.Chunker.Commit.Laws.{div_ceil_iff}
use blockframe_rs.Chunker.Commit.Blocked.{block_segments, number_blocks}
use blockframe_rs.Chunker.Commit.Blocked.Parts.{get_elem?-block_segments}
use blockframe_rs.Chunker.Commit.Blocked.Stored.{IsStoredBlock, block_path, lookup-number_blocks}
use blockframe_rs.Mount.Hashes.{expected_hash}
use blockframe_rs.Mount.Windows.Reads.{Describes}

-- The blocks that `div_ceil` counts are those that start within the file.
pub blocks_iff :
    (b len z : ℕ)
    → 0 < z
    → (b < div_ceil (div_ceil len z) 30 → b * 30 * z < len)
      × (b * 30 * z < len → b < div_ceil (div_ceil len z) 30)
blocks_iff b len z cut = (
  λ l. (div_ceil_iff (b * 30) len z cut).0 ((div_ceil_iff b (div_ceil len z) 30 (omega arith)).0 l),
  λ l. (div_ceil_iff b (div_ceil len z) 30 (omega arith)).1 ((div_ceil_iff (b * 30) len z cut).1 l),
)

module _ (H : Hasher) (R : ReedSolomon) (F : FileSystem) (J : Serde) where
  -- A directory that holds the blocks of a file, each with its segments and their parity shards,
  -- and a manifest that describes the file and has the hashes of all of them.
  pub record IsBlockedArchive (dir : PathBuf) (name : Text) (file : Bytes) (w : F.World)
      : Type 0 where
    pub manifest : ManifestFile
    pub named : manifest.name ≡ name
    pub is_blocked : manifest.tier ≡ 3
    pub hashed : manifest.original_hash ≡ blake3_hash_bytes H file
    pub describes : Describes H manifest file
    pub manifest_there : Holds F w (join dir manifest_file) (J.to_string manifest)
    pub stored :
        (b : ℕ)
        → b * 30 * manifest.segment_size < length file
        → (info : BlockHashes) × (lookup b manifest.merkle_tree.blocks ≡ some info)
          × IsStoredBlock H R F
              (join dir (text "blocks"))
              b
              (block_segments file manifest.segment_size (b * 30) 30)
              info
              w

  -- The segments of a stored block are the pieces of the file, and their hashes are known.
  pub segment_of_block :
      (file : Bytes) (z k : ℕ)
      → 0 < z
      → k * z < length file
      → (k / 30 * 30 * z < length file)
        × (get_elem? (block_segments file z (k / 30 * 30) 30) (k % 30) ≡ some (piece file z k))
  segment_of_block file z k cut inside =
      let below : k / 30 * 30 * z ≤ k * z = mul-le-mul_right z (omega arith) in
      let at : k / 30 * 30 + k % 30 ≡ k = omega arith in
      (
        omega (arith, below),
        subst
            (λ n.
              get_elem? (block_segments file z (k / 30 * 30) 30) (k % 30) ≡ some (piece file z n))
            at
            (get_elem?-block_segments file z (k / 30 * 30) 30 (k % 30) (omega arith) cut
              (subst (λ n. n * z < length file) (sym at) inside)),
      )

  -- The move of the directory moves what the loop wrote.
  IsStoredBlock-rename :
      (from to : PathBuf) (b : ℕ) (segments : List Bytes) (info : BlockHashes) (w w' w'' : F.World)
      → ((top block part name : Text)
          → (F.read w' (join (join (join (join to top) block) part) name)
              ≡ F.read w (join (join (join (join from top) block) part) name))
            × (F.exists w' (join (join (join (join to top) block) part) name)
                ≡ F.exists w (join (join (join (join from top) block) part) name)))
      → ((top block part name : Text)
          → Keeps F w' w'' (join (join (join (join to top) block) part) name))
      → IsStoredBlock H R F (join from (text "blocks")) b segments info w
      → IsStoredBlock H R F (join to (text "blocks")) b segments info w''
  IsStoredBlock-rename from to b segments info w w' w'' moved kept s = record {
    parity = s.parity;
    generated = s.generated;
    three = s.three;
    segment_hashes = s.segment_hashes;
    parity_hashes = s.parity_hashes;
    data_there = λ i segment at. there _ _ segment (s.data_there i segment at);
    parity_there = λ i shard at. there _ _ shard (s.parity_there i shard at);
  }
    where
      there :
          (part name : Text) (bytes : Bytes)
          → Holds F w (block_path (join from (text "blocks")) b part name) bytes
          → Holds F w'' (block_path (join to (text "blocks")) b part name) bytes
      there part name bytes h =
          let (reads, exists) = moved (text "blocks") (block_name b) part name in
          Holds-Keeps (record { reads = reads ∙ h.reads; there = exists ∙ h.there })
            (kept (text "blocks") (block_name b) part name)

  -- A block that the loop found is in the moved directory, and under its number in the manifest.
  pub moved_block :
      (from to : PathBuf) (file : Bytes) (z b : ℕ) (info : BlockHashes) (blocks : List BlockHashes)
      (w w' w'' : F.World)
      → get_elem? blocks b ≡ some info
      → IsStoredBlock H R F
          (join from (text "blocks"))
          (0 + b)
          (block_segments file z ((0 + b) * 30) 30)
          info
          w
      → ((top block part name : Text)
          → (F.read w' (join (join (join (join to top) block) part) name)
              ≡ F.read w (join (join (join (join from top) block) part) name))
            × (F.exists w' (join (join (join (join to top) block) part) name)
                ≡ F.exists w (join (join (join (join from top) block) part) name)))
      → ((top block part name : Text)
          → Keeps F w' w'' (join (join (join (join to top) block) part) name))
      → (found : BlockHashes) × (lookup b (number_blocks 0 blocks) ≡ some found)
        × IsStoredBlock H R F
            (join to (text "blocks"))
            b
            (block_segments file z (b * 30) 30)
            found
            w''
  moved_block from to file z b info blocks w w' w'' found stored moved kept =
      let at : 0 + b ≡ b = omega arith in
      (
        info,
        subst (λ i. lookup i (number_blocks 0 blocks) ≡ some info) at
            (lookup-number_blocks 0 b blocks info found),
        IsStoredBlock-rename from to b _ info w w' w'' moved kept (
            subst
              (λ i.
                IsStoredBlock H R F (join from (text "blocks")) i
                  (block_segments file z (i * 30) 30) info w)
              at stored),
      )

  -- The manifest that the loop's findings make.
  pub blocked_archive :
      (dir : PathBuf) (name : Text) (file : Bytes) (m : ManifestFile) (w : F.World)
      → 0 < m.segment_size
      → m.name ≡ name
      → m.tier ≡ 3
      → m.original_hash ≡ blake3_hash_bytes H file
      → m.size ≡ pos (length file)
      → Holds F w (join dir manifest_file) (J.to_string m)
      → ((b : ℕ)
          → b * 30 * m.segment_size < length file
          → (info : BlockHashes) × (lookup b m.merkle_tree.blocks ≡ some info)
            × IsStoredBlock H R F
                (join dir (text "blocks"))
                b
                (block_segments file m.segment_size (b * 30) 30)
                info
                w)
      → IsBlockedArchive dir name file w
  unfolding expected_hash Option.bind
  blocked_archive dir name file m w cut named tier hash size manifest_there stored = record {
    manifest = m;
    named = named;
    is_blocked = tier;
    hashed = hash;
    describes = record {
      tier = inr (inr tier);
      size = size;
      cut = cut;
      hashes = λ k inside.
          (let (within, at) = segment_of_block file m.segment_size k cut inside in
            let (info, found, s) = stored (k / 30) within in
            let hashes = s.segment_hashes in
            rw (tier, found, hashes) (get_elem?-map (blake3_hash_bytes H) _ (k % 30) _ at));
    };
    manifest_there = manifest_there;
    stored = stored;
  }
