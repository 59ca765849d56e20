-- ===== src/Chunker/Commit/Blocked/Stored.antt =====
-- `commit_block` and the loop over the blocks in `commit_blocked` of src/chunker/commit.rs.
use blockframe_rs.Base.{
  ℕ, zero, suc, ◌+◌, ◌-◌, ◌*◌, ◌%◌, ◌≤◌, ◌<◌, ◌≡◌, ◌≢◌, refl, ap, subst, some, List, [], ◌∷◌, ◌++◌,
  map, Text, Bytes, text, ok, length, length-append, get_elem?, min, lookup, usize_key, arith,
}
use blockframe_rs.Base.Exec.Ends.{Ends, returns, Ends-bind, Ends-step}
use blockframe_rs.Utils.{Hasher, blake3_hash_bytes}
use blockframe_rs.ReedSolomon.{ReedSolomon, IsEncoding}
use blockframe_rs.Merkle.{from_hashes}
use blockframe_rs.Merkle.Trees.{from_hashes_total}
use blockframe_rs.Manifest.{BlockHashes}
use blockframe_rs.Disk.{PathBuf, join, FileSystem}
use blockframe_rs.Disk.Laws.{IsFileSystem, Keeps, Keeps-refl, Keeps-trans, Holds, Holds-Keeps}
use blockframe_rs.Disk.Names.{segment_file, block_parity_file, block_name}
use blockframe_rs.Disk.Names.Apart.{
  segment_file_injective, block_parity_file_injective, block_name_injective, nested_path_injective,
  segments-ne-parity,
}
use blockframe_rs.Chunker.Generate.{generate_parity}
use blockframe_rs.Chunker.Generate.Encoded.{generate_parity_total}
use blockframe_rs.Chunker.Io.{write_segment, write_blocked_parities, write_chunks}
use blockframe_rs.Chunker.Io.Laws.{Written, Written-cons, Written-Holds, write_chunks-Written}
use blockframe_rs.Chunker.Commit.{tree_or}
use blockframe_rs.Chunker.Commit.Blocked.{
  block_segments, number_blocks, write_segments, commit_block,
}
use blockframe_rs.Chunker.Commit.Blocked.Parts.{
  length-block_segments, some-block_segments, max_len-block_segments, HasEvenTail, even_blocks,
}

-- The blocks are numbered by their places.
pub lookup-number_blocks :
    (i k : ℕ) (blocks : List BlockHashes) (info : BlockHashes)
    → get_elem? blocks k ≡ some info
    → lookup (i + k) (number_blocks i blocks) ≡ some info
unfolding lookup
lookup-number_blocks i k [] info e = absurd (cc)
lookup-number_blocks i zero (b ∷ blocks) info e = ground arith
lookup-number_blocks i (suc k) (b ∷ blocks) info e =
    let ih = lookup-number_blocks (i + 1) k blocks info e in
    let at : i + 1 + k ≡ i + suc k = omega arith in
    let ih' = subst (λ n. lookup n (number_blocks (i + 1) blocks) ≡ some info) at ih in ground arith

-- A file of a block.
abbrev pub block_path : PathBuf → ℕ → Text → Text → PathBuf
block_path blocks_dir b part name = join (join (join blocks_dir (block_name b)) part) name

module _ (H : Hasher) (R : ReedSolomon) (F : FileSystem) (blocks_dir : PathBuf) where
  -- The segments of a block and their parity are in their files, and their hashes are known.
  pub record IsStoredBlock (b : ℕ) (segments : List Bytes) (info : BlockHashes) (w : F.World)
      : Type 0 where
    pub parity : List Bytes
    pub generated : generate_parity R segments (length segments) 3 ≡ ok parity
    pub three : length parity ≡ 3
    pub segment_hashes : info.segments ≡ map (blake3_hash_bytes H) segments
    pub parity_hashes : info.parity ≡ map (blake3_hash_bytes H) parity
    pub data_there :
        (i : ℕ) (segment : Bytes)
        → get_elem? segments i ≡ some segment
        → Holds F w (block_path blocks_dir b (text "segments") (segment_file i)) segment
    pub parity_there :
        (i : ℕ) (shard : Bytes)
        → get_elem? parity i ≡ some shard
        → Holds F w (block_path blocks_dir b (text "parity") (block_parity_file i)) shard

  -- A path that is not of a file in a block from `b` on.
  abbrev pub IsOutside : ℕ → PathBuf → Type 0
  IsOutside b other = (j : ℕ) (part name : Text) → b ≤ j → other ≢ block_path blocks_dir j part name

  pub IsStoredBlock-Keeps :
      (b k : ℕ) (segments : List Bytes) (info : BlockHashes) (v w : F.World)
      → b < k
      → IsStoredBlock b segments info v
      → ((other : PathBuf) → IsOutside k other → Keeps F v w other)
      → IsStoredBlock b segments info w
  IsStoredBlock-Keeps b k segments info v w l s keeps = record {
    parity = s.parity;
    generated = s.generated;
    three = s.three;
    segment_hashes = s.segment_hashes;
    parity_hashes = s.parity_hashes;
    data_there = λ i segment at. Holds-Keeps (s.data_there i segment at) (keeps _ (outside _ _));
    parity_there = λ i shard at. Holds-Keeps (s.parity_there i shard at) (keeps _ (outside _ _));
  }
    where
      outside : (part name : Text) → IsOutside k (block_path blocks_dir b part name)
      outside part name j part' name' above same =
          let (names, _, _) =
            nested_path_injective blocks_dir (block_name b) (block_name j) part part' name name'
              same in
          let number = block_name_injective b j names in omega arith

  module _ {E : Type 0} (D : IsFileSystem F E) where
    write_segments-Written :
        (dir : PathBuf) (i : ℕ) (segments : List Bytes) (w : F.World)
        → Ends E
            (λ hashes w'.
              (hashes ≡ map (blake3_hash_bytes H) segments)
              × Written F dir segment_file w i segments w')
            (write_segments H R F dir i segments w)
    unfolding write_segments write_segment
    write_segments-Written dir i [] w = returns [] refl (
      refl,
      record { holds = λ k chunk e. absurd (cc); keeps = λ other apart. Keeps-refl w other },
    )
    write_segments-Written dir i (segment ∷ segments) w =
        Ends-bind (F.write (join dir (segment_file i)) segment w) _
          (D.writes (join dir (segment_file i)) segment w)
          (λ _ v (here, frame).
            Ends-bind (write_segments H R F dir (i + 1) segments v) _
              (write_segments-Written dir (i + 1) segments v)
              (λ hashes w' (same, rest). returns _ refl (
                ap (λ hs. blake3_hash_bytes H segment ∷ hs) same,
                Written-cons D dir segment_file segment_file_injective i segment segments w v w'
                    here frame rest,
              )))

  module _ {E : Type 0} (D : IsFileSystem F E) (L : IsEncoding R) (file : Bytes) (z : ℕ)
      (cut : 0 < z) (even : z % 2 ≡ 0) (tail : HasEvenTail file z) where
    -- A block, once written: it is stored, and files outside of it are as they were.
    abbrev pub IsWritten : ℕ → F.World → BlockHashes → F.World → Type 0
    IsWritten b w info w' =
        IsStoredBlock b (block_segments file z (b * 30) 30) info w'
        × ((other : PathBuf)
            → ((part name : Text) → other ≢ block_path blocks_dir b part name)
            → Keeps F w w' other)

    stored_block :
        (b : ℕ) (p q r : Bytes) (hashes : List Text) (w v v' : F.World)
        → generate_parity R
            (block_segments file z (b * 30) 30)
            (length (block_segments file z (b * 30) 30))
            3
          ≡ ok (p ∷ q ∷ r ∷ [])
        → hashes ≡ map (blake3_hash_bytes H) (block_segments file z (b * 30) 30)
        → Written F
            (join (join blocks_dir (block_name b)) (text "segments"))
            segment_file
            w
            0
            (block_segments file z (b * 30) 30)
            v
        → Written F
            (join (join blocks_dir (block_name b)) (text "parity"))
            block_parity_file
            v
            0
            (p ∷ q ∷ r ∷ [])
            v'
        → IsWritten b w
            (record { segments = hashes; parity = map (blake3_hash_bytes H) (p ∷ q ∷ r ∷ []) })
            v'
    stored_block b p q r hashes w v v' made hashed cells shards = (
      record {
        parity = p ∷ q ∷ r ∷ [];
        generated = made;
        three = refl;
        segment_hashes = hashed;
        parity_hashes = refl;
        data_there = λ i segment at. Holds-Keeps (Written-Holds F _ _ w v _ i segment cells at) (
            shards.keeps _
              (λ k _ same. segments-ne-parity (join blocks_dir (block_name b)) _ _ same));
        parity_there = λ i shard at. Written-Holds F _ _ v v' _ i shard shards at;
      },
      λ other apart.
          Keeps-trans (cells.keeps other (λ k _. apart _ _))
            (shards.keeps other (λ k _. apart _ _)),
    )

    pub commit_block-IsWritten :
        (b : ℕ) (w : F.World)
        → b * 30 * z < length file
        → Ends E (λ c w'. IsWritten b w c.1 w') (commit_block H R F blocks_dir file z b w)
    unfolding commit_block write_blocked_parities
    commit_block-IsWritten b w inside =
        let segments = block_segments file z (b * 30) 30 in
        let dir = join blocks_dir (block_name b) in
        let n = min z (length file - b * 30 * z) in
        let (p, q, r, made) =
          generate_parity_total R L segments n (max_len-block_segments file z (b * 30) 29 inside)
            (some-block_segments file z (b * 30) 29 inside)
            (length-block_segments file z (b * 30) 30) (omega arith)
            (even_blocks file z b even tail inside) in
        let parity = p ∷ q ∷ r ∷ [] in
        Ends-bind (write_segments H R F (join dir (text "segments")) 0 segments w) _
          (write_segments-Written D (join dir (text "segments")) 0 segments w)
          (λ hashes v (hashed, cells).
            Ends-step (generate_parity R segments (length segments) 3) v parity _ made (
              Ends-bind (write_chunks F (join dir (text "parity")) block_parity_file 0 parity v) _
                (write_chunks-Written D (join dir (text "parity")) block_parity_file
                  block_parity_file_injective 0 parity v)
                (λ _ v' shards.
                  let leaves = hashes ++ map (blake3_hash_bytes H) parity in
                  let (tree, built, _) =
                    from_hashes_total H leaves
                      (omega (arith, length-append hashes (map (blake3_hash_bytes H) parity))) in
                  Ends-step (tree_or (from_hashes H leaves)) v' tree _ (rw built refl) (
                    returns _ refl (stored_block b p q r hashes w v v' made hashed cells shards)))))
