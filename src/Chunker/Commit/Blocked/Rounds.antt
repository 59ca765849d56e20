-- ===== src/Chunker/Commit/Blocked/Rounds.antt =====
-- The loop over the blocks in `commit_blocked` of src/chunker/commit.rs.
use blockframe_rs.Base.{
  ℕ, zero, suc, ◌+◌, ◌*◌, ◌%◌, ◌≤◌, ◌<◌, ◌≡◌, refl, ap, subst, some, List, ◌∷◌, Text, Bytes, length,
  get_elem?, arith,
}
use blockframe_rs.Base.Exec.Ends.{Ends, returns, Ends-bind}
use blockframe_rs.Utils.{Hasher}
use blockframe_rs.ReedSolomon.{ReedSolomon, IsEncoding}
use blockframe_rs.Manifest.{BlockHashes}
use blockframe_rs.Disk.{PathBuf, FileSystem}
use blockframe_rs.Disk.Laws.{IsFileSystem, Keeps, Keeps-refl, Keeps-trans}
use blockframe_rs.Chunker.Commit.Blocked.{block_segments, commit_block, commit_blocks}
use blockframe_rs.Chunker.Commit.Blocked.Parts.{HasEvenTail}
use blockframe_rs.Chunker.Commit.Blocked.Stored.{
  IsStoredBlock, IsStoredBlock-Keeps, IsOutside, IsWritten, commit_block-IsWritten,
}

module _ (H : Hasher) (R : ReedSolomon) (F : FileSystem) (blocks_dir : PathBuf) where
  module _ {E : Type 0} (D : IsFileSystem F E) (L : IsEncoding R) (file : Bytes) (z : ℕ)
      (cut : 0 < z) (even : z % 2 ≡ 0) (tail : HasEvenTail file z) where
    -- What the loop leaves behind from the block `b` on, after `n` rounds: a root and the hashes of
    -- each block, which is stored; files outside of these blocks are as they were.
    pub record Committed (b n : ℕ) (w : F.World) (c : List Text × List BlockHashes) (w' : F.World)
        : Type 0 where
      pub count : length c.0 ≡ n
      pub stored :
          (j : ℕ)
          → j < n
          → (info : BlockHashes) × (get_elem? c.1 j ≡ some info)
            × IsStoredBlock H R F blocks_dir
                (b + j)
                (block_segments file z ((b + j) * 30) 30)
                info
                w'
      pub keeps : (other : PathBuf) → IsOutside H R F blocks_dir b other → Keeps F w w' other

    Committed-suc :
        (b n : ℕ) (w v v' : F.World) (info : BlockHashes) (root : Text)
        (c : List Text × List BlockHashes)
        → IsWritten H R F blocks_dir D L file z cut even tail b w info v
        → Committed (b + 1) n v c v'
        → Committed b (suc n) w (root ∷ c.0, info ∷ c.1) v'
    Committed-suc b n w v v' info root c (here, frame) rest = record {
      count = ap suc rest.count;
      stored = stored;
      keeps = λ other o.
          Keeps-trans (frame other (λ part name. o b part name (omega arith)))
            (rest.keeps other (λ j part name l. o j part name (omega arith)));
    }
      where
        stored :
            (j : ℕ)
            → j < suc n
            → (found : BlockHashes) × (get_elem? (info ∷ c.1) j ≡ some found)
              × IsStoredBlock H R F blocks_dir
                  (b + j)
                  (block_segments file z ((b + j) * 30) 30)
                  found
                  v'
        stored zero l =
            let at : b ≡ b + 0 = omega arith in
            subst
              (λ i.
                (found : BlockHashes) × (get_elem? (info ∷ c.1) 0 ≡ some found)
                × IsStoredBlock H R F blocks_dir i (block_segments file z (i * 30) 30) found v')
              at
              (
                info,
                refl,
                IsStoredBlock-Keeps H R F blocks_dir b (b + 1) _ info v v' (omega arith) here
                    rest.keeps,
              )
        stored (suc j) l =
            let at : b + 1 + j ≡ b + suc j = omega arith in
            subst
              (λ i.
                (found : BlockHashes) × (get_elem? (info ∷ c.1) (suc j) ≡ some found)
                × IsStoredBlock H R F blocks_dir i (block_segments file z (i * 30) 30) found v')
              at (rest.stored j (omega arith))

    pub commit_blocks-Committed :
        (n b : ℕ) (w : F.World)
        → ((j : ℕ) → b ≤ j → j < b + n → j * 30 * z < length file)
        → Ends E (λ c w'. Committed b n w c w') (commit_blocks H R F blocks_dir file z b n w)
    unfolding commit_blocks
    commit_blocks-Committed zero b w inside = returns _ refl (record {
      count = refl;
      stored = λ j l. absurd (omega arith);
      keeps = λ other o. Keeps-refl w other;
    })
    commit_blocks-Committed (suc n) b w inside =
        Ends-bind (commit_block H R F blocks_dir file z b w) _
          (commit_block-IsWritten H R F blocks_dir D L file z cut even tail b w
            (inside b (omega arith) (omega arith)))
          (λ (root, info) v here.
            Ends-bind (commit_blocks H R F blocks_dir file z (b + 1) n v) _
              (commit_blocks-Committed n (b + 1) v
                (λ j low high. inside j (omega arith) (omega arith)))
              (λ c v' rest. returns _ refl (Committed-suc b n w v v' info root c here rest)))
