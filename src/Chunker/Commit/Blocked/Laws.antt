-- ===== src/Chunker/Commit/Blocked/Laws.antt =====
-- `commit_blocked` of src/chunker/commit.rs.
use blockframe_rs.Base.{
  ℕ, zero, suc, ◌+◌, ◌*◌, ◌%◌, ◌≤◌, ◌<◌, ◌≡◌, refl, subst, usize_key, some, false, is_ok, [], ◌∷◌,
  Text, Bytes, text, ok, ok_or, message, length, min, arith, div_ceil, ◌==◌, ◌-◌, Bool-cases, inl,
  inr,
}
use blockframe_rs.Base.Exec.{proceed-fails, proceed-failed, proceed-step-fails}
use blockframe_rs.Base.Exec.Ends.{Ends, returns, Ends-bind, Ends-step}
use blockframe_rs.Utils.{Hasher, blake3_hash_bytes, determine_segment_size}
use blockframe_rs.Utils.Hashing.{determine_segment_size_bounds}
use blockframe_rs.ReedSolomon.{ReedSolomon, IsEncoding, RefusesOdd}
use blockframe_rs.Merkle.{from_hashes}
use blockframe_rs.Merkle.Trees.{from_hashes_total}
use blockframe_rs.Disk.{PathBuf, join, file_name_of, FileSystem}
use blockframe_rs.Disk.Laws.{IsFileSystem}
use blockframe_rs.Disk.Names.{manifest_file}
use blockframe_rs.Disk.Names.Apart.{deepest_ne}
use blockframe_rs.Chunker.{Chunker}
use blockframe_rs.Chunker.Generate.{generate_parity}
use blockframe_rs.Chunker.Generate.Encoded.{generate_parity_refuses}
use blockframe_rs.Chunker.Io.{
  Serde, get_dir, create_dir, check_for_archive_dir, write_manifest_struct,
}
use blockframe_rs.Chunker.Io.Laws.{create_dir-Keeps, check_for_archive_dir-Keeps}
use blockframe_rs.Chunker.Commit.{segments_of, tree_or, placeholder}
use blockframe_rs.Chunker.Commit.Tiny.{IsCommitted}
use blockframe_rs.Chunker.Commit.Laws.{segments_of-positive}
use blockframe_rs.Chunker.Commit.Blocked.{
  create_block_dirs, write_segments, commit_block, commit_blocks, commit_blocked, block_segments,
}
use blockframe_rs.Chunker.Commit.Blocked.Parts.{max_len-block_segments, HasEvenTail}
use blockframe_rs.Chunker.Commit.Blocked.Rounds.{commit_blocks-Committed}
use blockframe_rs.Chunker.Commit.Blocked.Archive.{
  blocks_iff, IsBlockedArchive, moved_block, blocked_archive,
}

segment_size-even :
    (len available_ram : ℕ) → 1_000_000_000 < len → determine_segment_size len available_ram % 2 ≡ 0
unfolding determine_segment_size
segment_size-even len available_ram large = ground arith

module _ (H : Hasher) (R : ReedSolomon) (F : FileSystem) (J : Serde) where
  module _ {E : Type 0} (D : IsFileSystem F E) (L : IsEncoding R) (self : Chunker) where
    pub commit_blocked-IsBlockedArchive :
        (available_ram : ℕ) (path : PathBuf) (name : Text) (file : Bytes) (w : F.World)
        → F.read w path ≡ ok file
        → file_name_of path ≡ some name
        → 1_000_000_000 < length file
        → HasEvenTail file (determine_segment_size (length file) available_ram)
        → Ends E
            (λ c w'. IsCommitted H name file c × IsBlockedArchive H R F J c.file_dir name file w')
            (commit_blocked H R F J self available_ram path 3 w)
    unfolding commit_blocked write_manifest_struct
    commit_blocked-IsBlockedArchive available_ram path name file w readable named large tail =
        let z = determine_segment_size (length file) available_ram in
        let (cut, _) = determine_segment_size_bounds (length file) available_ram (omega arith) in
        let n = div_ceil (length file) z in
        let blocks = div_ceil n 30 in
        let hash = blake3_hash_bytes H file in
        let from = get_dir name placeholder in
        let to = get_dir name hash in
        let blocks_dir = join from (text "blocks") in
        Ends-step (F.read w path) w file _ readable (
          Ends-step (ok_or (file_name_of path) (message (text "error getting filename"))) w name _
            (rw named refl)
            (Ends-step (segments_of (length file) z) w n _
              (segments_of-positive (length file) z cut)
              (Ends-bind (check_for_archive_dir F w) _ (check_for_archive_dir-Keeps D w) (λ _ w₁ _.
                Ends-bind (create_dir F from w₁) _ (create_dir-Keeps D from w₁) (λ _ w₂ _.
                  Ends-bind (create_dir F blocks_dir w₂) _ (create_dir-Keeps D blocks_dir w₂)
                    (λ _ w₃ _.
                      let w₄ = (create_block_dirs H R F blocks_dir 0 blocks w₃).1 in
                      Ends-bind (commit_blocks H R F blocks_dir file z 0 blocks w₄) _
                        (commit_blocks-Committed H R F blocks_dir D L file z cut
                          (segment_size-even (length file) available_ram large) tail blocks 0 w₄
                          (λ j _ l. (blocks_iff j (length file) z cut).0 (omega arith)))
                        (λ c w₅ loop.
                          Ends-bind (F.rename from to w₅) _ (D.renames from to w₅) (λ _ w₆ moved.
                            let (tree, built, _) = from_hashes_total H c.0 (
                              let some_left : 0 < blocks =
                                (blocks_iff 0 (length file) z cut).1 (omega arith) in
                              omega (arith, loop.count, some_left)) in
                            Ends-step (tree_or (from_hashes H c.0)) w₆ tree _ (rw built refl) (
                              Ends-bind (F.write (join to manifest_file) _ w₆) _
                                (D.writes (join to manifest_file) _ w₆)
                                (λ _ w₇ (there, kept). returns _ refl (
                                  record {
                                    name_is = refl;
                                    size_is = refl;
                                    hash_is = refl;
                                    dir_is = refl;
                                  },
                                  blocked_archive H R F J to name file _ w₇ cut refl refl refl refl
                                      there
                                      (λ b inside.
                                        let (info, found, stored) =
                                          loop.stored b
                                            ((blocks_iff b (length file) z cut).1 inside) in
                                        moved_block H R F J from to file z b info c.1 w₅ w₆ w₇ found
                                          stored
                                          (λ top block part sub.
                                            moved (top ∷ block ∷ part ∷ sub ∷ []))
                                          (λ top block part sub.
                                            kept _
                                              (deepest_ne to top block part sub manifest_file))),
                                )))))))))))

  -- A block whose one segment has an odd size cannot be written.
  module _ (L : RefusesOdd R) (file : Bytes) (z b : ℕ) (even : z % 2 ≡ 0)
      (inside : b * 30 * z < length file) (short : length file < (b * 30 + 1) * z)
      (odd : length file % 2 ≡ 1) where
    commit_block_fails :
        (blocks_dir : PathBuf) (w : F.World)
        → is_ok (commit_block H R F blocks_dir file z b w).0 ≡ false
    unfolding commit_block
    commit_block_fails blocks_dir w =
        let segments = block_segments file z (b * 30) 30 in
        let longest = max_len-block_segments file z (b * 30) 29 inside in
        let size : min z (length file - b * 30 * z) ≡ length file - b * 30 * z = omega arith in
        proceed-fails (write_segments H R F _ 0 segments w) _ (λ hashes v.
          proceed-failed (generate_parity R segments (length segments) 3, v) _
            (generate_parity_refuses R L segments _ (length segments) longest
              (rw size (omega arith))))

    commit_blocks_fails :
        (blocks_dir : PathBuf) (rounds i : ℕ) (w : F.World)
        → i ≤ b
        → b < i + rounds
        → is_ok (commit_blocks H R F blocks_dir file z i rounds w).0 ≡ false
    unfolding commit_blocks
    commit_blocks_fails blocks_dir zero i w low high = absurd (omega arith)
    commit_blocks_fails blocks_dir (suc rounds) i w low high = elim (Bool-cases (i == b)) [
      | inl same ↦
          let i_eq : b ≡ i = ground arith in
          proceed-failed (commit_block H R F blocks_dir file z i w) _ (
            subst (λ k. is_ok (commit_block H R F blocks_dir file z k w).0 ≡ false) i_eq
              (commit_block_fails blocks_dir w))
      | inr other ↦ proceed-fails (commit_block H R F blocks_dir file z i w) _ (λ c v.
          proceed-failed (commit_blocks H R F blocks_dir file z (i + 1) rounds v) _
            (commit_blocks_fails blocks_dir rounds (i + 1) v (ground arith) (omega arith)))
    ]

  pub commit_blocked_fails :
      RefusesOdd R
      → (self : Chunker) (available_ram : ℕ) (path : PathBuf) (file : Bytes) (b : ℕ) (w : F.World)
      → F.read w path ≡ ok file
      → 1_000_000_000 < length file
      → length file % 2 ≡ 1
      → b * 30 * determine_segment_size (length file) available_ram < length file
      → length file < (b * 30 + 1) * determine_segment_size (length file) available_ram
      → is_ok (commit_blocked H R F J self available_ram path 3 w).0 ≡ false
  unfolding commit_blocked
  commit_blocked_fails L self available_ram path file b w readable large odd inside short =
      let z = determine_segment_size (length file) available_ram in
      let (cut, _) = determine_segment_size_bounds (length file) available_ram (omega arith) in
      let n = div_ceil (length file) z in
      let blocks = div_ceil n 30 in
      proceed-step-fails (F.read w path) file w _ readable (
        proceed-fails (ok_or (file_name_of path) (message (text "error getting filename")), w) _
          (λ name w₀.
            let from = get_dir name placeholder in
            let blocks_dir = join from (text "blocks") in
            proceed-step-fails (segments_of (length file) z) n w₀ _
              (segments_of-positive (length file) z cut)
              (proceed-fails (check_for_archive_dir F w₀) _ (λ _ w₁.
                proceed-fails (create_dir F from w₁) _ (λ _ w₂.
                  proceed-fails (create_dir F blocks_dir w₂) _ (λ _ w₃.
                    let w₄ = (create_block_dirs H R F blocks_dir 0 blocks w₃).1 in
                    proceed-failed (commit_blocks H R F blocks_dir file z 0 blocks w₄) _ (
                      commit_blocks_fails L file z b
                        (segment_size-even (length file) available_ram large) inside short odd
                        blocks_dir blocks 0 w₄ (omega arith)
                        (let counted = (blocks_iff b (length file) z cut).1 inside in
                          omega (arith, counted)))))))))
