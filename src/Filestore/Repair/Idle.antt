-- ===== src/Filestore/Repair/Idle.antt =====
-- Repairs of src/filestore/health.rs that find nothing to do.
use blockframe_rs.Base.{
  ℕ, suc, zero, ◌+◌, ◌<◌, ◌≡◌, refl, ap, ◌∙◌, some, List, [], ◌∷◌, All, Text, Bytes, ok, lookup,
  i32_key, empty-of_lookup, min, arith, text, clamp_usize, Option-cases, Result-cases, Bool-cases,
  inl, inr,
}
use blockframe_rs.Utils.{Hasher}
use blockframe_rs.ReedSolomon.{ReedSolomon}
use blockframe_rs.Disk.{PathBuf, join, parent_dir, FileSystem}
use blockframe_rs.Disk.Names.{manifest_file}
use blockframe_rs.Chunker.Io.{Serde}
use blockframe_rs.Chunker.Commit.Laws.{IsSegmentedArchive}
use blockframe_rs.Filestore.Models.{File}
use blockframe_rs.Filestore.Index.{find}
use blockframe_rs.Filestore.Index.Laws.{IsSerde, found-IsSame}
use blockframe_rs.Filestore.Health.{segment_file}
use blockframe_rs.Filestore.Health.Blocks.{health_check, is_healthy, count_segments, directories_of}
use blockframe_rs.Filestore.Repair.Blocked.{
  repair, missing_indices, rebuild_block, repair_blocks, repair_blocked,
}
use blockframe_rs.Filestore.Repair.{read_files, repair_segment, find_corrupt, rebuild_segments}

-- A file of tier 2 whose manifest has no leaves.
pub record IsBare (file : File) : Type 0 where
  pub tier : file.manifest.tier ≡ 2
  pub leaves : file.manifest.merkle_tree.leaves ≡ []

-- Such is a file of tier 2 as the index finds it behind the commit that archived it.
pub archive-IsBare :
    (H : Hasher) (R : ReedSolomon) (F : FileSystem) (J : Serde)
    → IsSerde J
    → (store : PathBuf) (name : Text) (dir : PathBuf) (file : Bytes) (w : F.World) (obj : File)
    → find F J w store name ≡ ok obj
    → obj.file_data.path ≡ join dir manifest_file
    → IsSegmentedArchive H R F J dir name file w
    → IsBare obj
archive-IsBare H R F J N store name dir file w obj found at A =
    let same = found-IsSame F J N store name dir w obj found at A.manifest A.manifest_there in
    let bare = A.no_leaves in
    record {
      tier = same.tier ∙ A.is_segmented;
      leaves =
          empty-of_lookup obj.manifest.merkle_tree.leaves
            (λ k. same.leaves k ∙ ap (lookup k) bare ∙ unfold lookup in refl);
    }

module _ (H : Hasher) (R : ReedSolomon) (F : FileSystem) (w : F.World) where
  repair_segment_bare : (file : File) → IsBare file → (repair_segment H R F file w).1 ≡ w
  unfolding repair_segment find_corrupt rebuild_segments
  repair_segment_bare file b =
      let bare = b.leaves in
      elim (Option-cases (parent_dir file.file_data.path)) [
        | inl none_there ↦ rw none_there refl
        | inr (dir, there) ↦ rw (there, bare) refl
      ]

  -- A repair of such a file changes nothing, whatever the health check finds.
  pub repair_bare : (file : File) → IsBare file → (repair H R F file w).1 ≡ w
  unfolding repair repair_segment
  repair_bare file b = elim (Result-cases (health_check H F w file)) [
    | inr (e, failed) ↦ rw failed refl
    | inl (report, r) ↦ elim (Bool-cases report.can_recover) [
      | inr lost ↦ rw (r, lost) refl
      | inl can ↦ elim (Bool-cases (is_healthy report.status)) [
        | inl fine ↦ rw (r, can, fine) refl
        | inr ill ↦ rw (r, can, ill, b.tier) (repair_segment_bare file b)
      ]
    ]
  ]

module _ (H : Hasher) (R : ReedSolomon) (F : FileSystem) (w : F.World) where
  -- The files at the first places can be read.
  abbrev pub HasFirst : PathBuf → ℕ → Type 0
  HasFirst segments_dir count =
      (i : ℕ)
      → i < count
      → (bytes : Bytes) × (F.read w (join segments_dir (segment_file i)) ≡ ok bytes)

  none_missing :
      (segments_dir : PathBuf) (i n : ℕ)
      → HasFirst segments_dir (i + n)
      → missing_indices i (read_files H R F w segments_dir segment_file i n) ≡ []
  unfolding missing_indices read_files
  none_missing segments_dir i zero there = refl
  none_missing segments_dir i (suc n) there =
      let (bytes, reads) = there i (omega arith) in
      rw reads (none_missing segments_dir (i + 1) n (λ j l. there j (omega arith)))

  rebuild_block_idle :
      (block_dir : PathBuf) (count parity_shards segment_size : ℕ)
      → HasFirst (join block_dir (text "segments")) count
      → rebuild_block H R F block_dir count parity_shards segment_size
          (read_files H R F w (join block_dir (text "segments")) segment_file 0 count)
          w
        ≡ (ok tt, w)
  unfolding rebuild_block
  rebuild_block_idle block_dir count parity_shards segment_size there =
      let start : 0 + count ≡ count = omega arith in
      let none_left = none_missing (join block_dir (text "segments")) 0 count (rw start there) in
      rw none_left refl

  -- A block whose segment files, as many as are there, are those of its first segments.
  abbrev pub IsPrefix : PathBuf → Text → Type 0
  IsPrefix blocks_path block =
      (names : List Text) × (F.read_dir w (join (join blocks_path block) (text "segments"))
        ≡ ok names)
      × HasFirst (join (join blocks_path block) (text "segments")) (count_segments names)

  repair_blocks_idle :
      (blocks_path : PathBuf) (data_shards parity_shards segment_size : ℕ) (blocks : List Text)
      → All (IsPrefix blocks_path) blocks
      → repair_blocks H R F blocks_path data_shards parity_shards segment_size blocks w ≡ (ok tt, w)
  unfolding repair_blocks
  repair_blocks_idle blocks_path d p z [] all = refl
  repair_blocks_idle blocks_path d p z (b ∷ blocks) ((names, listed, there), rest) =
      let here =
        rebuild_block_idle (join blocks_path b) (min (count_segments names) d) p z
          (λ i l. there i (omega arith)) in
      rw (listed, here) (repair_blocks_idle blocks_path d p z blocks rest)

  -- A repair of a file of tier 3 returns and changes nothing where in every block the segment files
  -- that are there are those of its first segments: a block whose last segments are lost stays as
  -- it is.
  pub repair_blocked_idle :
      (obj : File) (dir : PathBuf) (names : List Text)
      → parent_dir obj.file_data.path ≡ some dir
      → F.read_dir w (join dir (text "blocks")) ≡ ok names
      → All
          (IsPrefix (join dir (text "blocks")))
          (directories_of H F w (join dir (text "blocks")) names)
      → repair_blocked H R F obj w ≡ (ok tt, w)
  unfolding repair_blocked
  repair_blocked_idle obj dir names parent listed all =
      let done =
        repair_blocks_idle (join dir (text "blocks"))
          (clamp_usize obj.manifest.erasure_coding.data_shards)
          (clamp_usize obj.manifest.erasure_coding.parity_shards) obj.manifest.segment_size
          (directories_of H F w (join dir (text "blocks")) names) all in
      rw (parent, listed) done
