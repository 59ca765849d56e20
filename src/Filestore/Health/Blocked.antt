-- ===== src/Filestore/Health/Blocked.antt =====
-- The health check of tier 3 of src/filestore/health.rs.
use blockframe_rs.Base.{
  ℕ, zero, suc, ◌+◌, ◌≤◌, ◌<◌, ◌≡◌, ◌↔◌, refl, ◌∙◌, some, List, [], ◌∷◌, ◌++◌, All, Text, text, ok,
  true, false, Bool-cases, inl, inr, min, length, subst, sym, ok_inj, clamp_usize, arith,
}
use blockframe_rs.Utils.{Hasher}
use blockframe_rs.Disk.{PathBuf, join, parent_dir, FileSystem}
use blockframe_rs.Filestore.Models.{File, healthy, HealthReport}
use blockframe_rs.Filestore.Health.{segment_file, count_existing}
use blockframe_rs.Filestore.Health.Blocks.{
  block_parity_file, BlockFindings, add_block, block_status, block_report, count_segments,
  directories_of, check_blocks, health_check_block, is_degraded,
}

-- Every block is counted once.
abbrev Counts : BlockFindings → Type 0
Counts found =
    found.healthy_blocks + found.recoverable_blocks + found.unrecoverable_blocks
    ≡ found.total_blocks

add_block_lem :
    (p : ℕ) (missing_data : List Text) (parity_count : ℕ) (missing_parity : List Text) (missing : ℕ)
    (rest : BlockFindings)
    → Counts rest
    → let found = add_block p missing_data parity_count missing_parity missing rest in
      Counts found
      × ((found.healthy_blocks ≡ found.total_blocks)
          ↔ ((missing ≡ 0) × (parity_count ≡ p) × (rest.healthy_blocks ≡ rest.total_blocks)))
      × ((found.unrecoverable_blocks ≡ 0)
          ↔ ((missing ≤ p) × (parity_count ≡ p) × (rest.unrecoverable_blocks ≡ 0)))
unfolding add_block
add_block_lem p missing_data parity_count missing_parity missing rest h =
    (ground arith, ground arith, ground arith)

block_status_lem :
    (found : BlockFindings)
    → Counts found
    → (((block_status found).0 ≡ healthy) ↔ (found.healthy_blocks ≡ found.total_blocks))
      × (((block_status found).1 ≡ true) ↔ (found.unrecoverable_blocks ≡ 0))
      × (is_degraded (block_status found).0 ≡ false)
unfolding block_status
block_status_lem found h = (ground arith, ground arith, ground arith)

module _ (H : Hasher) (F : FileSystem) (w : F.World) where
  -- The first files of a kind exist in a directory, from the `i`-th on.
  abbrev pub HasFiles : PathBuf → (ℕ → Text) → ℕ → ℕ → Type 0
  HasFiles dir name i count = (k : ℕ) → k < count → F.exists w (join dir (name (i + k))) ≡ true

  HasFiles-suc :
      (dir : PathBuf) (name : ℕ → Text) (i count : ℕ)
      → HasFiles dir name i (suc count)
        ↔ ((F.exists w (join dir (name i)) ≡ true) × HasFiles dir name (i + 1) count)
  HasFiles-suc dir name i count =
      let exists_at : ℕ → Type 0 = λ n. F.exists w (join dir (name n)) ≡ true in
      (
        λ h. (
          subst exists_at (omega arith) (h 0 (omega arith)),
          λ k l. subst exists_at (omega arith) (h (k + 1) (omega arith)),
        ),
        λ (first, later) k. elim k as (λ k. k < suc count → exists_at (i + k)) [
          | zero ↦ λ l. subst exists_at (omega arith) first
          | suc j ↦ λ l. subst exists_at (omega arith) (later j (omega arith))
        ],
      )

  pub count_existing_iff :
      (dir : PathBuf) (name label : ℕ → Text) (i count : ℕ)
      → ((count_existing H F w dir name label i count).0
            + length (count_existing H F w dir name label i count).1
          ≡ count)
        × ((length (count_existing H F w dir name label i count).1 ≡ 0) ↔ HasFiles dir name i count)
  unfolding count_existing
  count_existing_iff dir name label i zero = (refl, (λ h k l. elim l [ ], λ h. refl))
  count_existing_iff dir name label i (suc count) =
      let (sum, (all, all')) = count_existing_iff dir name label (i + 1) count in
      let (split, join') = HasFiles-suc dir name i count in
      elim (Bool-cases (F.exists w (join dir (name i)))) [
        | inl there ↦ (
          rw there (omega (arith, sum)),
          rw there (λ h. join' (there, all h), λ h. all' ((split h).1)),
        )
        | inr gone ↦ (
          rw gone (omega (arith, sum)),
          rw gone (λ h. absurd (omega (arith, h)), λ h. (let first = (split h).0 in absurd (cc))),
        )
      ]

  count_existing-label :
      (dir : PathBuf) (name label label' : ℕ → Text) (i count : ℕ)
      → (count_existing H F w dir name label i count).0
        ≡ (count_existing H F w dir name label' i count).0
  unfolding count_existing
  count_existing-label dir name label label' i zero = refl
  count_existing-label dir name label label' i (suc count) =
      let below = count_existing-label dir name label label' (i + 1) count in
      elim (Bool-cases (F.exists w (join dir (name i)))) [
        | inl there ↦ rw there (omega (arith, below))
        | inr gone ↦ rw gone below
      ]

  -- The files of a block that the check asks for.
  abbrev pub HasParity : PathBuf → ℕ → Text → Type 0
  HasParity blocks_path parity_shards block =
      HasFiles (join (join blocks_path block) (text "parity")) block_parity_file 0 parity_shards

  -- A block whose segment files can be listed.
  abbrev pub HasListing : PathBuf → Text → Type 0
  HasListing blocks_path block =
      (names : List Text) × (F.read_dir w (join (join blocks_path block) (text "segments"))
        ≡ ok names)

  -- A block with as many segment files as are there, at most `data_shards`: all of the first ones
  -- are among them, and all parity files exist.
  abbrev pub IsWhole : PathBuf → ℕ → ℕ → Text → Type 0
  IsWhole blocks_path data_shards parity_shards block =
      (names : List Text) × (F.read_dir w (join (join blocks_path block) (text "segments"))
        ≡ ok names)
      × HasFiles (join (join blocks_path block) (text "segments")) segment_file 0
          (min (count_segments names) data_shards)
      × HasParity blocks_path parity_shards block

  -- A block in which no more of these segment files are missing than there are parity files, which
  -- all exist.
  abbrev pub IsMendable : PathBuf → ℕ → ℕ → Text → Type 0
  IsMendable blocks_path data_shards parity_shards block =
      (names : List Text) × (F.read_dir w (join (join blocks_path block) (text "segments"))
        ≡ ok names)
      × (min (count_segments names) data_shards
          ≤ (count_existing H F w (join (join blocks_path block) (text "segments")) segment_file
              segment_file 0 (min (count_segments names) data_shards)).0
            + parity_shards)
      × HasParity blocks_path parity_shards block

  module _ (blocks_path : PathBuf) (d p : ℕ) where
    block_iff :
        (block : Text) (label : Text → Text) (names : List Text)
        → F.read_dir w (join (join blocks_path block) (text "segments")) ≡ ok names
        → let missing =
            (count_existing H F w
              (join (join blocks_path block) (text "segments"))
              segment_file
              (λ i. label (segment_file i))
              0
              (min (count_segments names) d)).1 in
          let parity_count =
            (count_existing H F w
              (join (join blocks_path block) (text "parity"))
              block_parity_file
              (λ i. label (block_parity_file i))
              0
              p).0 in
          (((length missing ≡ 0) × (parity_count ≡ p)) ↔ IsWhole blocks_path d p block)
          × (((length missing ≤ p) × (parity_count ≡ p)) ↔ IsMendable blocks_path d p block)
    block_iff block label names lists =
        let segments_dir = join (join blocks_path block) (text "segments") in
        let parity_dir = join (join blocks_path block) (text "parity") in
        let count = min (count_segments names) d in
        let (sum, (all, all')) =
          count_existing_iff segments_dir segment_file (λ i. label (segment_file i)) 0 count in
        let (par_sum, (par_all, par_all')) =
          count_existing_iff parity_dir block_parity_file (λ i. label (block_parity_file i)) 0 p in
        let alike =
          count_existing-label segments_dir segment_file (λ i. label (segment_file i)) segment_file
            0 count in
        let counted : HasParity blocks_path p block
            → (count_existing H F w parity_dir block_parity_file (λ i. label (block_parity_file i))
                0 p).0
              ≡ p =
          λ q. omega (arith, par_sum, par_all' q) in
        let same : (names' : List Text) → F.read_dir w segments_dir ≡ ok names' → names' ≡ names =
          λ names' lists'. ok_inj (sym lists' ∙ lists) in
        (
          (
            λ (m, q). (names, lists, all m, par_all (omega (arith, par_sum, q))),
            λ (names', lists', s, q). (
              all' (
                  subst (λ ns. HasFiles segments_dir segment_file 0 (min (count_segments ns) d))
                    (same names' lists') s),
              counted q,
            ),
          ),
          (
            λ (m, q).
                (names, lists, omega (arith, m, alike, sum), par_all (omega (arith, par_sum, q))),
            λ (names', lists', s, q). (
              (let t =
                    subst
                      (λ ns.
                        min (count_segments ns) d
                        ≤ (count_existing H F w segments_dir segment_file segment_file 0
                            (min (count_segments ns) d)).0
                          + p)
                      (same names' lists') s in
                  omega (arith, t, alike, sum)),
              counted q,
            ),
          ),
        )

    -- What the loop finds.
    pub record Judges (blocks : List Text) (found : BlockFindings) : Type 0 where
      pub counts : Counts found
      pub whole : (found.healthy_blocks ≡ found.total_blocks) ↔ All (IsWhole blocks_path d p) blocks
      pub mendable : (found.unrecoverable_blocks ≡ 0) ↔ All (IsMendable blocks_path d p) blocks

    check_blocks-Judges :
        (blocks : List Text)
        → All (HasListing blocks_path) blocks
        → (found : BlockFindings) × (check_blocks H F w blocks_path d p blocks ≡ ok found)
          × Judges blocks found
    unfolding check_blocks
    check_blocks-Judges [] listed = (
      _,
      refl,
      record { counts = refl; whole = (λ h. tt, λ h. refl); mendable = (λ h. tt, λ h. refl) },
    )
    check_blocks-Judges (b ∷ blocks) ((names, lists), listed) =
        let (rest, e, J) = check_blocks-Judges blocks listed in
        let label : Text → Text = λ name. b ++ (text "/" ++ name) in
        let segments =
          count_existing H F w (join (join blocks_path b) (text "segments")) segment_file
            (λ i. label (segment_file i)) 0 (min (count_segments names) d) in
        let parity =
          count_existing H F w (join (join blocks_path b) (text "parity")) block_parity_file
            (λ i. label (block_parity_file i)) 0 p in
        let ((whole, whole'), (mends, mends')) = block_iff b label names lists in
        let (counts, (all_whole, all_whole'), (all_mend, all_mend')) =
          add_block_lem p segments.1 parity.0 parity.1 (length segments.1) rest J.counts in
        (
          add_block p segments.1 parity.0 parity.1 (length segments.1) rest,
          rw (lists, e) refl,
          record {
            counts = counts;
            whole = (
              λ h. (let (m, q, r) = all_whole h in (whole (m, q), J.whole.0 r)),
              λ (here, r). (let (m, q) = whole' here in all_whole' (m, q, J.whole.1 r)),
            );
            mendable = (
              λ h. (let (m, q, r) = all_mend h in (mends (m, q), J.mendable.0 r)),
              λ (here, r). (let (m, q) = mends' here in all_mend' (m, q, J.mendable.1 r)),
            );
          },
        )

  -- The check of a file of tier 3 whose blocks can be listed returns a report. Its status is healthy
  -- exactly if in every block the first segment files, as many as there are and at most
  -- `data_shards`, and all parity files exist. It says that the file can be recovered exactly if in
  -- every block no more of these segment files are missing than there are parity files, and all of
  -- those exist. The status is never degraded.
  pub health_check_block-healthy_iff :
      (file_obj : File) (dir : PathBuf) (names : List Text)
      → parent_dir file_obj.file_data.path ≡ some dir
      → F.read_dir w (join dir (text "blocks")) ≡ ok names
      → All
          (HasListing (join dir (text "blocks")))
          (directories_of H F w (join dir (text "blocks")) names)
      → (report : HealthReport) × (health_check_block H F w file_obj ≡ ok report)
        × ((report.status ≡ healthy)
            ↔ All
                (IsWhole
                  (join dir (text "blocks"))
                  (clamp_usize file_obj.manifest.erasure_coding.data_shards)
                  (clamp_usize file_obj.manifest.erasure_coding.parity_shards))
                (directories_of H F w (join dir (text "blocks")) names))
        × ((report.can_recover ≡ true)
            ↔ All
                (IsMendable
                  (join dir (text "blocks"))
                  (clamp_usize file_obj.manifest.erasure_coding.data_shards)
                  (clamp_usize file_obj.manifest.erasure_coding.parity_shards))
                (directories_of H F w (join dir (text "blocks")) names))
        × (is_degraded report.status ≡ false)
  unfolding health_check_block
  health_check_block-healthy_iff file_obj dir names here blocks listed =
      let (found, e, J) =
        check_blocks-Judges (join dir (text "blocks"))
          (clamp_usize file_obj.manifest.erasure_coding.data_shards)
          (clamp_usize file_obj.manifest.erasure_coding.parity_shards)
          (directories_of H F w (join dir (text "blocks")) names) listed in
      let ((status, status'), (recovers, recovers'), never) = block_status_lem found J.counts in
      (
        block_report found,
        rw (here, blocks, e) refl,
        (λ h. J.whole.0 (status h), λ h. status' (J.whole.1 h)),
        (λ h. J.mendable.0 (recovers h), λ h. recovers' (J.mendable.1 h)),
        never,
      )
