-- ===== src/Filestore/Health/Laws.antt =====
-- What the health checks of src/filestore/health.rs report.
use blockframe_rs.Base.{
  ◌<◌, ℕ, ◌+◌, ◌≡◌, refl, ap, ◌∙◌, ◌↔◌, inl, inr, Bool, true, some, List, [], ◌∷◌, Text, Bytes,
  text, text_eq, text_eq_iff, eq_of_text_eq, ok, length, All, clamp_usize, Bool-cases, Result-cases,
  arith,
}
use blockframe_rs.Utils.{Hasher, blake3_hash_bytes}
use blockframe_rs.Manifest.{SegmentHashes}
use blockframe_rs.Filestore.Models.{
  PathBuf, join, parent_dir, FileSystem, File, healthy, HealthReport,
}
use blockframe_rs.Filestore.Health.{
  data_file, parity_file, segment_file, tiny_status, SegmentFindings, segment_status, check_data,
  count_existing, health_check_tiny, check_segments, health_check_segment, is_valid, segment_report,
  tiny_report,
}

module _ (H : Hasher) (F : FileSystem) (w : F.World) where
  -- That the data of a file of tier 1 can be read, and has the file's hash.
  abbrev pub HasData : PathBuf → Text → Type 0
  HasData path hash =
      (F.exists w path ≡ true)
      × ((bytes : Bytes) × (F.read w path ≡ ok bytes) × (blake3_hash_bytes H bytes ≡ hash))

  check_data_valid_iff :
      (path : PathBuf) (hash : Text)
      → (is_valid (check_data H F w path hash) ≡ true) ↔ HasData path hash
  unfolding check_data
  check_data_valid_iff path hash = elim (Bool-cases (F.exists w path)) [
    | inr gone ↦ (λ h. ground arith, λ (h, _). ground arith)
    | inl there ↦ elim (Result-cases (F.read w path)) [
      | inr (e, r) ↦ (λ h. ground arith, λ (h, (bytes, r', _)). cc)
      | inl (bytes, r) ↦ (
        λ h. (there, (bytes, r, ground (arith, eq_of_text_eq (blake3_hash_bytes H bytes) hash))),
        λ (h, (other, r', e)).
            (let same : bytes ≡ other = cc in
              ground (
                arith,
                (text_eq_iff (blake3_hash_bytes H bytes) hash).1
                    (ap (blake3_hash_bytes H) same ∙ e),
              )),
      )
    ]
  ]

  -- That the manifest's hash of a segment is the hash of what its file holds.
  abbrev pub IsIntact : PathBuf → ℕ × SegmentHashes → Type 0
  IsIntact segments_path (idx, info) =
      (bytes : Bytes) × (F.read w (join segments_path (segment_file idx)) ≡ ok bytes)
      × (blake3_hash_bytes H bytes ≡ info.segment_data)

  check_segments_iff :
      (segments_path parity_path : PathBuf) (n : ℕ) (segments : List (ℕ × SegmentHashes))
      → ((length (check_segments H F w segments_path parity_path n segments).missing_data
            + length (check_segments H F w segments_path parity_path n segments).corrupt_segments)
          ≡ 0)
        ↔ All (IsIntact segments_path) segments
  unfolding check_segments
  check_segments_iff segments_path parity_path n [] = (λ h. tt, λ h. refl)
  check_segments_iff segments_path parity_path n ((idx, info) ∷ segments) =
      let (ih, ih') = check_segments_iff segments_path parity_path n segments in
      elim (Result-cases (F.read w (join segments_path (segment_file idx)))) [
        | inr (e, r) ↦ (λ h. ground arith, λ ((bytes, r', _), _). cc)
        | inl (bytes, r) ↦
            elim (Bool-cases (text_eq (blake3_hash_bytes H bytes) info.segment_data)) [
              | inr other ↦ (
                λ h. ground arith,
                λ ((same, r', e), rest).
                    let b_eq : bytes ≡ same = cc in
                    let t =
                      (text_eq_iff (blake3_hash_bytes H bytes) info.segment_data).1
                        (ap (blake3_hash_bytes H) b_eq ∙ e) in
                    ground arith,
              )
              | inl same ↦ (
                λ h. (
                  (bytes, r, eq_of_text_eq (blake3_hash_bytes H bytes) info.segment_data same),
                  ih (ground arith),
                ),
                λ (_, rest). let none_below = ih' rest in ground arith,
              )
            ]
      ]

  segment_status_iff :
      (found : SegmentFindings) (n : ℕ)
      → ((segment_status found n).0 ≡ healthy)
        ↔ ((length found.missing_data + length found.corrupt_segments) ≡ 0)
  unfolding segment_status
  segment_status_iff found n = ground arith

  -- The check of a file of tier 2 that has a directory returns a report. Its status is healthy
  -- exactly if every segment in the manifest can be read and has its hash, whatever the parity.
  pub health_check_segment-healthy_iff :
      (file_obj : File) (dir : PathBuf)
      → parent_dir file_obj.file_data.path ≡ some dir
      → (report : HealthReport) × (health_check_segment H F w file_obj ≡ ok report)
        × ((report.status ≡ healthy)
            ↔ All (IsIntact (join dir (text "segments"))) file_obj.manifest.merkle_tree.segments)
  unfolding health_check_segment
  health_check_segment-healthy_iff file_obj dir here =
      let n = clamp_usize file_obj.manifest.erasure_coding.parity_shards in
      let segments = file_obj.manifest.merkle_tree.segments in
      let found =
        check_segments H F w (join dir (text "segments")) (join dir (text "parity")) n segments in
      let (status, status') = segment_status_iff found n in
      let (intact, intact') =
        check_segments_iff (join dir (text "segments")) (join dir (text "parity")) n segments in
      (segment_report found n, rw here refl, (λ h. intact (status h), λ h. status' (intact' h)))

  count_three :
      (dir : PathBuf) (name label : ℕ → Text)
      → ((count_existing H F w dir name label 0 3).0 ≡ 3) ↔ (
          (F.exists w (join dir (name 0)) ≡ true)
          × (F.exists w (join dir (name 1)) ≡ true)
          × (F.exists w (join dir (name 2)) ≡ true))
  unfolding count_existing
  count_three dir name label = ground arith

  tiny_status_iff :
      (b : Bool) (n : ℕ)
      → (((tiny_status b n).0 ≡ healthy) ↔ ((b ≡ true) × (n ≡ 3)))
        × (((tiny_status b n).1 ≡ true) ↔ (0 < n))
  unfolding tiny_status
  tiny_status_iff b n = ground arith

  -- The check of a file of tier 1 that has a directory returns a report. Its status is healthy
  -- exactly if the data can be read and has the file's hash and the three parity files exist; it
  -- says that the file can be recovered exactly if it counts a parity file, even for intact data.
  pub health_check_tiny-healthy_iff :
      (file_obj : File) (dir : PathBuf)
      → parent_dir file_obj.file_data.path ≡ some dir
      → (report : HealthReport) × (health_check_tiny H F w file_obj ≡ ok report)
        × ((report.status ≡ healthy) ↔ (
            HasData (join dir data_file) file_obj.file_data.hash
            × ((F.exists w (join dir (parity_file 0)) ≡ true)
                × (F.exists w (join dir (parity_file 1)) ≡ true)
                × (F.exists w (join dir (parity_file 2)) ≡ true))))
        × ((report.can_recover ≡ true)
            ↔ (0 < (count_existing H F w dir parity_file parity_file 0 3).0))
  unfolding health_check_tiny
  health_check_tiny-healthy_iff file_obj dir here =
      let content = check_data H F w (join dir data_file) file_obj.file_data.hash in
      let counted = count_existing H F w dir parity_file parity_file 0 3 in
      let ((status, status'), recovers) = tiny_status_iff (is_valid content) counted.0 in
      let (data_in, data_in') = check_data_valid_iff (join dir data_file) file_obj.file_data.hash in
      let (three, three') = count_three dir parity_file parity_file in
      (
        tiny_report content counted,
        rw here refl,
        (
          λ h. (data_in ((status h).0), three ((status h).1)),
          λ (d, t). status' (data_in' d, three' t),
        ),
        recovers,
      )
