-- ===== src/Filestore/Repair/Archived.antt =====
-- The repair of src/filestore/health.rs on a file of tier 1 that a commit archived.
use blockframe_rs.Base.{
  ℕ, ◌<◌, ◌≡◌, ◌≢◌, refl, ap, ◌∙◌, sym, subst, ◌⊎◌, inl, inr, true, false, some, List, [], ◌∷◌,
  Text, Bytes, ok, length, get_elem?, resize, get_elem?-of_lt, text_eq, text_eq_iff, ◌==◌, ok_inj,
  Bool-cases, arith,
}
use blockframe_rs.Base.Exec.Ends.{Ends, Ends-weaken, Ends-eq-ok}
use blockframe_rs.Utils.{Hasher, blake3_hash_bytes}
use blockframe_rs.ReedSolomon.{ReedSolomon, IsReplicating}
use blockframe_rs.Disk.{PathBuf, join, parent_dir, FileSystem}
use blockframe_rs.Disk.Laws.{IsFileSystem, Holds, Keeps, Holds-Keeps, parent_dir-join}
use blockframe_rs.Disk.Names.{data_file, parity_file, manifest_file}
use blockframe_rs.Chunker.Io.{Serde}
use blockframe_rs.Chunker.Generate.{padded_size}
use blockframe_rs.Chunker.Commit.Tiny.{IsTinyArchive}
use blockframe_rs.Filestore.Models.{
  File, HealthStatus, healthy, degraded, recoverable, unrecoverable, HealthReport,
}
use blockframe_rs.Filestore.Index.{find}
use blockframe_rs.Filestore.Index.Laws.{IsSerde, found-IsSame, find-IsIndexed}
use blockframe_rs.Filestore.Health.{health_check_tiny}
use blockframe_rs.Filestore.Health.Laws.{HasData, health_check_tiny-healthy_iff}
use blockframe_rs.Filestore.Health.Blocked.{count_existing_iff}
use blockframe_rs.Filestore.Health.Blocks.{health_check, is_healthy}
use blockframe_rs.Filestore.Repair.{already_valid, read_files, repair_tiny}
use blockframe_rs.Filestore.Repair.Blocked.{repair}
use blockframe_rs.Filestore.Repair.Laws.{Writes, Hold, available, repair_tiny_restores}

three_shards :
    (shards : List Bytes) → length shards ≡ 3 → (p q r : Bytes) × (shards ≡ p ∷ q ∷ r ∷ [])
three_shards [] h = absurd (omega (arith, h))
three_shards (p ∷ []) h = absurd (omega (arith, h))
three_shards (p ∷ q ∷ []) h = absurd (omega (arith, h))
three_shards (p ∷ q ∷ r ∷ []) h = (p, q, r, refl)
three_shards (p ∷ q ∷ r ∷ s ∷ shards) h = absurd (omega (arith, h))

is_healthy-ne : (s : HealthStatus) → s ≢ healthy → is_healthy s ≡ false
is_healthy-ne healthy h = absurd (h refl)
is_healthy-ne degraded h = refl
is_healthy-ne recoverable h = refl
is_healthy-ne unrecoverable h = refl

health_check-tiny :
    (H : Hasher) (F : FileSystem) (v : F.World) (obj : File)
    → obj.manifest.tier ≡ 1
    → health_check H F v obj ≡ health_check_tiny H F v obj
unfolding health_check
health_check-tiny H F v obj tiny =
    let one : (obj.manifest.tier == 1) ≡ true = ground arith in rw one refl

IsFileSystem-Writes : (F : FileSystem) {E : Type 0} → IsFileSystem F E → Writes F
IsFileSystem-Writes F D = record {
  written = λ w path bytes done.
      (let (held, _) = Ends-eq-ok tt (D.writes path bytes w) done in held.reads);
}

module _ (H : Hasher) (R : ReedSolomon) (F : FileSystem) (J : Serde) (dir : PathBuf) (name : Text)
    (file : Bytes) (w : F.World) (A : IsTinyArchive H R F J dir name file w) (v : F.World) where
  -- The data of the file is gone, or what is there has another hash.
  abbrev pub IsDamaged : Type 0
  IsDamaged =
      (F.exists v (join dir data_file) ≡ false)
      ⊎ ((F.exists v (join dir data_file) ≡ true)
          × ((bytes : Bytes) × (F.read v (join dir data_file) ≡ ok bytes)
              × (blake3_hash_bytes H bytes ≢ blake3_hash_bytes H file)))

  -- The parity files are as they were.
  abbrev pub KeepsParity : Type 0
  KeepsParity = (k : ℕ) → k < 3 → Keeps F w v (join dir (parity_file k))

  damaged-no_data : IsDamaged → HasData H F v (join dir data_file) (blake3_hash_bytes H file) → ⊥
  damaged-no_data (inl gone) (there, _) = absurd (cc)
  damaged-no_data (inr (_, (bytes, reads, other))) (there, (bytes', reads', same)) =
      let both : bytes' ≡ bytes = ok_inj (sym reads' ∙ reads) in
      other (ap (blake3_hash_bytes H) (sym both) ∙ same)

  damaged-already_valid :
      IsDamaged → already_valid H R F v (join dir data_file) (blake3_hash_bytes H file) ≡ ok false
  unfolding already_valid
  damaged-already_valid (inl gone) = rw gone refl
  damaged-already_valid (inr (there, (bytes, reads, other))) =
      elim (Bool-cases (text_eq (blake3_hash_bytes H bytes) (blake3_hash_bytes H file))) [
        | inl same ↦
            absurd
              (other ((text_eq_iff (blake3_hash_bytes H bytes) (blake3_hash_bytes H file)).0 same))
        | inr differs ↦ rw (there, reads, differs) refl
      ]

  parity_held :
      KeepsParity
      → (k : ℕ) (shard : Bytes) → k < 3
      → get_elem? A.parity k ≡ some shard
      → Holds F v (join dir (parity_file k)) shard
  parity_held kept k shard l at = Holds-Keeps (A.parity_there k shard at) (kept k l)

  parity_exists : KeepsParity → (k : ℕ) → k < 3 → F.exists v (join dir (parity_file k)) ≡ true
  parity_exists kept k l =
      let (shard, at) = get_elem?-of_lt A.parity k (omega (arith, A.three)) in
      let held = parity_held kept k shard l at in held.there

  parity_read :
      KeepsParity
      → (p q r : Bytes) → A.parity ≡ p ∷ q ∷ r ∷ []
      → read_files H R F v dir parity_file 0 3 ≡ ok p ∷ ok q ∷ ok r ∷ []
  unfolding read_files
  parity_read kept p q r e =
      let at : (k : ℕ) → get_elem? A.parity k ≡ get_elem? (p ∷ q ∷ r ∷ []) k =
        λ k. ap (λ shards. get_elem? shards k) e in
      let a = (parity_held kept 0 p (omega arith) (at 0)).reads in
      let b = (parity_held kept 1 q (omega arith) (at 1)).reads in
      let c = (parity_held kept 2 r (omega arith) (at 2)).reads in rw (a, b, c) refl

  module _ (obj : File) (at : obj.file_data.path ≡ join dir manifest_file)
      (hash : obj.file_data.hash ≡ blake3_hash_bytes H file) (tiny : obj.manifest.tier ≡ 1)
      (size : obj.manifest.segment_size ≡ padded_size (length file)) (damaged : IsDamaged)
      (kept : KeepsParity) where
    here : parent_dir obj.file_data.path ≡ some dir
    here = ap parent_dir at ∙ parent_dir-join dir manifest_file

    -- The check finds the damage, and the parity.
    recoverable_report :
        (report : HealthReport) × (health_check H F v obj ≡ ok report)
        × (report.can_recover ≡ true)
        × (is_healthy report.status ≡ false)
    recoverable_report =
        let (report, checked, (sound, _), (_, recovers)) =
          health_check_tiny-healthy_iff H F v obj dir here in
        let (sum, (_, none_absent)) = count_existing_iff H F v dir parity_file parity_file 0 3 in
        let all_there = none_absent (λ k l.
          subst (λ i. F.exists v (join dir (parity_file i)) ≡ true) (omega arith)
            (parity_exists kept k l)) in
        (
          report,
          health_check-tiny H F v obj tiny ∙ checked,
          recovers (omega (arith, sum, all_there)),
          is_healthy-ne report.status (λ well.
              damaged-no_data damaged
                (subst (HasData H F v (join dir data_file)) hash (sound well).0)),
        )

    repair-eq : repair H R F obj v ≡ repair_tiny H R F obj v
    unfolding repair
    repair-eq =
        let (report, checked, can, ill) = recoverable_report in rw (checked, can, ill, tiny) refl

    repair-writes :
        {E : Type 0}
        → IsReplicating R
        → IsFileSystem F E
        → 0 < length file
        → repair H R F obj v
          ≡ F.write (join dir data_file) (resize file (padded_size (length file))) v
    repair-writes L D full =
        let (p, q, r, three) = three_shards A.parity A.three in
        let reads = parity_read kept p q r three in
        let hold : Hold R 0 (p ∷ q ∷ r ∷ []) (read_files H R F v dir parity_file 0 3) =
          subst (Hold R 0 (p ∷ q ∷ r ∷ [])) (sym reads) (
            λ bytes h. ap some (ok_inj h),
            (λ bytes h. ap some (ok_inj h), (λ bytes h. ap some (ok_inj h), tt)),
          ) in
        repair-eq
        ∙ (repair_tiny_restores H R F L (IsFileSystem-Writes F D) obj dir v file (p ∷ q ∷ r ∷ []) 0
            p ((1, q) ∷ (2, r) ∷ []) here
            (ap (already_valid H R F v (join dir data_file)) hash ∙ damaged-already_valid damaged)
            full size (A.generated ∙ ap ok three) hold (ap (available R 0) reads)).0

-- A file of tier 1 that is not empty, was archived and is found by the index in its archive, with a
-- code, a disk and a serializer that do what they document. In a later state in which its data file
-- is gone, or can be read and has another hash, and its parity files are as they were, `repair`
-- notices that: unless an operation of the disk fails it returns, and the data file then holds the
-- file's bytes, filled up with zeros to a multiple of 64 bytes.
pub repair-IsTinyArchive :
    (H : Hasher) (R : ReedSolomon) (F : FileSystem) (J : Serde) {E : Type 0}
    → IsReplicating R
    → IsFileSystem F E
    → IsSerde J
    → (store dir : PathBuf) (name : Text) (file : Bytes) (w : F.World)
      (A : IsTinyArchive H R F J dir name file w) (obj : File) (v : F.World)
    → find F J w store name ≡ ok obj
    → obj.file_data.path ≡ join dir manifest_file
    → 0 < length file
    → IsDamaged H R F J dir name file w A v
    → KeepsParity H R F J dir name file w A v
    → Ends E
        (λ _ u. Holds F u (join dir data_file) (resize file (padded_size (length file))))
        (repair H R F obj v)
repair-IsTinyArchive H R F J {E} L D N store dir name file w A obj v found at full damaged kept =
    let same = found-IsSame F J N store name dir w obj found at A.manifest A.manifest_there in
    let (indexed, _) = find-IsIndexed F J w store name obj found in
    let padded = resize file (padded_size (length file)) in
    let writes =
      repair-writes H R F J dir name file w A v obj at
        (indexed.hash_is ∙ same.original_hash ∙ A.hashed) (same.tier ∙ A.is_tiny)
        (same.segment_size ∙ A.padded) damaged kept L D full in
    subst (Ends E (λ _ u. Holds F u (join dir data_file) padded)) (sym writes)
      (Ends-weaken (D.writes (join dir data_file) padded v) (λ _ u (held, _). held))
