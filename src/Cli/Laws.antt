-- ===== src/Cli/Laws.antt =====
-- What the command `health` of src/bin/main.rs does with files of tier 2.
use blockframe_rs.Base.{
  ◌+◌, ◌<◌, ◌||◌, ◌≡◌, refl, subst, List, [], ◌∷◌, All, Text, text_eq, text_eq_refl, ok, ok_inj,
  >>=-eq-ok, Bool-cases, inl, inr, ltb, true, arith,
}
use blockframe_rs.Utils.{Hasher}
use blockframe_rs.ReedSolomon.{ReedSolomon}
use blockframe_rs.Disk.{PathBuf, FileSystem}
use blockframe_rs.Chunker.Io.{Serde}
use blockframe_rs.Filestore.Models.{File, HealthReport, BatchHealthReport}
use blockframe_rs.Filestore.Index.{get_all, find_in, find}
use blockframe_rs.Filestore.Health.Blocks.{health_check, batch_health_check, tally, is_healthy}
use blockframe_rs.Filestore.Repair.Idle.{IsBare, repair_bare}
use blockframe_rs.Cli.{try_repair, repair_reports, run_health, checked_again}

-- A name under which the files hold such a file.
abbrev pub Found : List File → Text → Type 0
Found files name = (file : File) × (find_in name files ≡ ok file) × IsBare file

Found-cons :
    (f : File) (files : List File)
    → IsBare f
    → (name : Text) → Found files name
    → Found (f ∷ files) name
unfolding find_in
Found-cons f files b name (file, e, c) = elim (Bool-cases (text_eq f.file_name name)) [
  | inl same ↦ (f, rw same refl, b)
  | inr other ↦ (file, rw (other, e) refl, c)
]

All-weaken :
    (P Q : Text → Type 0) (files : List File)
    → ((name : Text) → P name → Q name)
    → All (λ (f : File). P f.file_name) files
    → All (λ (f : File). Q f.file_name) files
All-weaken P Q [] h all = tt
All-weaken P Q (f ∷ files) h (p, all) = (h f.file_name p, All-weaken P Q files h all)

All-Found :
    (files : List File) → All IsBare files → All (λ (f : File). Found files f.file_name) files
unfolding find_in
All-Found [] b = tt
All-Found (f ∷ files) (here, b) =
    let same = text_eq_refl f.file_name in
    (
      (f, rw same refl, here),
      All-weaken (Found files) (Found (f ∷ files)) files (Found-cons f files here)
          (All-Found files b),
    )

module _ (H : Hasher) (F : FileSystem) (w : F.World) where
  batch-reports :
      (P : Text → Type 0) (files : List File) (b : BatchHealthReport)
      → All (λ (f : File). P f.file_name) files
      → batch_health_check H F w files ≡ ok b
      → All (λ (r : Text × HealthReport). P r.0) b.reports
  unfolding batch_health_check tally
  batch-reports P [] b all h =
      subst (λ (x : BatchHealthReport). All (λ (r : Text × HealthReport). P r.0) x.reports)
        (ok_inj h) tt
  batch-reports P (f ∷ files) b (p, all) h =
      let (report, _, h₁) = >>=-eq-ok (health_check H F w f) _ h in
      let (rest, below, h₂) = >>=-eq-ok (batch_health_check H F w files) _ h₁ in
      subst (λ (x : BatchHealthReport). All (λ (r : Text × HealthReport). P r.0) x.reports)
        (ok_inj h₂) (p, batch-reports P files rest all below)

module _ (H : Hasher) (R : ReedSolomon) (F : FileSystem) (J : Serde) (w : F.World) where
  module _ (store : PathBuf) (files : List File) (listed : get_all F J w store ≡ ok files) where
    try_repair_bare :
        (name : Text) → Found files name → try_repair H R F J store name w ≡ (ok tt, w)
    unfolding find
    try_repair_bare name (file, found, bare) =
        let same = repair_bare H R F w file bare in rw (listed, found, same) refl

    repair_reports_bare :
        (reports : List (Text × HealthReport))
        → All (λ (r : Text × HealthReport). Found files r.0) reports
        → repair_reports H R F J store reports w ≡ (ok tt, w)
    unfolding repair_reports
    repair_reports_bare [] found = refl
    repair_reports_bare ((name, report) ∷ reports) (here, found) =
        let below = repair_reports_bare reports found in
        let first = try_repair_bare name here in
        elim (Bool-cases (is_healthy report.status)) [
          | inl fine ↦ rw (fine, below) refl
          | inr ill ↦ rw (ill, first, below) refl
        ]

    -- Over a store whose files are of tier 2 and have no leaves in their manifests, as the commit
    -- writes them, the command `health` repairs nothing: where the check finds files that it calls
    -- recoverable or degraded, the command tries the repairs, reports the same check again, and
    -- leaves the disk as it was.
    pub run_health_idle :
        All IsBare files
        → (report : BatchHealthReport) → batch_health_check H F w files ≡ ok report
        → 0 < report.recoverable_files + report.degraded_files
        → run_health H R F J store w ≡ (ok (checked_again report), w)
    unfolding run_health
    run_health_idle bare report checked some_ill =
        let found = batch-reports H F w (Found files) files report (All-Found files bare) checked in
        let idle = repair_reports_bare report.reports found in
        let tries : (ltb 0 report.recoverable_files || ltb 0 report.degraded_files) ≡ true =
          ground arith in
        rw (listed, checked, tries, idle, listed, checked) refl
