-- ===== src/Filestore/Health/Batch.antt =====
-- `batch_health_check` of src/filestore/health.rs.
use blockframe_rs.Base.{
  ℕ, ◌+◌, ◌≡◌, refl, subst, List, [], ◌∷◌, Text, ok, ok_inj, >>=-eq-ok, length, arith, ◌==◌,
  if◌then◌else◌,
}
use blockframe_rs.Utils.{Hasher}
use blockframe_rs.Filestore.Models.{
  FileSystem, File, HealthStatus, healthy, degraded, recoverable, unrecoverable, HealthReport,
  BatchHealthReport,
}
use blockframe_rs.Filestore.Health.Blocks.{tally, health_check, batch_health_check}

-- The statuses, numbered.
abbrev number_of : HealthStatus → ℕ
number_of healthy = 0
number_of degraded = 1
number_of recoverable = 2
number_of unrecoverable = 3

-- How many reports have a status.
abbrev pub count : HealthStatus → List (Text × HealthReport) → ℕ
count status [] = 0
count status ((name, report) ∷ reports) =
    let rest = count status reports in
    if number_of report.status == number_of status then rest + 1 else rest

module _ (H : Hasher) (F : FileSystem) (w : F.World) where
  -- A report for each file, in order, under the file's name, which is what its check gives.
  abbrev pub AreReportsOf : List File → List (Text × HealthReport) → Type 0
  AreReportsOf [] [] = Unit
  AreReportsOf [] (r ∷ reports) = ⊥
  AreReportsOf (file ∷ files) [] = ⊥
  AreReportsOf (file ∷ files) ((name, report) ∷ reports) =
      (name ≡ file.file_name) × (health_check H F w file ≡ ok report) × AreReportsOf files reports

  -- A batch with the reports of the files, in which each counter is the number of reports with its
  -- status.
  pub record Tallies (files : List File) (b : BatchHealthReport) : Type 0 where
    pub reports_are : AreReportsOf files b.reports
    pub total_is : b.total_files ≡ length files
    pub healthy_is : b.healthy_files ≡ count healthy b.reports
    pub degraded_is : b.degraded_files ≡ count degraded b.reports
    pub recoverable_is : b.recoverable_files ≡ count recoverable b.reports
    pub unrecoverable_is : b.unrecoverable_files ≡ count unrecoverable b.reports

  tally-Tallies :
      (file : File) (files : List File) (report : HealthReport) (b : BatchHealthReport)
      → health_check H F w file ≡ ok report
      → Tallies files b
      → Tallies (file ∷ files) (tally file.file_name report b)
  unfolding tally
  tally-Tallies file files report b e t = record {
    reports_are = (refl, e, t.reports_are);
    total_is = omega (arith, t.total_is);
    healthy_is = let h = t.healthy_is in ground arith;
    degraded_is = let h = t.degraded_is in ground arith;
    recoverable_is = let h = t.recoverable_is in ground arith;
    unrecoverable_is = let h = t.unrecoverable_is in ground arith;
  }

  -- A check of all files that returns has a report for each file, in order, under the file's name:
  -- the one that the check of that file gives. It counts the files, and its four counters are the
  -- numbers of the reports with each status.
  pub batch_health_check-Tallies :
      (files : List File) (b : BatchHealthReport)
      → batch_health_check H F w files ≡ ok b
      → Tallies files b
  unfolding batch_health_check
  batch_health_check-Tallies [] b h = subst (Tallies []) (ok_inj h) (record {
    reports_are = tt;
    total_is = refl;
    healthy_is = refl;
    degraded_is = refl;
    recoverable_is = refl;
    unrecoverable_is = refl;
  })
  batch_health_check-Tallies (file ∷ files) b h =
      let (report, checked, h₁) = >>=-eq-ok (health_check H F w file) _ h in
      let (rest, below, h₂) = >>=-eq-ok (batch_health_check H F w files) _ h₁ in
      subst (Tallies (file ∷ files)) (ok_inj h₂)
        (tally-Tallies file files report rest checked (batch_health_check-Tallies files rest below))
