-- ===== src/Cli.antt =====
-- The commands of src/bin/main.rs, once the arguments are parsed. The server, the mount by the
-- operating system and the output are parameters or left out.
pub mod Laws
use blockframe_rs.Base.{
  ℕ, ◌||◌, Option, none, some, List, [], ◌∷◌, Text, Result, ok, err, message, text, ltb, ◌>>=◌,
  if◌then◌else◌,
}
use blockframe_rs.Base.Exec.{Exec, proceed}
use blockframe_rs.Utils.{Hasher}
use blockframe_rs.ReedSolomon.{ReedSolomon}
use blockframe_rs.Disk.{PathBuf, FileSystem}
use blockframe_rs.Config.{Config, Toml, load}
use blockframe_rs.Chunker.{new_chunker}
use blockframe_rs.Chunker.Io.{Serde}
use blockframe_rs.Chunker.Commit.Blocked.{commit}
use blockframe_rs.Filestore.Models.{HealthReport, BatchHealthReport}
use blockframe_rs.Filestore.Index.{get_all, find}
use blockframe_rs.Filestore.Health.Blocks.{batch_health_check, is_healthy}
use blockframe_rs.Filestore.Repair.Blocked.{repair}

pub data Commands : Type 0 where
  commit_file : PathBuf → Commands
  serve : Option PathBuf → Option ℕ → Commands
  mount : Option PathBuf → Option PathBuf → Option Text → Commands
  health : Option PathBuf → Commands

-- `archive.unwrap_or_else(|| config.archive.directory.clone())`, and the like.
abbrev pub given_or : {A : Type 0} → Option A → A → A
given_or (some a) default = a
given_or none default = default

-- Where a mount reads from: a server, or an archive on this machine.
pub data Origin : Type 0 where
  remote_at : Text → Origin
  local_at : PathBuf → Origin

abbrev pub default_origin : Config → Text → Origin
default_origin config [] = local_at config.archive.directory
default_origin config (c ∷ url) = remote_at (c ∷ url)

-- `source`
unfoldable pub choose_source : Config → Option PathBuf → Option Text → Origin
choose_source config archive (some url) = remote_at url
choose_source config (some path) none = local_at path
choose_source config none none = default_origin config config.mount.default_remote

-- What the command `health` says at the end: that all files are healthy, or the check after the
-- repairs.
pub data HealthOutcome : Type 0 where
  all_files_healthy : HealthOutcome
  checked_again : BatchHealthReport → HealthOutcome

module _ (H : Hasher) (R : ReedSolomon) (F : FileSystem) (J : Serde) where
  -- `store.batch_health_check()`
  abbrev pub check_store : PathBuf → F.World → Result BatchHealthReport
  check_store store w = get_all F J w store >>= batch_health_check H F w

  -- A repair of one file; its error goes to the log.
  abbrev pub try_repair : PathBuf → Text → Exec F.World (Unit {0})
  try_repair store filename w =
      proceed (find F J w store filename, w) (λ file w'. (ok tt, (repair H R F file w').1))

  -- The loop over the reports.
  unfoldable pub repair_reports : PathBuf → List (Text × HealthReport) → Exec F.World (Unit {0})
  repair_reports store [] w = (ok tt, w)
  repair_reports store ((filename, report) ∷ reports) w =
      if is_healthy report.status
      then repair_reports store reports w
      else proceed (try_repair store filename w) (λ _. repair_reports store reports)

  unfoldable pub run_health : PathBuf → Exec F.World HealthOutcome
  run_health store w =
      proceed (check_store store w, w)
        (λ batch_report w₀.
          if ltb 0 batch_report.recoverable_files || ltb 0 batch_report.degraded_files
          then proceed (repair_reports store batch_report.reports w₀) (λ _ w₁.
            proceed (check_store store w₁, w₁)
              (λ post_repair w₂. (ok (checked_again post_repair), w₂)))
          else (ok all_files_healthy, w₀))

  -- What a command came to.
  pub data Done : Type 0 where
    committed : Done
    health_done : HealthOutcome → Done
    served : Done
    mounted : Done

  -- The match on the command. `run_server` and `mount_at` are what serves an archive at a port, and
  -- what mounts a source at a path until it is unmounted.
  unfoldable pub run_command :
      (PathBuf → ℕ → Exec F.World (Unit {0}))
      → (Origin → PathBuf → Exec F.World (Unit {0}))
      → ℕ
      → Config
      → Commands
      → Exec F.World Done
  run_command run_server mount_at available_ram config (commit_file file) w =
      proceed (commit H R F J new_chunker available_ram file w) (λ _ w'. (ok committed, w'))
  run_command run_server mount_at available_ram config (health archive) w =
      proceed (run_health (given_or archive config.archive.directory) w)
        (λ outcome w'. (ok (health_done outcome), w'))
  run_command run_server mount_at available_ram config (serve archive port) w =
      proceed
        (run_server (given_or archive config.archive.directory)
          (given_or port config.server.default_port) w)
        (λ _ w'. (ok served, w'))
  run_command run_server mount_at available_ram config (mount mountpoint archive remote) w =
      proceed
        (mount_at (choose_source config archive remote)
          (given_or mountpoint config.mount.default_mountpoint) w)
        (λ _ w'. (ok mounted, w'))

  -- The configuration, whose error is told with a longer text.
  abbrev pub load_config : Result Config → Result Config
  load_config (ok config) = ok config
  load_config (err e) = err (message (text "Failed to load config.toml"))

  unfoldable pub main :
      Toml
      → (PathBuf → ℕ → Exec F.World (Unit {0}))
      → (Origin → PathBuf → Exec F.World (Unit {0}))
      → ℕ
      → Commands
      → Exec F.World Done
  main T run_server mount_at available_ram command w =
      proceed (load_config (load F T w), w)
        (λ config. run_command run_server mount_at available_ram config command)
