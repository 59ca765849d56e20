-- ===== src/Config.antt =====
-- src/config.rs, and the limit of the cache that the file systems take from it.
pub mod Laws
use blockframe_rs.Base.{
  ℕ, ◌-◌, ◌&&◌, Option, none, some, [], ◌∷◌, Text, Bytes, text, text_eq, Result, ok, err, external,
  ok_or, ◌>>=◌, length, take, drop, leb, if◌then◌else◌,
}
use blockframe_rs.Disk.{PathBuf, FileSystem}
use blockframe_rs.Filestore.Reconstruct.{parse_usize}

pub record ArchiveConfig : Type 0 where
  pub directory : PathBuf

pub record MountConfig : Type 0 where
  pub default_mountpoint : PathBuf
  pub default_remote : Text

pub record CacheConfig : Type 0 where
  pub max_segments : ℕ
  pub max_size : Text

pub record ServerConfig : Type 0 where
  pub default_port : ℕ

pub record LoggingConfig : Type 0 where
  pub level : Text

pub record Config : Type 0 where
  pub archive : ArchiveConfig
  pub mount : MountConfig
  pub cache : CacheConfig
  pub server : ServerConfig
  pub logging : LoggingConfig

-- The crate `toml` at the type of the configuration.
pub record Toml : Type 0 where
  pub from_str : Bytes → Result Config

-- `Config::load`. A text that is no UTF-8 fails in `from_str`.
abbrev pub load : (F : FileSystem) → Toml → F.World → Result Config
load F T w = F.read w (text "config.toml" ∷ []) >>= T.from_str

-- The operations on Unicode text and on floating-point numbers: `str::trim`, `str::to_uppercase`,
-- the parsing of an `f64`, its product with a whole number, and its cast to `usize`. A text that is
-- no number is the external error `ParseIntError` or that of `parse`.
pub record Units : Type 1 where
  pub trim : Text → Text
  pub to_uppercase : Text → Text
  pub F64 : Type 0
  pub parse : Text → Result F64
  pub times : F64 → ℕ → F64
  pub as_usize : F64 → ℕ

-- `strip_suffix`
unfoldable pub strip_suffix : Text → Text → Option Text
strip_suffix t suffix =
    let kept = length t - length suffix in
    if leb (length suffix) (length t) && text_eq (drop kept t) suffix
    then some (take kept t)
    else none

module _ (U : Units) where
  -- The number ahead of a unit, in bytes.
  abbrev pub scaled : Text → ℕ → Result ℕ
  scaled stripped unit = U.parse (U.trim stripped) >>= λ num. ok (U.as_usize (U.times num unit))

  -- `parse_size` behind the change of `size_str`.
  unfoldable pub parse_upper : Text → Result ℕ
  parse_upper size_str = elim (strip_suffix size_str (text "GB")) [
    | some stripped ↦ scaled stripped 1_000_000_000
    | none ↦ elim (strip_suffix size_str (text "MB")) [
      | some stripped ↦ scaled stripped 1_000_000
      | none ↦ elim (strip_suffix size_str (text "KB")) [
        | some stripped ↦ scaled stripped 1_000
        | none ↦ ok_or (parse_usize size_str) (external (text "ParseIntError"))
      ]
    ]
  ]

  unfoldable pub parse_size : Text → Result ℕ
  parse_size size_str = parse_upper (U.to_uppercase (U.trim size_str))

  -- `max_bytes` in `BlockframeFS::new`: the configured limit, or 1,000,000,000.
  abbrev pub unwrap_or : Result ℕ → ℕ → ℕ
  unwrap_or (ok n) default = n
  unwrap_or (err e) default = default

  unfoldable pub cache_limit : Result Config → ℕ
  cache_limit (ok cfg) = unwrap_or (parse_size cfg.cache.max_size) 1_000_000_000
  cache_limit (err e) = 1_000_000_000
