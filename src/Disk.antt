-- ===== src/Disk.antt =====
-- The operating system as the program uses it. A path is the list of its components.
pub mod Names
pub mod Laws
use blockframe_rs.Base.{ℕ, Bool, Option, none, some, List, [], ◌∷◌, ◌++◌, Text, Bytes, Result}
use blockframe_rs.Base.Exec.{Exec}

abbrev pub PathBuf : Type 0
PathBuf = List Text

-- `path.join(name)`
abbrev pub join : PathBuf → Text → PathBuf
join path name = path ++ (name ∷ [])

-- `path.parent()`
unfoldable pub parent_dir : PathBuf → Option PathBuf
parent_dir [] = none
parent_dir (name ∷ []) = some []
parent_dir (name ∷ next ∷ path) = elim (parent_dir (next ∷ path)) [
  | none ↦ none
  | some dir ↦ some (name ∷ dir)
]

-- `path.file_name()`
unfoldable pub file_name_of : PathBuf → Option Text
file_name_of [] = none
file_name_of (name ∷ []) = some name
file_name_of (name ∷ next ∷ path) = file_name_of (next ∷ path)

-- `std::fs`, and the clock. Reading changes nothing. `read_dir` gives the names of the entries that it can read.
pub record FileSystem : Type 1 where
  pub World : Type 0
  -- `{:?}` of a path.
  pub debug : PathBuf → Text
  pub exists : World → PathBuf → Bool
  pub is_dir : World → PathBuf → Bool
  pub read : World → PathBuf → Result Bytes
  pub read_dir : World → PathBuf → Result (List Text)
  pub write : PathBuf → Bytes → Exec World (Unit {0})
  -- A file that is opened with `append` and `create`, and a `write_all` to it.
  pub append : PathBuf → Bytes → Exec World (Unit {0})
  pub create_dir_all : PathBuf → Exec World (Unit {0})
  pub rename : PathBuf → PathBuf → Exec World (Unit {0})
  -- `Utc::now().to_string()`
  pub now : World → Text
