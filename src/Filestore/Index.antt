-- ===== src/Filestore/Index.antt =====
-- The index of src/filestore/mod.rs: the files of an archive, and where their parts are. A path in
-- `FileData` is one of `Path::display`. The log line of `find` cuts ten characters off a digest,
-- which has 64.
pub mod Laws
use blockframe_rs.Base.{
  ℕ, List, [], ◌∷◌, ◌++◌, map, Text, text, text_eq, Result, ok, err, message, ok_or, ◌>>=◌,
  if◌then◌else◌,
}
use blockframe_rs.Manifest.{ManifestFile}
use blockframe_rs.Disk.{PathBuf, join, parent_dir, FileSystem}
use blockframe_rs.Disk.Names.{
  data_file, parity_file, segment_file, segment_parity_file, block_parity_file, manifest_file,
  block_name,
}
use blockframe_rs.Chunker.Io.{Serde}
use blockframe_rs.Filestore.Models.{File}

-- `Path::new(&file.file_data.path).parent().ok_or_else(…)`
abbrev pub file_dir : File → Result PathBuf
file_dir file =
    ok_or (parent_dir file.file_data.path) (message (text "file path has no parent directory"))

unfoldable pub get_data_path : File → Result PathBuf
get_data_path file = file_dir file >>= λ dir. ok (join dir data_file)

unfoldable pub get_segment_path : File → ℕ → Result PathBuf
get_segment_path file segment_id =
    file_dir file >>= λ dir. ok (join (join dir (text "segments")) (segment_file segment_id))

unfoldable pub get_block_segment_path : File → ℕ → ℕ → Result PathBuf
get_block_segment_path file block_id segment_id = file_dir file >>= λ dir. ok (
    join (join (join (join dir (text "blocks")) (block_name block_id)) (text "segments"))
      (segment_file segment_id))

unfoldable pub get_parity_path_t1 : File → ℕ → Result PathBuf
get_parity_path_t1 file parity_id = file_dir file >>= λ dir. ok (join dir (parity_file parity_id))

unfoldable pub get_parity_path_t2 : File → ℕ → ℕ → Result PathBuf
get_parity_path_t2 file segment_id parity_id = file_dir file >>= λ dir.
    ok (join (join dir (text "parity")) (segment_parity_file segment_id parity_id))

unfoldable pub get_parity_path_t3 : File → ℕ → ℕ → Result PathBuf
get_parity_path_t3 file block_id parity_id = file_dir file >>= λ dir. ok (
    join (join (join (join dir (text "blocks")) (block_name block_id)) (text "parity"))
      (block_parity_file parity_id))

-- The loop of `find` over the files.
unfoldable pub find_in : Text → List File → Result File
find_in filename [] = err (message (text "File '" ++ (filename ++ text "' not found")))
find_in filename (file ∷ files) =
    let rest = find_in filename files in if text_eq file.file_name filename then ok file else rest

module _ (F : FileSystem) (J : Serde) (w : F.World) where
  -- `ManifestFile::new`
  unfoldable pub read_manifest : PathBuf → Result ManifestFile
  read_manifest file_path = F.read w file_path >>= J.from_str

  -- `File::new`
  unfoldable pub new_file : Text → Text → PathBuf → Result File
  new_file file_name hash path = read_manifest path >>= λ manifest. ok (record {
    file_name = file_name;
    file_data = record { hash = hash; path = path };
    manifest = manifest;
  })

  unfoldable pub all_files : PathBuf → Result (List PathBuf)
  all_files store_path = F.read_dir w store_path >>= λ all_dirs.
      ok (map (λ name. join (join store_path name) manifest_file) all_dirs)

  -- The loop of `get_all` over the manifests.
  unfoldable pub load_files : List PathBuf → Result (List File)
  load_files [] = ok []
  load_files (path ∷ manifests) = read_manifest path >>= λ manifest.
      new_file manifest.name manifest.original_hash path >>= λ file_entry.
      load_files manifests >>= λ file_list. ok (file_entry ∷ file_list)

  unfoldable pub get_all : PathBuf → Result (List File)
  get_all store_path = all_files store_path >>= load_files

  unfoldable pub find : PathBuf → Text → Result File
  find store_path filename = get_all store_path >>= find_in filename
