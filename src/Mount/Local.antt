-- ===== src/Mount/Local.antt =====
-- `LocalSource` of src/mount/source.rs, which reads an archive on this machine.
pub mod Laws
use blockframe_rs.Base.{
  ℕ, Bool, true, Option, none, some, List, [], ◌∷◌, map, Text, Bytes, text, Result, ok, err,
  message, ok_or, ◌>>=◌, ◌==◌, if◌then◌else◌,
}
use blockframe_rs.Base.Exec.{Exec}
use blockframe_rs.Base.Exec as Exec
use blockframe_rs.Manifest.{ManifestFile}
use blockframe_rs.Disk.{PathBuf, join, parent_dir, FileSystem}
use blockframe_rs.Disk.Names.{data_file, segment_file, block_name}
use blockframe_rs.Chunker.Io.{Serde}
use blockframe_rs.Filestore.Models.{File}
use blockframe_rs.Filestore.Index.{
  get_all, find, get_data_path, get_segment_path, get_block_segment_path, get_parity_path_t1,
  get_parity_path_t2, get_parity_path_t3,
}
use blockframe_rs.Mount.Source.{SegmentSource}

-- The file that `write_parity` writes.
unfoldable pub recovered_path : File → ℕ → Option ℕ → Result PathBuf
recovered_path file segment_id block_id =
    let dir = ok_or (parent_dir file.file_data.path) (message (text "No parent directory")) in
    let block = ok_or block_id (message (text "block_id is required for tier 3 parity reads")) in
    let segments = λ (d : PathBuf). join (join d (text "segments")) (segment_file segment_id) in
    let blocks = λ (d : PathBuf) (b : ℕ). segments (join (join d (text "blocks")) (block_name b)) in
    if file.manifest.tier == 1
    then (dir >>= λ d. ok (join d data_file))
    else if file.manifest.tier == 2
    then (dir >>= λ d. ok (segments d))
    else if file.manifest.tier == 3
    then (block >>= λ b. dir >>= λ d. ok (blocks d b))
    else err (message (text "unknown tier"))

-- The file that `read_parity` reads.
unfoldable pub parity_path : File → ℕ → ℕ → Option ℕ → Result PathBuf
parity_path file segment_id parity_id block_id =
    if file.manifest.tier == 1
    then get_parity_path_t1 file parity_id
    else if file.manifest.tier == 2
    then get_parity_path_t2 file segment_id parity_id
    else if file.manifest.tier == 3
    then (ok_or block_id (message (text "block_id is required for tier 3 parity reads"))
        >>= λ block. get_parity_path_t3 file block parity_id)
    else err (message (text "unknown tier"))

module _ (F : FileSystem) (J : Serde) (store : PathBuf) where
  -- The reading of one file of the archive.
  unfoldable pub read_at : (File → Result PathBuf) → Text → F.World → Result Bytes
  read_at path filename w = find F J w store filename >>= λ file. path file >>= F.read w

  unfoldable pub write_recovered : Text → ℕ → Option ℕ → Bytes → Exec F.World Bool
  write_recovered filename segment_id block_id recovered_bytes w =
      Exec.proceed
        (find F J w store filename >>= λ file. recovered_path file segment_id block_id, w)
        (λ file_path world.
          Exec.proceed (F.write file_path recovered_bytes world) (λ _. Exec.pure true))

  abbrev pub local_source : SegmentSource
  local_source = record {
    World = F.World;
    list_files =
        λ w. (get_all F J w store >>= λ files. ok (map (λ (f : File). f.file_name) files), w);
    get_manifest = λ filename w. (find F J w store filename >>= λ file. ok file.manifest, w);
    read_segment =
        λ filename segment_id w. (read_at (λ file. get_segment_path file segment_id) filename w, w);
    read_block_segment = λ filename block_id segment_id w.
        (read_at (λ file. get_block_segment_path file block_id segment_id) filename w, w);
    read_parity = λ filename segment_id parity_id block_id w.
        (read_at (λ file. parity_path file segment_id parity_id block_id) filename w, w);
    write_parity = write_recovered;
    read_data = λ filename w. (read_at get_data_path filename w, w);
  }
