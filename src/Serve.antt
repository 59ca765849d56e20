-- ===== src/Serve.antt =====
-- The handlers of src/serve/routes.rs, for a server built for release: a subtraction of `usize`
-- wraps around. The handlers only read the store, each of them from one state of the disk.
use blockframe_rs.Base.{
  ℕ, ◌+◌, ◌-◌, ◌%◌, ◌^◌, Bool, false, Option, none, some, List, [], ◌∷◌, map, Text, Bytes, text,
  Result, Error, ok, err, message, external, ltb, ◌==◌, if◌then◌else◌, length, ℤ,
}
use blockframe_rs.Manifest.{ManifestFile}
use blockframe_rs.Disk.{PathBuf, FileSystem}
use blockframe_rs.Chunker.Io.{Serde}
use blockframe_rs.Filestore.Models.{File}
use blockframe_rs.Filestore.Index.{
  get_all, find, get_data_path, get_segment_path, get_block_segment_path, get_parity_path_t1,
  get_parity_path_t2, get_parity_path_t3,
}

pub record FileInfo : Type 0 where
  pub name : Text
  pub size : ℤ
  pub tier : ℕ

-- A reply, or a `poem::Error` with its status and its text.
pub data Response (A : Type 0) : Type 0 where
  replied : A → Response A
  refused : ℕ → Text → Response A

abbrev pub error_text : Error → Text
error_text (message t) = t
error_text (external t) = t

-- `r.map_err(|err| self.io_to_poem(err, …, status))?`, and the rest.
abbrev pub or_status : {A B : Type 0} → Result A → ℕ → (A → Response B) → Response B
or_status (ok a) status rest = rest a
or_status (err e) status rest = refused status (error_text e)

-- `o.ok_or_else(|| poem::Error::from_string(…, BAD_REQUEST))?`, and the rest.
abbrev pub required : {A B : Type 0} → Option A → Text → (A → Response B) → Response B
required (some a) missing rest = rest a
required none missing rest = refused 400 missing

-- `segment_id.0`, where it is given, is more than 30.
abbrev pub beyond_block : Option ℕ → Bool
beyond_block none = false
beyond_block (some sid) = ltb 30 sid

module _ (F : FileSystem) (J : Serde) (store : PathBuf) (w : F.World) where
  unfoldable pub list_files : Response (List FileInfo)
  list_files = or_status (get_all F J w store) 500 (λ files. replied (
      map
        (λ (f : File). record {
          name = f.file_name;
          size = f.manifest.size;
          tier = f.manifest.tier;
        })
        files))

  unfoldable pub get_manifest : Text → Response ManifestFile
  get_manifest filename = or_status (find F J w store filename) 404 (λ file. replied file.manifest)

  -- The reading of a file at a path that a function of the store gives.
  abbrev pub send_file : Result PathBuf → ℕ → Response Bytes
  send_file path status = or_status path status (λ p. or_status (F.read w p) 404 replied)

  unfoldable pub get_data : Text → Response Bytes
  get_data filename =
      or_status (find F J w store filename) 404 (λ file_obj. send_file (get_data_path file_obj) 400)

  unfoldable pub get_segment : Text → ℕ → Response Bytes
  get_segment filename segment_id =
      or_status (find F J w store filename) 404
        (λ file_obj. send_file (get_segment_path file_obj segment_id) 500)

  unfoldable pub get_block_segment : Text → ℕ → ℕ → Response Bytes
  get_block_segment filename block_id segment_id =
      or_status (find F J w store filename) 404
        (λ file_obj. send_file (get_block_segment_path file_obj block_id segment_id) 500)

  -- What `get_parity` does with a file of tier 3.
  unfoldable pub send_block_parity : File → ℕ → Option ℕ → ℕ → Response Bytes
  send_block_parity file_obj block_id segment_id parity_id =
      let leaves = length file_obj.manifest.merkle_tree.leaves in
      if ltb ((leaves + (2 ^ 64 - 1)) % 2 ^ 64) block_id
      then refused 400 (text "block_id is out of range")
      else if ltb 2 parity_id
      then refused 400 (text "tier 3 files have only 3 parity shards. Parity index out of range")
      else if beyond_block segment_id
      then refused 400 (text "tier 3 files have only 30 segments. Segment index out of range")
      else send_file (get_parity_path_t3 file_obj block_id parity_id) 500

  unfoldable pub send_parity : File → Option ℕ → Option ℕ → Option ℕ → Response Bytes
  send_parity file_obj block_id segment_id parity_id =
      if file_obj.manifest.tier == 1
      then required parity_id (text "Missing parity_id")
          (λ parity. send_file (get_parity_path_t1 file_obj parity) 500)
      else if file_obj.manifest.tier == 2
      then required segment_id (text "Missing segment_id") (λ segment.
        required parity_id (text "Missing parity_id")
          (λ parity. send_file (get_parity_path_t2 file_obj segment parity) 500))
      else if file_obj.manifest.tier == 3
      then required block_id (text "block_id is required") (λ block.
        required parity_id (text "Missing parity_id")
          (λ parity. send_block_parity file_obj block segment_id parity))
      else replied (0 ∷ [])

  unfoldable pub get_parity : Text → Option ℕ → Option ℕ → Option ℕ → Response Bytes
  get_parity filename block_id segment_id parity_id =
      or_status (find F J w store filename) 404
        (λ file_obj. send_parity file_obj block_id segment_id parity_id)
