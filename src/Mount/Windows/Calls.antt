-- ===== src/Mount/Windows/Calls.antt =====
-- The calls of WinFSP in src/mount/filesystem_win.rs: `impl FileSystemContext for BlockframeFS`,
-- less `read`. A file name is the text that `to_string_lossy` gives for it. The numbers of the
-- Windows attributes and the directory buffer of the crate `winfsp` are a parameter.
pub mod Laws
use blockframe_rs.Base.{
  ℕ, ◌+◌, ◌*◌, ◌/◌, ◌%◌, ◌^◌, Bool, true, false, Option, none, some, List, [], ◌∷◌, Text, Bytes,
  text, text_eq, Result, Error, ok, err, message, lookup, string_key, HashMap, ◌==◌, if◌then◌else◌,
  to_u64,
}
use blockframe_rs.Manifest.{ManifestFile}
use blockframe_rs.Mount.Source.{SegmentSource}
use blockframe_rs.Mount.Cache.{Cache}
use blockframe_rs.Mount.Names.{Names}
use blockframe_rs.Mount.Windows.{Inner, Outcome, returned, failed, panicked, name_not_found}

pub record FileInfo : Type 0 where
  pub file_attributes : ℕ
  pub reparse_tag : ℕ
  pub allocation_size : ℕ
  pub file_size : ℕ
  pub creation_time : ℕ
  pub last_access_time : ℕ
  pub last_write_time : ℕ
  pub change_time : ℕ
  pub index_number : ℕ
  pub hard_links : ℕ
  pub ea_size : ℕ

pub record FileSecurity : Type 0 where
  pub attributes : ℕ
  pub reparse : Bool
  pub sz_security_descriptor : ℕ

-- What the calls use of the crates `windows` and `winfsp`: two attributes, and `DirBuffer` with its
-- lock. `acquire` and `write` say whether they succeed; `nameable` holds for the names that
-- `U16CString::from_str` and `set_name_cstr` take.
pub record WinFsp : Type 1 where
  pub file_attribute_directory : ℕ
  pub file_attribute_readonly : ℕ
  pub DirBuffer : Type 0
  pub new : DirBuffer
  pub nameable : Text → Bool
  pub acquire : Bool → DirBuffer → Bool × DirBuffer
  pub write : Text → FileInfo → DirBuffer → Bool × DirBuffer
  pub release : DirBuffer → DirBuffer
  pub read : Option Text → ℕ → DirBuffer → Bytes

-- `BlockframeFileContext`; nothing uses its cursor.
pub record FileContext (W : WinFsp) : Type 0 where
  pub filename : Text
  pub cursor : ℕ
  pub dir_buffer : Option W.DirBuffer

-- `"\\"`
abbrev pub backslash : ℕ
backslash = 92

abbrev pub root_name : Text
root_name = backslash ∷ []

-- `filename.trim_start_matches('\\')`
unfoldable pub trim_start : Text → Text
trim_start [] = []
trim_start (c ∷ cs) = let rest = trim_start cs in if c == backslash then rest else c ∷ cs

abbrev pub not_a_directory : Error
not_a_directory = message (text "NTSTATUS(-1073741808)")

-- `unwrap_or(&0)`
abbrev pub inode_or_zero : Option ℕ → ℕ
inode_or_zero none = 0
inode_or_zero (some inode) = inode

abbrev pub is_none : Option Text → Bool
is_none none = true
is_none (some marker) = false

module _ (W : WinFsp) where
  -- `BlockframeFSInner::get_file_info`, in a release build: the product wraps around.
  unfoldable pub file_info_of : Names → Text → Option FileInfo
  file_info_of names filename = elim (lookup filename names.manifests) [
    | none ↦ none
    | some manifest ↦ some (record {
      file_attributes = W.file_attribute_readonly;
      reparse_tag = 0;
      allocation_size = (to_u64 manifest.size + 511) / 512 * 512 % 2 ^ 64;
      file_size = to_u64 manifest.size;
      creation_time = 0;
      last_access_time = 0;
      last_write_time = 0;
      change_time = 0;
      index_number = inode_or_zero (lookup filename names.filename_to_inode);
      hard_links = 1;
      ea_size = 0;
    })
  ]

  abbrev pub root_info : FileInfo
  root_info = record {
    file_attributes = W.file_attribute_directory;
    reparse_tag = 0;
    allocation_size = 0;
    file_size = 0;
    creation_time = 0;
    last_access_time = 0;
    last_write_time = 0;
    change_time = 0;
    index_number = 1;
    hard_links = 1;
    ea_size = 0;
  }

  abbrev pub security : ℕ → FileSecurity
  security attributes = record {
    attributes = attributes;
    reparse = false;
    sz_security_descriptor = 0;
  }

  abbrev pub root_context : FileContext W
  root_context = record { filename = root_name; cursor = 0; dir_buffer = some W.new }

  abbrev pub file_context : Text → FileContext W
  file_context clean_name = record { filename = clean_name; cursor = 0; dir_buffer = none }

  module _ {C : Cache} {S : SegmentSource} where
    unfoldable pub get_security_by_name : Inner C S → Text → Result FileSecurity
    get_security_by_name s filename =
        let of_file : Result FileSecurity = elim (lookup (trim_start filename) s.names.manifests) [
          | some manifest ↦ ok (security W.file_attribute_readonly)
          | none ↦ err name_not_found
        ] in
        if text_eq filename root_name then ok (security W.file_attribute_directory) else of_file

    -- `open`, with the `file_info` that it fills in.
    unfoldable pub open_context : Inner C S → Text → Result (FileContext W × FileInfo)
    open_context s filename =
        let clean_name = trim_start filename in
        let of_file : Result (FileContext W × FileInfo) = elim (file_info_of s.names clean_name) [
          | some info ↦ ok (file_context clean_name, info)
          | none ↦ err name_not_found
        ] in
        if text_eq filename root_name then ok (root_context, root_info) else of_file

    unfoldable pub get_file_info : Inner C S → FileContext W → Result FileInfo
    get_file_info s context =
        let of_file : Result FileInfo = elim (file_info_of s.names context.filename) [
          | some info ↦ ok info
          | none ↦ err name_not_found
        ] in
        if text_eq context.filename root_name then ok root_info else of_file

  -- The loop of `read_directory`: a name that cannot be written is left out, and the loop ends at
  -- the first entry that does not fit.
  unfoldable pub list_loop : Names → HashMap Text ManifestFile → W.DirBuffer → W.DirBuffer
  list_loop names [] buffer = buffer
  list_loop names ((filename, manifest) ∷ files) buffer = elim (file_info_of names filename) [
    | none ↦ list_loop names files buffer
    | some file_info ↦ elim (W.nameable filename) [
      | false ↦ list_loop names files buffer
      | true ↦
          let (written, buffer') = W.write filename file_info buffer in
          elim written [ true ↦ list_loop names files buffer' | false ↦ buffer' ]
    ]
  ]

  -- The buffer that the listing fills, where its lock is had.
  unfoldable pub fill : Names → Bool × W.DirBuffer → W.DirBuffer
  fill names (true, buffer) = W.release (list_loop names names.manifests buffer)
  fill names (false, buffer) = buffer

  -- `read_directory`: what it puts into a buffer of `room` bytes, and the context afterwards.
  unfoldable pub read_directory :
      {C : Cache} {S : SegmentSource}
      → Inner C S
      → FileContext W
      → Option Text
      → ℕ
      → Outcome Bytes × FileContext W
  read_directory s context marker room =
      let listed : Outcome Bytes × FileContext W = elim context.dir_buffer [
        | none ↦ (panicked, context)
        | some dir_buffer ↦
            let filled = fill s.names (W.acquire (is_none marker) dir_buffer) in
            (returned (W.read marker room filled), record context { dir_buffer = some filled })
      ] in
      if text_eq context.filename root_name then listed else (failed not_a_directory, context)
