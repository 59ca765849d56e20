-- ===== src/Filestore/Reconstruct.antt =====
-- The reconstruction of files in src/filestore/mod.rs, and the parts of a segment that it expects.
pub mod Laws
use blockframe_rs.Base.{
  ℕ, zero, suc, ◌+◌, ◌-◌, ◌*◌, ◌^◌, Bool, true, false, ◌&&◌, ◌||◌, not, Option, none, some, List,
  [], ◌∷◌, ◌++◌, map, Text, Bytes, text, Result, ok, err, message, ok_or, ◌>>=◌, length, ltb, leb,
  ◌==◌, if◌then◌else◌, ℤ, pos, negsuc, int_le, concat,
}
use blockframe_rs.Base.Exec as Exec
use blockframe_rs.Base.Decimal.{to_string}
use blockframe_rs.Utils.{Hasher}
use blockframe_rs.Merkle.{new, get_root}
use blockframe_rs.Disk.{PathBuf, join, parent_dir, file_name_of, FileSystem}
use blockframe_rs.Disk.Names.{data_file, parity_file}
use blockframe_rs.Filestore.Models.{File}

abbrev pub reconstructed : PathBuf
reconstructed = text "reconstructed" ∷ []

abbrev pub chunk_file : ℕ → Text
chunk_file i = text "chunk_" ++ (to_string i ++ text ".dat")

-- The name up to its last dot, if it has one that is not its first character.
abbrev stem_at : Text → Option Text
stem_at [] = none
stem_at (c ∷ cs) = elim (stem_at cs) [
  | some stem ↦ some (c ∷ stem)
  | none ↦ if c == 46 then some [] else none
]

-- `path.file_stem()`
unfoldable pub file_stem : Text → Text
file_stem [] = []
file_stem (c ∷ cs) = elim (stem_at cs) [ some stem ↦ c ∷ stem | none ↦ c ∷ cs ]

-- `folder.split("_").last()`, read on with the part so far.
unfoldable pub last_part : Text → Text → Text
last_part part [] = part
last_part part (c ∷ cs) = if c == 95 then last_part [] cs else last_part (part ++ (c ∷ [])) cs

abbrev is_digit : ℕ → Bool
is_digit c = leb 48 c && leb c 57

-- The digits of `index.parse::<usize>()`, read on from `acc`; a number of 2^64 or more is an error.
unfoldable pub parse_digits : ℕ → Text → Option ℕ
parse_digits acc [] = some acc
parse_digits acc (c ∷ cs) =
    let next = acc * 10 + (c - 48) in
    let rest = parse_digits next cs in if is_digit c && ltb next (2 ^ 64) then rest else none

-- `index.parse::<usize>()`, which takes one leading plus.
unfoldable pub parse_usize : Text → Option ℕ
parse_usize [] = none
parse_usize (c ∷ []) = parse_digits 0 (c ∷ [])
parse_usize (c ∷ d ∷ cs) = if c == 43 then parse_digits 0 (d ∷ cs) else parse_digits 0 (c ∷ d ∷ cs)

-- The key of `sort_by_key`.
unfoldable pub segment_key : Text → ℕ
segment_key name = elim (parse_usize (last_part [] (file_stem name))) [
  | some index ↦ index
  | none ↦ 0
]

-- `sort_by_key`, which keeps the order of equal keys.
unfoldable pub insert_by_key : Text → List Text → List Text
insert_by_key name [] = name ∷ []
insert_by_key name (other ∷ names) =
    let rest = insert_by_key name names in
    if leb (segment_key name) (segment_key other) then name ∷ other ∷ names else other ∷ rest

unfoldable pub sort_by_key : List Text → List Text
sort_by_key [] = []
sort_by_key (name ∷ names) = insert_by_key name (sort_by_key names)

-- `for i in 0..n`, from `i` on: the paths of the files of one kind in a segment's folder.
abbrev pub parts : PathBuf → Text → (ℕ → Text) → ℕ → ℕ → List PathBuf
parts segment kind name i zero = []
parts segment kind name i (suc rounds) =
    join (join segment kind) (name i) ∷ parts segment kind name (i + 1) rounds

module _ (F : FileSystem) (w : F.World) where
  unfoldable pub get_segments_paths : File → Result (List PathBuf)
  get_segments_paths file_obj =
      ok_or (parent_dir file_obj.file_data.path) (message (text "Could not get parent directory"))
      >>= λ dir. F.read_dir w (join dir (text "segments")) >>= λ names.
          ok (map (join (join dir (text "segments"))) (sort_by_key names))

  unfoldable pub get_chunks_paths : File → Result (List PathBuf)
  get_chunks_paths file_obj = get_segments_paths file_obj >>= λ segments_folder.
      ok (concat (map (λ segment. parts segment (text "chunks") chunk_file 0 6) segments_folder))

  unfoldable pub get_parity_paths : File → Result (List PathBuf)
  get_parity_paths file_obj = get_segments_paths file_obj >>= λ segments_folder.
      ok (concat (map (λ segment. parts segment (text "parity") parity_file 0 3) segments_folder))

  -- The reads of files one after the other.
  unfoldable pub read_paths : List PathBuf → Result (List Bytes)
  read_paths [] = ok []
  read_paths (path ∷ paths) =
      F.read w path >>= λ bytes. read_paths paths >>= λ rest. ok (bytes ∷ rest)

  unfoldable pub read_segment : PathBuf → Result (List Bytes)
  read_segment path = read_paths (parts path (text "chunks") chunk_file 0 6) >>= λ chunk_data.
      read_paths (parts path (text "parity") parity_file 0 3) >>= λ parity_data.
      ok (chunk_data ++ parity_data)

  -- The sum of the sizes of files.
  unfoldable pub total_size : List PathBuf → Result ℕ
  total_size [] = ok 0
  total_size (path ∷ paths) =
      F.read w path >>= λ bytes. total_size paths >>= λ rest. ok (length bytes + rest)

  unfoldable pub get_size : File → Result ℕ
  get_size file_obj = get_segments_paths file_obj >>= λ segments. total_size (
      concat (
        map
          (λ segment.
            parts segment (text "chunks") chunk_file 0 6
            ++ parts segment (text "parity") parity_file 0 3)
          segments))

-- The tree of a segment and its parity. `none`: `MerkleTree::new` does not return.
unfoldable pub segment_hash : Hasher → List Bytes → Option Text
segment_hash H combined_data = elim (new H combined_data) [
  | none ↦ none
  | some t ↦ some (get_root t)
]

module _ (F : FileSystem) where
  unfoldable pub tiny_reconstruct : File → Exec.Exec F.World (Unit {0})
  tiny_reconstruct file_obj w = Exec.proceed (F.create_dir_all reconstructed w) (λ _ v.
      Exec.proceed
        (
          ok_or (parent_dir file_obj.file_data.path)
                (message (text "Could not get parent directory"))
              >>= λ dir. F.read v (join dir data_file),
          v,
        )
        (F.write (join reconstructed file_obj.file_name)))

  -- `for chunk in chunks`
  unfoldable pub append_chunks : PathBuf → List PathBuf → Exec.Exec F.World (Unit {0})
  append_chunks target [] w = (ok tt, w)
  append_chunks target (chunk ∷ chunks) w =
      Exec.proceed (F.read w chunk, w)
        (λ chunk_file v.
          Exec.proceed (F.append target chunk_file v) (λ _. append_chunks target chunks))

  -- The file is opened before the first chunk is read, which creates it.
  unfoldable pub segment_reconstruct : File → Exec.Exec F.World (Unit {0})
  segment_reconstruct file_obj w =
      let target = join reconstructed file_obj.file_name in
      Exec.proceed (F.create_dir_all reconstructed w) (λ _ v.
        Exec.proceed (get_chunks_paths F v file_obj, v)
          (λ chunks u. Exec.proceed (F.append target [] u) (λ _. append_chunks target chunks)))

  -- `match file_obj.manifest.size { 0..=10_000_000 => 1, _ => 2 }`
  unfoldable pub reconstruct : File → Exec.Exec F.World (Unit {0})
  reconstruct file_obj =
      if int_le (pos 0) file_obj.manifest.size && int_le file_obj.manifest.size (pos 10_000_000)
      then tiny_reconstruct file_obj
      else segment_reconstruct file_obj
