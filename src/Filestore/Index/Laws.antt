-- ===== src/Filestore/Index/Laws.antt =====
-- What the index of src/filestore/mod.rs finds.
use blockframe_rs.Base.{
  ℕ, ◌≡◌, ◌↔◌, inl, inr, refl, ap, ◌∙◌, sym, subst, List, [], ◌∷◌, map, Text, text_eq, text_eq_iff,
  text_eq_refl, Bytes, Result, ok, ◌>>=◌, >>=-eq-ok, Result-cases, Bool-cases, All, lookup, ℤ,
  arith, i32_key, usize_key,
}
use blockframe_rs.Manifest.{ManifestFile}
use blockframe_rs.Disk.{PathBuf, join, FileSystem}
use blockframe_rs.Disk.Laws.{Holds}
use blockframe_rs.Disk.Names.{manifest_file}
use blockframe_rs.Chunker.Io.{Serde}
use blockframe_rs.Filestore.Models.{File}
use blockframe_rs.Filestore.Index.{
  read_manifest, new_file, all_files, load_files, get_all, find_in, find,
}

-- Two manifests that differ at most in the order of their maps.
pub record IsSame (m m' : ManifestFile) : Type 0 where
  pub name : m'.name ≡ m.name
  pub original_hash : m'.original_hash ≡ m.original_hash
  pub size : m'.size ≡ m.size
  pub tier : m'.tier ≡ m.tier
  pub segment_size : m'.segment_size ≡ m.segment_size
  pub leaves : (k : ℤ) → lookup k m'.merkle_tree.leaves ≡ lookup k m.merkle_tree.leaves
  pub segments : (k : ℕ) → lookup k m'.merkle_tree.segments ≡ lookup k m.merkle_tree.segments
  pub blocks : (k : ℕ) → lookup k m'.merkle_tree.blocks ≡ lookup k m.merkle_tree.blocks

-- Documented behaviour of `serde_json`: what it wrote, it reads.
pub record IsSerde (J : Serde) : Type 0 where
  pub reads :
      (m : ManifestFile) → (m' : ManifestFile) × (J.from_str (J.to_string m) ≡ ok m') × IsSame m m'

module _ (F : FileSystem) (J : Serde) (w : F.World) where
  -- The manifest at a path can be read.
  abbrev pub HasManifest : PathBuf → Type 0
  HasManifest path = (m : ManifestFile) × (read_manifest F J w path ≡ ok m)

  -- The path of the manifest in an entry of the store.
  abbrev pub manifest_of : PathBuf → Text → PathBuf
  manifest_of store name = join (join store name) manifest_file

  -- A file as the index knows it.
  pub record IsIndexed (file : File) : Type 0 where
    pub manifest_is : read_manifest F J w file.file_data.path ≡ ok file.manifest
    pub name_is : file.file_name ≡ file.manifest.name
    pub hash_is : file.file_data.hash ≡ file.manifest.original_hash

  abbrev pub file_of : PathBuf → ManifestFile → File
  file_of path m = record {
    file_name = m.name;
    file_data = record { hash = m.original_hash; path = path };
    manifest = m;
  }

  load_files-step :
      (path : PathBuf) (paths : List PathBuf)
      → load_files F J w (path ∷ paths) ≡ (
          read_manifest F J w path >>= λ m.
          load_files F J w paths >>= λ rest. ok (file_of path m ∷ rest))
  unfolding load_files new_file
  load_files-step path paths = elim (Result-cases (read_manifest F J w path)) [
    | inl (m, e) ↦ rw e refl
    | inr (x, e) ↦ rw e refl
  ]

  load_files-total :
      (paths : List PathBuf)
      → All HasManifest paths
      → (files : List File) × (load_files F J w paths ≡ ok files)
  load_files-total [] h = ([], unfold load_files in refl)
  load_files-total (path ∷ paths) ((m, e), h) =
      let (files, below) = load_files-total paths h in
      (file_of path m ∷ files, load_files-step path paths ∙ rw (e, below) refl)

  load_files-All :
      (paths : List PathBuf) (files : List File)
      → load_files F J w paths ≡ ok files
      → All HasManifest paths × All IsIndexed files
  load_files-All [] files h =
      let none_left : [] ≡ files = unfold load_files in cc in
      (tt, subst (All IsIndexed) none_left tt)
  load_files-All (path ∷ paths) files h =
      let (m, e, h₁) =
        >>=-eq-ok (read_manifest F J w path) _ (sym (load_files-step path paths) ∙ h) in
      let (rest, below, h₂) = >>=-eq-ok (load_files F J w paths) _ h₁ in
      let (manifests, indexed) = load_files-All paths rest below in
      let same : file_of path m ∷ rest ≡ files = cc in
      (
        ((m, e), manifests),
        subst (All IsIndexed) same
            (record { manifest_is = e; name_is = refl; hash_is = refl }, indexed),
      )

  All-map :
      (store : PathBuf) (names : List Text)
      → All HasManifest (map (manifest_of store) names)
      → All (λ name. HasManifest (manifest_of store name)) names
  All-map store [] h = tt
  All-map store (name ∷ names) (m, h) = (m, All-map store names h)

  map-All :
      (store : PathBuf) (names : List Text)
      → All (λ name. HasManifest (manifest_of store name)) names
      → All HasManifest (map (manifest_of store) names)
  map-All store [] h = tt
  map-All store (name ∷ names) (m, h) = (m, map-All store names h)

  get_all-listed :
      (store : PathBuf) (names : List Text)
      → F.read_dir w store ≡ ok names
      → get_all F J w store ≡ load_files F J w (map (manifest_of store) names)
  unfolding get_all all_files
  get_all-listed store names listed = rw listed refl

  -- Of a store that can be listed, the index is read exactly if the manifest of every entry can be
  -- read: one entry without a manifest hides all files.
  pub get_all_iff :
      (store : PathBuf) (names : List Text)
      → F.read_dir w store ≡ ok names
      → ((files : List File) × (get_all F J w store ≡ ok files))
        ↔ All (λ name. HasManifest (manifest_of store name)) names
  get_all_iff store names listed =
      let paths = map (manifest_of store) names in
      let same = get_all-listed store names listed in
      (
        λ (files, h). All-map store names (load_files-All paths files (sym same ∙ h)).0,
        λ h. (let (files, e) = load_files-total paths (map-All store names h) in (files, same ∙ e)),
      )

  find_in-ok :
      (filename : Text) (files : List File) (file : File)
      → All IsIndexed files
      → find_in filename files ≡ ok file
      → IsIndexed file × (file.file_name ≡ filename)
  unfolding find_in
  find_in-ok filename [] file h e = absurd (cc)
  find_in-ok filename (f ∷ files) file (i, h) e = elim (Bool-cases (text_eq f.file_name filename)) [
    | inl same ↦
        let it : f ≡ file = ground arith in
        subst (λ g. IsIndexed g × (g.file_name ≡ filename)) it
          (i, (text_eq_iff f.file_name filename).0 same)
    | inr other ↦ find_in-ok filename files file h (ground arith)
  ]

  -- A file that is found by a name has that name, the manifest that is read at its path, and the
  -- hash that this manifest gives.
  pub find-IsIndexed :
      (store : PathBuf) (filename : Text) (file : File)
      → find F J w store filename ≡ ok file
      → IsIndexed file × (file.file_name ≡ filename)
  unfolding find get_all
  find-IsIndexed store filename file h =
      let (files, h₁, h₂) = >>=-eq-ok (get_all F J w store) _ h in
      let (paths, h₃, h₄) = >>=-eq-ok (all_files F J w store) _ h₁ in
      find_in-ok filename files file (load_files-All paths files h₄).1 h₂

  -- The only entry of a store is found under its manifest's name.
  pub find-only :
      (store : PathBuf) (entry : Text) (m : ManifestFile)
      → F.read_dir w store ≡ ok (entry ∷ [])
      → read_manifest F J w (manifest_of store entry) ≡ ok m
      → find F J w store m.name ≡ ok (file_of (manifest_of store entry) m)
  unfolding find find_in
  find-only store entry m listed e =
      let path = manifest_of store entry in
      let none_left : load_files F J w [] ≡ ok [] = unfold load_files in refl in
      let one : load_files F J w (path ∷ []) ≡ ok (file_of path m ∷ []) =
        load_files-step path [] ∙ rw (e, none_left) refl in
      let same = text_eq_refl m.name in
      ap (λ files. files >>= find_in m.name) (get_all-listed store (entry ∷ []) listed ∙ one)
      ∙ rw same refl

-- The manifest of a file that the index found at a path is the one that was written there.
pub found-IsSame :
    (F : FileSystem) (J : Serde)
    → IsSerde J
    → (store : PathBuf) (name : Text) (dir : PathBuf) (w : F.World) (obj : File)
    → find F J w store name ≡ ok obj
    → obj.file_data.path ≡ join dir manifest_file
    → (m : ManifestFile) → Holds F w (join dir manifest_file) (J.to_string m)
    → IsSame m obj.manifest
unfolding read_manifest
found-IsSame F J N store name dir w obj found at m there =
    let (m', reads, same) = N.reads m in
    let (indexed, _) = find-IsIndexed F J w store name obj found in
    let e = indexed.manifest_is in
    let written = there.reads in
    let chain : ◌≡◌ {A = Result ManifestFile} (ok m') (ok obj.manifest) =
      sym reads
      ∙ ap (λ (r : Result Bytes). r >>= J.from_str) (sym written)
      ∙ ap (λ path. F.read w path >>= J.from_str) (sym at)
      ∙ e in
    let both : m' ≡ obj.manifest = cc in subst (IsSame m) both same
