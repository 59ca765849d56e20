-- ===== src/Mount/Local/Laws.antt =====
-- `LocalSource` of src/mount/source.rs has what a commit wrote.
use blockframe_rs.Base.{
  ℕ, ◌*◌, ◌/◌, ◌%◌, ◌≤◌, ◌<◌, ◌≡◌, refl, ap, ◌∙◌, subst, some, Text, Bytes, text, Result, ok,
  length,
}
use blockframe_rs.Utils.{Hasher}
use blockframe_rs.ReedSolomon.{ReedSolomon}
use blockframe_rs.Manifest.{ManifestFile}
use blockframe_rs.Disk.{PathBuf, join, parent_dir, FileSystem}
use blockframe_rs.Disk.Laws.{Holds, parent_dir-join}
use blockframe_rs.Disk.Names.{data_file, segment_file, manifest_file}
use blockframe_rs.Chunker.Io.{Serde}
use blockframe_rs.Chunker.Commit.Tiny.{IsTinyArchive, whole_piece, only_segment}
use blockframe_rs.Chunker.Commit.Laws.{IsSegmentedArchive}
use blockframe_rs.Chunker.Commit.Blocked.Stored.{block_path}
use blockframe_rs.Chunker.Commit.Blocked.Archive.{IsBlockedArchive, segment_of_block}
use blockframe_rs.Filestore.Models.{File}
use blockframe_rs.Filestore.Index.{find, get_data_path, get_segment_path, get_block_segment_path}
use blockframe_rs.Filestore.Index.Laws.{IsSame, IsSerde, found-IsSame}
use blockframe_rs.Mount.Hashes.{expected_hash}
use blockframe_rs.Mount.Local.{local_source, read_at}
use blockframe_rs.Mount.Windows.{fetch}
use blockframe_rs.Mount.Windows.Reads.{Describes}
use blockframe_rs.Mount.Windows.Honest.{IsHonest}

module _ (H : Hasher) where
  expected_hash-IsSame :
      (m m' : ManifestFile) (k : ℕ)
      → IsSame m m'
      → expected_hash m' m'.tier k ≡ expected_hash m m.tier k
  unfolding expected_hash
  expected_hash-IsSame m m' k same = rw (same.tier, same.leaves, same.segments, same.blocks) refl

  Describes-IsSame :
      (m m' : ManifestFile) (file : Bytes) → IsSame m m' → Describes H m file → Describes H m' file
  Describes-IsSame m m' file same D = record {
    tier = rw same.tier D.tier;
    size = same.size ∙ D.size;
    cut = rw same.segment_size D.cut;
    hashes = λ k inside.
        expected_hash-IsSame m m' k same
        ∙ (let there = D.hashes k (subst (λ z. k * z < length file) same.segment_size inside) in
            rw same.segment_size there);
  }

module _ (H : Hasher) (R : ReedSolomon) (F : FileSystem) (J : Serde) (N : IsSerde J)
    (store : PathBuf) (name : Text) (dir : PathBuf) (file : Bytes) (w : F.World) (obj : File)
    (found : find F J w store name ≡ ok obj)
    (at : obj.file_data.path ≡ join dir manifest_file) where
  parent_is : parent_dir obj.file_data.path ≡ some dir
  parent_is = ap parent_dir at ∙ parent_dir-join dir manifest_file

  -- A reading of the file's entry reads below the directory.
  read_at-found :
      (path : File → Result PathBuf) (p : PathBuf) (bytes : Bytes)
      → path obj ≡ ok p
      → Holds F w p bytes
      → read_at F J store path name w ≡ ok bytes
  unfolding read_at
  read_at-found path p bytes e there = let reads = there.reads in rw (found, e, reads) refl

  -- The local source answers, for a file of tier 1 that is archived and that its index finds, with
  -- the file, which is the one segment of its manifest; and that manifest describes the file.
  pub local_source-tiny :
      IsTinyArchive H R F J dir name file w
      → Describes H obj.manifest file
        × IsHonest H R (local_source F J store) name obj.manifest file w
  unfolding fetch get_data_path
  local_source-tiny A =
      let m = A.manifest in
      let same = found-IsSame F J N store name dir w obj found at m A.manifest_there in
      let reads =
        read_at-found get_data_path (join dir data_file) file (rw parent_is refl) A.data_there in
      let whole : length file ≤ obj.manifest.segment_size = rw same.segment_size A.whole in
      (
        Describes-IsSame H m obj.manifest file same A.describes,
        record {
          gives = λ k inside.
              (let one = only_segment k obj.manifest.segment_size (length file) whole inside in
                let tier : obj.manifest.tier ≡ 1 = same.tier ∙ A.is_tiny in
                rw (tier, one, whole_piece file obj.manifest.segment_size whole, reads) refl);
        },
      )

  -- The local source answers, for a file of tier 2 that is archived and that its index finds, with
  -- each segment of the file; and the manifest that the index gives describes the file.
  pub local_source-segmented :
      IsSegmentedArchive H R F J dir name file w
      → Describes H obj.manifest file
        × IsHonest H R (local_source F J store) name obj.manifest file w
  unfolding fetch get_segment_path
  local_source-segmented A =
      let m = A.manifest in
      let same = found-IsSame F J N store name dir w obj found at m A.manifest_there in
      (
        Describes-IsSame H m obj.manifest file same A.describes,
        record {
          gives = λ k inside.
              (let (info, _, stored) =
                  A.stored k (subst (λ z. k * z < length file) same.segment_size inside) in
                let reads =
                  read_at-found (λ f. get_segment_path f k)
                    (join (join dir (text "segments")) (segment_file k)) _ (rw parent_is refl)
                    stored.data_there in
                let tier : obj.manifest.tier ≡ 2 = same.tier ∙ A.is_segmented in
                rw (tier, same.segment_size, reads) refl);
        },
      )

  -- The local source answers, for a file of tier 3 that is archived and that its index finds, with
  -- each segment of the file; and the manifest that the index gives describes the file.
  pub local_source-blocked :
      IsBlockedArchive H R F J dir name file w
      → Describes H obj.manifest file
        × IsHonest H R (local_source F J store) name obj.manifest file w
  unfolding fetch get_block_segment_path
  local_source-blocked A =
      let m = A.manifest in
      let same = found-IsSame F J N store name dir w obj found at m A.manifest_there in
      (
        Describes-IsSame H m obj.manifest file same A.describes,
        record {
          gives = λ k inside.
              (let z = m.segment_size in
                let (within, at) =
                  segment_of_block H R F J file z k A.describes.cut
                    (subst (λ n. k * n < length file) same.segment_size inside) in
                let (info, _, stored) = A.stored (k / 30) within in
                let reads =
                  read_at-found (λ f. get_block_segment_path f (k / 30) (k % 30))
                    (block_path (join dir (text "blocks")) (k / 30) (text "segments")
                      (segment_file (k % 30)))
                    _ (rw parent_is refl) (stored.data_there (k % 30) _ at) in
                let tier : obj.manifest.tier ≡ 3 = same.tier ∙ A.is_blocked in
                rw (tier, same.segment_size, reads) refl);
        },
      )
