-- ===== src/Mount/Names.antt =====
-- The tables of names of the file systems, and `refresh_files` of src/mount/filesystem_unix.rs;
-- src/mount/filesystem_win.rs has the same tables and the same text.
pub mod Inodes
pub mod Found
use blockframe_rs.Base.{
  ℕ, ◌+◌, Option, none, some, List, [], ◌∷◌, Text, Result, ok, err, HashMap, lookup, insert,
  string_key, usize_key,
}
use blockframe_rs.Manifest.{ManifestFile}
use blockframe_rs.Mount.Source.{SegmentSource}

pub record Names : Type 0 where
  pub inode_to_filename : HashMap ℕ Text
  pub filename_to_inode : HashMap Text ℕ
  pub next_inode : ℕ
  pub manifests : HashMap Text ManifestFile

-- The tables of a new file system; inode 1 is the root.
abbrev pub no_names : Names
no_names = record { inode_to_filename = []; filename_to_inode = []; next_inode = 2; manifests = [] }

-- The next inode goes to a file that has none.
unfoldable pub add_name : Text → Names → Names
add_name filename n = record n {
  inode_to_filename = insert n.next_inode filename n.inode_to_filename;
  filename_to_inode = insert filename n.next_inode n.filename_to_inode;
  next_inode = n.next_inode + 1;
}

-- The manifest of a file is kept if the source gives one.
unfoldable pub keep_manifest : Text → Result ManifestFile → Names → Names
keep_manifest filename (err e) n = n
keep_manifest filename (ok manifest) n = record n {
  manifests = insert filename manifest n.manifests;
}

module _ (S : SegmentSource) where
  unfoldable pub refresh_loop : List Text → Names → S.World → Names × S.World
  refresh_loop [] n w = (n, w)
  refresh_loop (filename ∷ files) n w = elim (lookup filename n.filename_to_inode) [
    | some inode ↦ refresh_loop files n w
    | none ↦
        let (manifest, w') = S.get_manifest filename w in
        refresh_loop files (keep_manifest filename manifest (add_name filename n)) w'
  ]

  unfoldable pub refresh_files : Names → S.World → Result Names × S.World
  refresh_files n w =
      let (files, w') = S.list_files w in
      elim files [
        | err e ↦ (err e, w')
        | ok listed ↦ let (n', w'') = refresh_loop listed n w' in (ok n', w'')
      ]
