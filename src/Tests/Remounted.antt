-- ===== src/Tests/Remounted.antt =====
-- Runs of the theorems on mounting and reconstructing an archive that a commit left.
use blockframe_rs.Base.{
  ◌≡◌, ◌⊎◌, refl, some, [], ◌∷◌, text_eq, length, take, drop, lookup, string_key, arith, pos,
}
use blockframe_rs.Base.Exec.Ends.{Ends}
use blockframe_rs.Utils.{blake3_hash_bytes}
use blockframe_rs.Disk.{join}
use blockframe_rs.Disk.Laws.{Holds}
use blockframe_rs.Disk.Names.{manifest_file}
use blockframe_rs.Filestore.Reconstruct.{reconstructed, reconstruct}
use blockframe_rs.Filestore.Reconstruct.Laws.{reconstruct-Holds}
use blockframe_rs.Filestore.Models.{File}
use blockframe_rs.Mount.Local.{local_source}
use blockframe_rs.Mount.Local.Laws.{local_source-tiny}
use blockframe_rs.Mount.Windows.{Inner, returned, read}
use blockframe_rs.Mount.Windows.Segments.{IsClean}
use blockframe_rs.Mount.Windows.Reads.{Describes, Forged}
use blockframe_rs.Mount.Windows.Honest.{IsHonest, read-IsHonest}
use blockframe_rs.Mount.Cache.{cache_key}
use blockframe_rs.Tests.Crates.{plain, replication, table, table-IsCache}
use blockframe_rs.Tests.Codec.{json, json-IsSerde}
use blockframe_rs.Tests.Memory.{memory, memory-IsFileSystem}
use blockframe_rs.Tests.Committed.{small}
use blockframe_rs.Tests.Restored.{
  name, store, listing, dir, after, small_file, small_archive, small_found,
}

small-IsHonest :
    Describes plain small_file.manifest small
    × IsHonest plain replication
        (local_source (memory (listing small)) json store)
        name
        small_file.manifest
        small
        (after small)
small-IsHonest =
    local_source-tiny plain replication (memory (listing small)) json json-IsSerde store name
      (dir small) small (after small) small_file small_found refl small_archive

-- The state of a file system that is mounted over the archive.
abbrev pub mounted : Inner table (local_source (memory (listing small)) json store)
mounted = record {
  source = after small;
  cache = [];
  names = record {
    inode_to_filename = (2, name) ∷ [];
    filename_to_inode = (name, 2) ∷ [];
    next_inode = 3;
    manifests = (name, small_file.manifest) ∷ [];
  };
}

mounted-IsClean :
    IsClean plain replication
      (local_source (memory (listing small)) json store)
      table
      table-IsCache
      mounted
mounted-IsClean = record {
  clean = λ f k bytes m hash held found e.
      absurd (table-IsCache.empty-Holds (cache_key f k) bytes held);
}

pub mounted-lookup : lookup name mounted.names.manifests ≡ some small_file.manifest
unfolding lookup text_eq
mounted-lookup = refl

read-IsHonest_example :
    ((read plain replication
        (local_source (memory (listing small)) json store)
        table
        name
        5
        7
        mounted).0
      ≡ returned (take 5 (drop 7 small)))
    ⊎ Forged plain replication
        (local_source (memory (listing small)) json store)
        table
        name
        small_file.manifest
        small
        mounted
read-IsHonest_example =
    read-IsHonest plain replication (local_source (memory (listing small)) json store) table
      table-IsCache name small_file.manifest small (after small) (small-IsHonest.0)
      (small-IsHonest.1) 5 7 mounted refl mounted-IsClean mounted-lookup

-- The archived file, by its path and its hash.
abbrev archived : File
archived = record {
  file_name = name;
  file_data = record {
    hash = blake3_hash_bytes plain small;
    path = join (dir small) manifest_file;
  };
  manifest = record small_archive.manifest { size = pos (length small) };
}

reconstruct-Holds_example :
    Ends ⊥
      (λ _ w'. Holds (memory (listing small)) w' (join reconstructed name) small)
      (reconstruct (memory (listing small)) archived (after small))
reconstruct-Holds_example =
    reconstruct-Holds (memory (listing small)) plain replication json
      (memory-IsFileSystem (listing small)) archived (dir small) name small (after small)
      small_archive refl refl (omega arith)
