-- ===== src/Tests/Reread.antt =====
-- A run of the theorem on committing, mounting and reading a file.
use blockframe_rs.Base.{◌≡◌, ◌⊎◌, refl, ap, sym, take, drop}
use blockframe_rs.Disk.{join}
use blockframe_rs.Disk.Names.{manifest_file}
use blockframe_rs.Chunker.{new_chunker}
use blockframe_rs.Mount.Local.{local_source}
use blockframe_rs.Mount.Windows.Mounted.{commit-read}
use blockframe_rs.Mount.Windows.{returned, new_fs, read}
use blockframe_rs.Mount.Windows.Reads.{Forged}
use blockframe_rs.Tests.Crates.{
  plain, plain-IsIncremental, replication, replication-IsReplicating, replication-IsEncoding,
  replication-RefusesOdd, table, table-IsCache,
}
use blockframe_rs.Tests.Codec.{json, json-IsSerde}
use blockframe_rs.Tests.Memory.{memory, memory-IsFileSystem}
use blockframe_rs.Tests.Committed.{small, from, from-named, with_file}
use blockframe_rs.Tests.Restored.{
  name, store, listing, after, small_file, small_found, small_returns,
}

small_at : small_file.file_data.path ≡ join (small_returns.0).file_dir manifest_file
small_at = ap (λ d. join d manifest_file) (sym (small_returns.2).0.dir_is)

commit-read_example :
    ((read plain replication
        (local_source (memory (listing small)) json store)
        table
        name
        5
        7
        (new_fs (local_source (memory (listing small)) json store) table (after small))).0
      ≡ returned (take 5 (drop 7 small)))
    ⊎ Forged plain replication
        (local_source (memory (listing small)) json store)
        table
        name
        small_file.manifest
        small
        (new_fs (local_source (memory (listing small)) json store) table (after small))
commit-read_example =
    commit-read plain replication (memory (listing small)) json
      (memory-IsFileSystem (listing small)) json-IsSerde plain-IsIncremental
      replication-IsReplicating replication-IsEncoding replication-RefusesOdd table table-IsCache
      new_chunker 8_000_000 from name small (with_file small) refl from-named (small_returns.0)
      store small_file 5 7 (small_returns.1) small_found small_at
