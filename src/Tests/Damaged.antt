-- ===== src/Tests/Damaged.antt =====
-- A run of the theorem on the repair of a committed file of tier 1 whose data is lost.
use blockframe_rs.Base.{
  refl, inl, inr, sym, Option, none, Bytes, length, resize, if◌then◌else◌, arith, Bool-cases,
}
use blockframe_rs.Base.Exec.Ends.{Ends}
use blockframe_rs.Disk.{PathBuf, join}
use blockframe_rs.Disk.Laws.{Holds}
use blockframe_rs.Disk.Names.{data_file, parity_file}
use blockframe_rs.Disk.Names.Apart.{join_injective, data_file-ne-parity_file}
use blockframe_rs.Chunker.Generate.{padded_size}
use blockframe_rs.Filestore.Repair.Blocked.{repair}
use blockframe_rs.Filestore.Repair.Archived.{IsDamaged, KeepsParity, repair-IsTinyArchive}
use blockframe_rs.Tests.Crates.{plain, replication, replication-IsReplicating}
use blockframe_rs.Tests.Codec.{json, json-IsSerde}
use blockframe_rs.Tests.Memory.{memory, memory-IsFileSystem, path_eq, path_eq_refl, eq_of_path_eq}
use blockframe_rs.Tests.Committed.{small}
use blockframe_rs.Tests.Restored.{
  name, store, listing, dir, after, small_file, small_archive, small_found,
}

-- The disk after the commit and the loss of the data.
abbrev lost : PathBuf → Option Bytes
lost path = if path_eq path (join (dir small) data_file) then none else after small path

lost-IsDamaged :
    IsDamaged plain replication
      (memory (listing small))
      json
      (dir small)
      name
      small
      (after small)
      small_archive
      lost
lost-IsDamaged = let same = path_eq_refl (join (dir small) data_file) in inl (rw same refl)

lost-KeepsParity :
    KeepsParity plain replication
      (memory (listing small))
      json
      (dir small)
      name
      small
      (after small)
      small_archive
      lost
lost-KeepsParity k l =
    elim (Bool-cases (path_eq (join (dir small) (parity_file k)) (join (dir small) data_file))) [
      | inl same ↦
          let paths =
            eq_of_path_eq (join (dir small) (parity_file k)) (join (dir small) data_file) same in
          absurd (
            data_file-ne-parity_file k
              (sym (join_injective (dir small) (parity_file k) data_file paths)))
      | inr differs ↦ record { same = rw differs refl; stays = λ h. rw differs h }
    ]

repair-IsTinyArchive_example :
    Ends ⊥
      (λ _ u.
        Holds
          (memory (listing small))
          u
          (join (dir small) data_file)
          (resize small (padded_size (length small))))
      (repair plain replication (memory (listing small)) small_file lost)
repair-IsTinyArchive_example =
    repair-IsTinyArchive plain replication (memory (listing small)) json replication-IsReplicating
      (memory-IsFileSystem (listing small)) json-IsSerde store (dir small) name small (after small)
      small_archive small_file lost small_found refl (omega arith) lost-IsDamaged lost-KeepsParity
