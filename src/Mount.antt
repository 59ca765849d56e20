-- ===== src/Mount.antt =====
-- src/mount: the read-only file systems over an archive, local or remote.
pub mod Source
pub mod Cache
pub mod Hashes
pub mod Names
pub mod Local
pub mod Remote
pub mod Recover
pub mod Unix
pub mod Windows
