-- ===== src/Lib.antt =====
-- BlockFrame archives files with Reed-Solomon parity and Merkle trees, and mounts the archive.
--
-- A commit cuts a file into segments, makes parity shards of them, hashes both, and writes a
-- manifest with the hashes. A mounted file system reads segments from a source, compares each with
-- the manifest's hash, recovers what does not match from the parity, and keeps what it verified in
-- a cache.
--
-- Which file is about what:
--   Utils          src/utils.rs: hashing, in one call and in buffers, and the size of segments
--   Merkle         src/merkle_tree/mod.rs and node.rs: trees, proofs and their verification
--   Manifest       src/merkle_tree/manifest.rs: manifests and their checks
--   ReedSolomon    the interface of the crate `reed_solomon_simd`, with its documented behaviour
--   Disk           the interface of the operating system's files, with its documented behaviour, and
--                  the names of the files of an archive
--   Chunker        src/chunker: cutting and parity (generate.rs), the writes (io.rs), and the
--                  commits of the three tiers (commit.rs) over the interface of files
--   Filestore      src/filestore: the index, the paths and the reconstruction of mod.rs, the decoders
--                  of recovery.rs, and the health checks and repairs of health.rs
--   Serve          src/serve/routes.rs: the handlers of the HTTP server
--   Mount          src/mount: the local and the remote source of source.rs, the cache, the names, the
--                  recovery of segments, and the reads and the calls of src/mount/filesystem_win.rs
--                  and of src/mount/filesystem_unix.rs; both have the same tables and the same
--                  recovery
--   Config         src/config.rs: the configuration, the parsing of sizes, the limit of the cache
--   Cli            src/bin/main.rs: the commands, once their arguments are parsed
--   Base           lists, byte strings, integers, maps and results, shared by all of these
--   Tests          stand-ins for the crates, and runs of the theorems
-- Definitions have the names of the functions that they model; a loop inside a function is a
-- definition beside it.
--
-- A byte string, and a Rust `String`, is a list of numbers. `usize` and `u64` are natural numbers:
-- the sizes stay far below their limits; where a cast from or to a signed type can wrap around, the
-- model does. A `HashMap` is the list of its entries. A method with `&mut self` that may fail takes
-- a state and gives a result and a state. A mutex is held for each call that the model makes, and
-- calls do not interleave.
--
-- Fuel: `build_tree` and the loop of `get_proof` take the number of nodes, which each level halves;
-- the loop of `read` takes the number of bytes plus one, since each round that goes on copies a
-- byte. The loop of `read_bytes` takes any fuel, since it need not end. What runs out of fuel is
-- told apart from what returns.
--
-- BLAKE3, the Reed-Solomon code, `serde_json`, the crate `toml`, floating-point numbers, the cache of
-- the crate `moka`, the operating system's files, the HTTP client, the directory buffer of WinFSP and
-- the source of segments are parameters, with the behaviour that their documentation gives as
-- hypotheses. A theorem on writes says what holds where an operation of the disk fails by a type
-- that it is given: with the empty type it is about a disk on which none fails, and the run
-- returns.
--
-- Not modelled: the start of the HTTP server and its routing, the parsing of arguments, the options
-- of a mount and the mounting by the operating system, printing and logging, and the constants that
-- src/mount/filesystem_win.rs gives for the volume. Two processes that write one archive are not
-- modelled either.
pub mod Base
pub mod Utils
pub mod Merkle
pub mod Disk
pub mod Manifest
pub mod ReedSolomon
pub mod Chunker
pub mod Filestore
pub mod Serve
pub mod Mount
pub mod Config
pub mod Cli
pub mod Tests
