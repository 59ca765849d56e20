-- ===== src/Tests.antt =====
-- Concrete stand-ins for the crates, and runs of the theorems on concrete inputs.
mod Crates
mod Codec
mod Memory
mod Trees
mod Storage
mod Archive
mod Mounted
mod Committed
mod Restored
mod Remounted
mod Reread
mod Server
mod Calls
mod Winfsp
mod Offsets
mod Idle
mod Sizes
mod Lost
mod Stripes
mod Unchunked
mod Damaged
