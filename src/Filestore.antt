-- ===== src/Filestore.antt =====
-- src/filestore
pub mod Recovery
pub mod Models
pub mod Index
pub mod Reconstruct
pub mod Health
pub mod Repair
