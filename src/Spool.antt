-- ===== src/Spool.antt =====
-- internal/spool/spool.go: the on-disk spool.
pub mod Disk
pub mod State
pub mod Cap
pub mod Ops
pub mod Rotation
pub mod Faults
pub mod Listing
pub mod Store
mod Tests
