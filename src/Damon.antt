-- ===== src/Damon.antt =====
-- pkg/damon: the client of the kernel's DAMON interface.
pub mod Region
pub mod Detect
pub mod Session
pub mod Iomem
pub mod Tests
