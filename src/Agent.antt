-- ===== src/Agent.antt =====
-- internal/agent: the sources, the loops that collect and ship, and the shutdown.
pub mod Sources
pub mod DamonSource
pub mod Loop
pub mod Shutdown
pub mod Tests
