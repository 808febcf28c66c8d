-- ===== src/Synth.antt =====
-- cmd/memaudit-synth: the synthetic workload that proves the cold-page measurement.
pub mod Size
pub mod Band
pub mod Run
mod Tests
