-- ===== src/Harness.antt =====
-- tools/test_harness/harness.py.
pub mod Labels
pub mod Sample
pub mod Verdicts
pub mod Batch
pub mod Short
pub mod Radioml
pub mod Stress
pub mod Runs
