-- ===== src/ArchiveB/Lifecycle.antt =====
-- The exit of one archive in implementations/archive-b/src/lifecycle.ts: the guarded phases, and the
-- machine that swaps a standby in.
pub mod Phases
pub mod Machine
mod Tests
