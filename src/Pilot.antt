-- ===== src/Pilot.antt =====
-- pilot: the operator's qualification run.
pub mod Gate
pub mod Scheduler
