-- ===== src/Runtime/Bft.antt =====
-- runtime/src/archive/bft: the networked votes of one height.
pub mod Round
pub mod Quorum
mod Tests
