-- ===== src/ArchiveB.antt =====
-- implementations/archive-b: an implementation of the archive protocol.
pub mod Types
pub mod Consensus
pub mod Machine
pub mod Roster
pub mod Lifecycle
pub mod Ssz
pub mod Membership
pub mod Wal
pub mod Certificates
mod Tests
