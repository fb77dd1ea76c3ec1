-- ===== src/ArchiveB/Wal.antt =====
-- implementations/archive-b/src/wal.ts: the write-ahead log of signed votes.
pub mod Errors
pub mod Reader
pub mod Payload
pub mod Record
pub mod Frame
pub mod Store
mod Tests
