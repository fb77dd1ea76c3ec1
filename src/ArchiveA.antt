-- ===== src/ArchiveA.antt =====
-- implementations/archive-a/src/core.ts, the first of the two implementations of the protocol.
mod Types
mod Machine
mod Lifecycle
mod Ssz
mod Containers
mod Certificates
mod Wal
