-- ===== src/Runtime.antt =====
-- runtime: the archive node of the laboratory plane.
pub mod Bft
pub mod Trade
