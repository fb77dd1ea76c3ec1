-- ===== src/Runtime/Trade.antt =====
-- runtime/src/shared/tradeMatch.ts and mockL1.ts: matching of trade orders, and the fee's split.
pub mod Match
pub mod Fees
mod Tests
