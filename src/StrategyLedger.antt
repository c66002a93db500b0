-- ===== src/StrategyLedger.antt =====
-- agent/src/core/strategyLedger.ts: the ledger's records, its queries, and the functions that the
-- subagents apply to it under the store's lock.
pub mod Status
pub mod Records
pub mod Ops
pub mod Lock
unfoldable pub use Ops.*
pub use Records.*
