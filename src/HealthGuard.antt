-- ===== src/HealthGuard.antt =====
-- agent/src/core/healthGuard.ts: the pass before each cycle that repays the largest borrow of a
-- critical position. What the clients answer is given, and so are the results of the saves. The
-- repays that are sent are listed, the last first.
pub mod Repay
pub mod Run
pub mod Justified
pub mod Memory
pub mod Blind
