-- ===== src/Subagents.antt =====
-- agent/src/core/subagents.ts
pub mod Validate
pub mod Reconcile
pub mod Coordinator
pub mod UnwindGuard
pub mod Live
pub mod Claim
pub mod Executor
pub mod OneActivePlan
pub mod Produce
pub mod Observe
pub mod Acceptable
pub mod Fence
pub mod Stuck
pub mod Repeated
pub mod Exclusive
pub mod Legs
pub mod Strategist
