-- ===== src/AgentMemory.antt =====
-- agent/src/core/agentMemory.ts: the agent's own records of runs, actions, posts and tasks. The
-- reading and writing of the state file is not modelled.
pub mod Records
pub mod Ops
pub mod Cooldown
pub mod Session
pub mod WellFormed
pub mod Invariant
pub mod Skips
pub mod Blocks
