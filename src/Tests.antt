-- ===== src/Tests.antt =====
-- Tests and worked examples: the theorems at concrete inputs.
mod Sample
mod Subagents
mod Repeated
mod Strategist
mod Observe
mod Allocation
mod HealthGuard
mod Lock
mod Decide
mod Policy
mod Enclave
mod AgentMemory
mod Legs
mod Pipeline
