-- ===== src/Subagents/Strategist.antt =====
-- `runLoopStrategist` of agent/src/core/subagents.ts: the sizing of a loop, the deterministic
-- builders of a proposal, the builder from an LLM's decision, and the choice between them.
pub mod Sizing
pub mod Build
pub mod Llm
pub mod Run
pub mod Shape
pub mod Bounded
pub mod Fallback
pub mod ZeroBorrow
