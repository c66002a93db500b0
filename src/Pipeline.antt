-- ===== src/Pipeline.antt =====
-- The pipeline as a sequence of ledger updates. Each action is one call of
-- `StrategyLedgerStore.update` by a subagent or by the main agent's tools; the store's lock is there to make
-- the calls take effect one after the other, in any order.
pub mod Safety
pub mod Execution
use looping_agent.Prelude.{ℕ, String, List, [], ◌∷◌}
use looping_agent.Js.Number.{Number}
use looping_agent.Types.{SubagentRole, AppConfig}
use looping_agent.StrategyLedger.Status.{ArchiveKind}
use looping_agent.StrategyLedger.{
  Message, MarketSnapshot, PositionSnapshot, LoopStrategyProposal, AcceptedPlan, ExecutionReceipt,
  StrategyLedger, HeartbeatInput, record_heartbeat, append_walrus_archive, update,
}
use looping_agent.Subagents.Produce.{add_market_snapshot, add_position_snapshot, submit_proposal}
use looping_agent.Subagents.Coordinator.{CoordinatorTimes, run_coordinator}
use looping_agent.Subagents.UnwindGuard.{run_unwind_guard}
use looping_agent.Subagents.Claim.{ExecutorOptions, claim}
use looping_agent.Subagents.Executor.{block_claim, finish}

-- A call of `update`, by what its mutator does.
pub data Action (F : Type 0) : Type 0 where
  heartbeat : ℕ → SubagentRole → HeartbeatInput F → Action F
  scout_rates : MarketSnapshot F → Action F
  read_positions : PositionSnapshot F → Action F
  propose : ℕ → LoopStrategyProposal F → Action F
  coordinate : CoordinatorTimes → Action F
  guard_unwind : SubagentRole → ℕ → Action F
  claim_plan : ExecutorOptions → ℕ → Action F
  block_plan : ExecutorOptions → String → Message F → Action F
  finish_plan :
      ExecutorOptions → AcceptedPlan F → LoopStrategyProposal F → ExecutionReceipt F → ℕ → Action F
  archive : ℕ → ArchiveKind → String → String → String → Action F

module _ {F : Type 0} ⦃num : Number F⦄ where
  unfoldable pub mutate : AppConfig F → Action F → StrategyLedger F → StrategyLedger F
  mutate config (heartbeat now role input) ledger = record_heartbeat now role input ledger
  mutate config (scout_rates snapshot) ledger = add_market_snapshot snapshot ledger
  mutate config (read_positions snapshot) ledger = add_position_snapshot snapshot ledger
  mutate config (propose now p) ledger = submit_proposal config now p ledger
  mutate config (coordinate times) ledger = (run_coordinator config times ledger).0
  mutate config (guard_unwind role now) ledger = (run_unwind_guard config role now ledger).0
  mutate config (claim_plan options now) ledger = (claim config options now ledger).0
  mutate config (block_plan options id reason) ledger = block_claim options id reason ledger
  mutate config (finish_plan options plan p receipt completed) ledger =
      finish config options plan p receipt completed ledger
  mutate config (archive now kind record_id blob_id url) ledger =
      append_walrus_archive now kind record_id blob_id url ledger

  -- The actions in the order of their locks, each with the time of its save.
  unfoldable pub run : AppConfig F → List (ℕ × Action F) → StrategyLedger F → StrategyLedger F
  run config [] ledger = ledger
  run config ((now, action) ∷ actions) ledger =
      run config actions (update now (mutate config action) ledger)
