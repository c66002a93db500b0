-- ===== src/Subagents/Produce.antt =====
-- The mutators of the subagents that only add records: `runRateScout`, `runPositionRisk` and
-- `runLoopStrategist` of agent/src/core/subagents.ts (the last also in `propose_strategy_plan` of
-- agent/src/core/toolRegistry.ts).
use looping_agent.Prelude.{ℕ, some, ◌∷◌}
use looping_agent.Js.Number.{Number}
use looping_agent.Types.{AppConfig}
use looping_agent.StrategyLedger.Status.{rejected}
use looping_agent.StrategyLedger.{
  MarketSnapshot, PositionSnapshot, LoopStrategyProposal, StrategyLedger,
}
use looping_agent.Subagents.Validate.{Verdict, allow, deny, validate_loop_proposal}

module _ {F : Type 0} where
  unfoldable pub add_market_snapshot : MarketSnapshot F → StrategyLedger F → StrategyLedger F
  add_market_snapshot snapshot ledger = record ledger {
    market_snapshots = snapshot ∷ ledger.market_snapshots;
  }

  unfoldable pub add_position_snapshot : PositionSnapshot F → StrategyLedger F → StrategyLedger F
  add_position_snapshot snapshot ledger = record ledger {
    position_snapshots = snapshot ∷ ledger.position_snapshots;
  }

  -- A built proposal after its validation.
  unfoldable pub settle : Verdict F → LoopStrategyProposal F → LoopStrategyProposal F
  settle (deny reason) p = record p { status = rejected; rejection_reason = some reason }
  settle (allow reason) p = p

module _ {F : Type 0} ⦃num : Number F⦄ where
  unfoldable pub submit_proposal :
      AppConfig F → ℕ → LoopStrategyProposal F → StrategyLedger F → StrategyLedger F
  submit_proposal config now p ledger = record ledger {
    strategy_proposals =
        settle (validate_loop_proposal p ledger config now) p ∷ ledger.strategy_proposals;
  }
