-- ===== src/Subagents/Strategist/Run.antt =====
-- `runLoopStrategist` of agent/src/core/subagents.ts: the choice of a proposal, and the update that
-- submits it.
use looping_agent.Prelude.{ℕ, String, Bool, not, Option, none, some, length, if◌then◌else◌}
use looping_agent.Js.Number.{Number}
use looping_agent.Types.{AppConfig}
use looping_agent.StrategyLedger.{
  MarketSnapshot, PositionSnapshot, LoopStrategyProposal, StrategyLedger, latest_market_snapshot,
  latest_position_snapshot, update,
}
use looping_agent.Subagents.Produce.{submit_proposal}
use looping_agent.Subagents.Live.{Call, returns, throws}
use looping_agent.Subagents.Strategist.Build.{BuildInput, Built, build_loop_proposal}
use looping_agent.Subagents.Strategist.Llm.{
  LlmReply, LlmDecision, declines, opens, parse_llm_loop_decision, build_llm_loop_proposal,
}

-- What the tick is given besides the ledger: its run, its time, the wallet's USDC, and whether the
-- LLM is on, with its reply or the error on the way to it.
pub record StrategistRun (F : Type 0) : Type 0 where
  pub run_id : String
  pub now : ℕ
  pub usdc_raw : Option ℕ
  pub llm_enabled : Bool
  pub reply : Call (LlmReply F)

-- Who decided.
pub data DecidedBy : Type 0 where
  deterministic llm deterministic_after_decline deterministic_fallback : DecidedBy

-- The result of the choice, and of the tick.
pub data Strategy (F : Type 0) : Type 0 where
  skipped : Strategy F
  no_proposal : DecidedBy → Strategy F
  crashed : String → Strategy F
  proposed : DecidedBy → LoopStrategyProposal F → Strategy F

module _ {F : Type 0} where
  unfoldable pub input_of :
      StrategistRun F
      → ℕ
      → Option (MarketSnapshot F)
      → Option (PositionSnapshot F)
      → Option (BuildInput F)
  input_of run count (some market) (some positions) = some (record {
    run_id = run.run_id;
    count = count;
    now = run.now;
    usdc_raw = run.usdc_raw;
    market = market;
    positions = positions;
  })
  input_of run count _ _ = none

  -- A deterministic choice, from the builder's result.
  unfoldable pub decided : DecidedBy → Built F → Strategy F
  decided who (returns none) = no_proposal who
  decided who (returns (some p)) = proposed who p
  decided who (throws e) = crashed e

module _ {F : Type 0} ⦃num : Number F⦄ where
  unfoldable pub build : AppConfig F → Option (BuildInput F) → Built F
  build config none = returns none
  build config (some input) = build_loop_proposal input config

  -- After the LLM has declined.
  unfoldable pub after_decline : Built F → Strategy F
  after_decline (returns none) = no_proposal llm
  after_decline (returns (some p)) = proposed deterministic_after_decline p
  after_decline (throws e) = crashed e

  -- The proposal of the LLM, or the fallback after an error on the way.
  unfoldable pub after_open : Built F → Call (LoopStrategyProposal F) → Strategy F
  after_open fallback (returns p) = proposed llm p
  after_open fallback (throws e) = decided deterministic_fallback fallback

  unfoldable pub follow : AppConfig F → BuildInput F → Built F → Call (LlmDecision F) → Strategy F
  follow config input fallback (throws e) = decided deterministic_fallback fallback
  follow config input fallback (returns (declines rationale)) = after_decline fallback
  follow config input fallback (returns (opens collateral target usd borrow rationale)) =
      after_open fallback
        (build_llm_loop_proposal input config collateral target usd borrow rationale)

  -- `decideLoopProposalWithLlm`, and what its decision leads to.
  unfoldable pub ask_llm : AppConfig F → Option (BuildInput F) → Call (LlmReply F) → Strategy F
  ask_llm config none reply = decided deterministic_fallback (returns none)
  ask_llm config (some input) (throws e) =
      decided deterministic_fallback (build_loop_proposal input config)
  ask_llm config (some input) (returns reply) =
      follow config input (build_loop_proposal input config) (parse_llm_loop_decision reply)

  unfoldable pub choose_strategy : AppConfig F → StrategistRun F → StrategyLedger F → Strategy F
  choose_strategy config run ledger =
      let input =
        input_of run (length ledger.strategy_proposals) (latest_market_snapshot ledger)
          (latest_position_snapshot ledger) in
      if not config.loop_strategy.enabled
      then skipped
      else if run.llm_enabled
      then ask_llm config input run.reply
      else decided deterministic (build config input)

  -- The update that a choice makes, at the times of its validation and of its save.
  unfoldable pub submit : AppConfig F → ℕ → ℕ → Strategy F → StrategyLedger F → StrategyLedger F
  submit config validated saved (proposed who p) ledger =
      update saved (submit_proposal config validated p) ledger
  submit config validated saved _ ledger = ledger
