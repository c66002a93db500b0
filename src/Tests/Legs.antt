-- ===== src/Tests/Legs.antt =====
-- The theorems on the legs of an execution at concrete inputs.
use looping_agent.Prelude.{◌≡◌, refl, count, All, arith}
use looping_agent.StrategyLedger.Status.{LegStatus, ReceiptStatus}
use looping_agent.StrategyLedger.{ExecutionLegReceipt}
use looping_agent.Subagents.Reconcile.{execution_legs, collateral_leg, borrow_leg, target_leg}
use looping_agent.Subagents.Live.{
  LiveCalls, throws, execute_live, supply_collateral, set_confirmed, confirmed_leg,
}
use looping_agent.Subagents.Executor.{execute}
use looping_agent.Subagents.Legs.{
  is_submitted_leg, failed_leaves_no_submitted_leg, confirmed_confirms_every_leg,
}
use looping_agent.Tests.Sample.{live_config, proposal, calls}

-- The borrow fails after the collateral has been supplied.
abbrev failing : LiveCalls
failing = record calls { borrow = throws "no liquidity" }

execution_fails : (execute live_config proposal failing).1 ≡ ReceiptStatus.failed
unfolding execute execute_live execution_legs collateral_leg borrow_leg target_leg supply_collateral
    set_confirmed confirmed_leg
execution_fails = refl

failed_leaves_no_submitted_leg_example :
    count is_submitted_leg (execute live_config proposal failing).0 ≡ 0
failed_leaves_no_submitted_leg_example =
    failed_leaves_no_submitted_leg live_config proposal failing refl execution_fails

execution_succeeds : (execute live_config proposal calls).1 ≡ ReceiptStatus.confirmed
unfolding execute execute_live execution_legs collateral_leg borrow_leg target_leg supply_collateral
    set_confirmed confirmed_leg
execution_succeeds = refl

confirmed_confirms_every_leg_example :
    All
      (λ (leg : ExecutionLegReceipt). leg.status ≡ LegStatus.confirmed)
      (execute live_config proposal calls).0
confirmed_confirms_every_leg_example =
    confirmed_confirms_every_leg live_config proposal calls refl (λ e. ground arith)
      execution_succeeds
