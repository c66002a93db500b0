-- ===== src/Subagents/Legs.antt =====
-- What the receipt of an execution says of its legs.
use looping_agent.Prelude.{
  ◌≡◌, ◌≢◌, refl, Bool, false, List, [], ◌∷◌, map, arith, ◌==◌, string_eq, eq_iff, All, count,
}
use looping_agent.Types.{AppConfig, protocol_eq, protocol_beq_iff}
use looping_agent.StrategyLedger.Status.{LegStatus, leg_eq, action_eq, ReceiptStatus}
use looping_agent.StrategyLedger.{LoopStrategyProposal, ExecutionLegReceipt}
use looping_agent.Subagents.Reconcile.{execution_legs, collateral_leg, borrow_leg, target_leg}
use looping_agent.Subagents.Live.{
  LiveCalls, execute_live, supply_collateral, set_confirmed, confirmed_leg, fail_submitted,
}
use looping_agent.Subagents.Executor.{execute}

abbrev pub is_confirmed_leg : ExecutionLegReceipt → Bool
is_confirmed_leg leg = leg.status == LegStatus.confirmed

abbrev pub is_submitted_leg : ExecutionLegReceipt → Bool
is_submitted_leg leg = leg.status == LegStatus.submitted

fail_submitted-none :
    (legs : List ExecutionLegReceipt) → count is_submitted_leg (map fail_submitted legs) ≡ 0
unfolding fail_submitted
fail_submitted-none [] = refl
fail_submitted-none (leg ∷ legs) = ground (arith, fail_submitted-none legs)

module _ {F : Type 0} where
  -- In live mode no leg of the receipt of a failed execution is left as submitted.
  pub failed_leaves_no_submitted_leg :
      (config : AppConfig F) (p : LoopStrategyProposal F) (calls : LiveCalls)
      → config.runtime.dry_run ≡ false
      → (execute config p calls).1 ≡ ReceiptStatus.failed
      → count is_submitted_leg (execute config p calls).0 ≡ 0
  unfolding execute
  failed_leaves_no_submitted_leg config p calls live h =
      ground (arith, live, fail_submitted-none (execute_live p calls (execution_legs p false)).1)

  -- In live mode a confirmed execution has confirmed every leg, if the target is another protocol
  -- than the collateral's.
  pub confirmed_confirms_every_leg :
      (config : AppConfig F) (p : LoopStrategyProposal F) (calls : LiveCalls)
      → config.runtime.dry_run ≡ false
      → p.supply_target_protocol ≢ p.collateral_protocol
      → (execute config p calls).1 ≡ ReceiptStatus.confirmed
      → All (λ leg. leg.status ≡ LegStatus.confirmed) (execute config p calls).0
  unfolding execute execute_live execution_legs collateral_leg borrow_leg target_leg
      supply_collateral set_confirmed confirmed_leg
  confirmed_confirms_every_leg config p calls live other h = ground (
    arith,
    live,
    protocol_beq_iff p.collateral_protocol p.supply_target_protocol,
    eq_iff p.collateral_asset p.collateral_asset,
  )
