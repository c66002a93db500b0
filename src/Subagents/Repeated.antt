-- ===== src/Subagents/Repeated.antt =====
-- An execution that outlives its claim: the coordinator reconciles its plan, and then it ends.
use looping_agent.Prelude.{
  ℕ, ◌≡◌, ◌≢◌, true, false, some, ap, ◌∙◌, arith, ◌==◌, string_eq, find, eq_iff, suc,
}
use looping_agent.Js.Number.{Number}
use looping_agent.Types.{AppConfig}
use looping_agent.StrategyLedger.Status.{ReceiptStatus}
use looping_agent.StrategyLedger.{
  LoopStrategyProposal, AcceptedPlan, ExecutionReceipt, StrategyLedger, latest_position_snapshot,
}
use looping_agent.Subagents.Reconcile.{
  opened_loop, claim_expired, reconcile_expired_executing_plans, seen_on_chain,
}
use looping_agent.Subagents.Claim.{ExecutorOptions}
use looping_agent.Subagents.Executor.{finish, finish_found, record_execution, holds_claim, has_id}
use looping_agent.Subagents.Reconcile.Loops.{loops_of, reconciled-opens, reconciled-claim}

module _ {F : Type 0} where
  -- The end of an execution whose claim is held adds a loop, whether or not the plan has one.
  finish-loops_of :
      (config : AppConfig F) (options : ExecutorOptions) (plan current : AcceptedPlan F)
      (p : LoopStrategyProposal F) (receipt : ExecutionReceipt F) (completed : ℕ)
      (ledger : StrategyLedger F)
      → find (has_id plan.id) ledger.accepted_plans ≡ some current
      → holds_claim options current ≡ true
      → receipt.status ≢ ReceiptStatus.failed
      → loops_of plan.id (finish config options plan p receipt completed ledger).loop_positions
        ≡ suc (loops_of plan.id ledger.loop_positions)
  unfolding finish finish_found record_execution opened_loop
  finish-loops_of config options plan current p receipt completed ledger h k n =
      rw (h, finish_found) (ground (arith, eq_iff plan.id plan.id))

module _ {F : Type 0} ⦃num : Number F⦄ where
  -- In live mode: a run holds the claim of a plan without a loop, the claim has expired, and the
  -- latest snapshot shows the plan's loop on chain, so the reconciliation records the loop. If the
  -- run's execution then ends on the reconciled ledger and has not failed, a second loop of the
  -- same plan is recorded.
  pub late_end_repeats_loop :
      (config : AppConfig F) (options : ExecutorOptions) (plan : AcceptedPlan F)
      (p : LoopStrategyProposal F) (receipt : ExecutionReceipt F) (now completed : ℕ)
      (ledger : StrategyLedger F)
      → config.runtime.dry_run ≡ false
      → find (has_id plan.id) ledger.accepted_plans ≡ some plan
      → holds_claim options plan ≡ true
      → claim_expired plan now ≡ true
      → find (λ x. x.id == plan.proposal_id) ledger.strategy_proposals ≡ some p
      → seen_on_chain p (latest_position_snapshot ledger) ≡ true
      → loops_of plan.id ledger.loop_positions ≡ 0
      → receipt.status ≢ ReceiptStatus.failed
      → let reconciled = (reconcile_expired_executing_plans ledger config now).0 in
        (loops_of plan.id reconciled.loop_positions ≡ 1)
        × (loops_of plan.id
              (finish config options plan p receipt completed reconciled).loop_positions
            ≡ 2)
  late_end_repeats_loop config options plan p receipt now completed ledger live f held expired found
        seen none_yet ok =
      let one = reconciled-opens config plan p now ledger live f expired found seen none_yet in
      let (current, at, holds) = reconciled-claim config options plan now ledger live f in
      (
        one,
        finish-loops_of config options plan current p receipt completed
              (reconcile_expired_executing_plans ledger config now).0 at (holds ∙ held) ok
            ∙ ap suc one,
      )
