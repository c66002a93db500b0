-- ===== src/Tests/Repeated.antt =====
-- An execution on the sample plan that ends after its claim has expired and been reconciled.
use looping_agent.Prelude.{ℕ, ◌≡◌, refl, String, false, none, some, List, [], ◌∷◌, arith}
use looping_agent.Js.Text.{safe_big_int, big_int, upper}
use looping_agent.Types.{LendingProtocol, SubagentRole, role, suilend, navi}
use looping_agent.StrategyLedger.Status.{PlanStatus, PositionSide, ReceiptStatus}
use looping_agent.StrategyLedger.{
  PositionLeg, ProtocolPositionSnapshot, AcceptedPlan, ExecutionReceipt, StrategyLedger,
  create_empty_strategy_ledger,
}
use looping_agent.Subagents.Reconcile.{
  reconcile_expired_executing_plans, claim_expired, seen_on_chain, execution_appears_on_chain,
  has_position_amount, sum_raw, sum_usd_from,
}
use looping_agent.Subagents.Executor.{finish}
use looping_agent.Subagents.Reconcile.Loops.{loops_of}
use looping_agent.Subagents.Repeated.{late_end_repeats_loop}
use looping_agent.Tests.Sample.{
  hundredths, live_config, positions, borrowed, proposal, plan, planned,
}
use looping_agent.Tests.Subagents.{by_executor}

-- The plan, claimed until 60000.
abbrev claimed_plan : AcceptedPlan ℕ
claimed_plan = record plan {
  status = PlanStatus.executing;
  claimed_by = some (role SubagentRole.executor);
  executor_run_id = some "run-1";
  claim_expires_at = some (some 60000);
}

abbrev leg : LendingProtocol → PositionSide → String → String → PositionLeg ℕ
leg protocol side asset raw_amount = record {
  protocol = protocol;
  asset = asset;
  coin_type = asset;
  raw_amount = raw_amount;
  amount_usd = 1;
  side = side;
}

-- The loop of the plan is on chain: collateral and debt on Suilend, the supply on NAVI.
abbrev looped : List (ProtocolPositionSnapshot ℕ)
looped =
    record (borrowed suilend 300) {
      deposits = leg suilend PositionSide.deposit "USDC" "10000000" ∷ [];
      borrows = leg suilend PositionSide.borrow "SUI" "4000000" ∷ [];
    }
    ∷ record (borrowed navi 300) { deposits = leg navi PositionSide.deposit "SUI" "4000000" ∷ [] }
    ∷ []

abbrev overdue : StrategyLedger ℕ
overdue = record planned {
  accepted_plans = claimed_plan ∷ [];
  position_snapshots = record (positions 300) { protocols = looped } ∷ [];
}

abbrev late_receipt : ExecutionReceipt ℕ
late_receipt = record {
  id = "receipt";
  plan_id = "plan-proposal";
  proposal_id = "proposal";
  executor_run_id = "run-1";
  executed_by = some (role SubagentRole.executor);
  dry_run = false;
  started_at = some 3000;
  completed_at = some 90000;
  status = ReceiptStatus.confirmed;
  legs = [];
  before_health_factor = none;
  after_health_factor = none;
  walrus_report_blob_id = none;
  error = none;
}

late_end_repeats_loop_example :
    (loops_of "plan-proposal"
        (reconcile_expired_executing_plans overdue live_config 90000).0.loop_positions
      ≡ 1)
    × (loops_of "plan-proposal"
          (finish live_config by_executor claimed_plan proposal late_receipt 95000
            (reconcile_expired_executing_plans overdue live_config 90000).0).loop_positions
        ≡ 2)
unfolding claim_expired seen_on_chain execution_appears_on_chain has_position_amount sum_raw
    sum_usd_from safe_big_int big_int upper create_empty_strategy_ledger
late_end_repeats_loop_example =
    late_end_repeats_loop live_config by_executor claimed_plan proposal late_receipt 90000 95000
      overdue refl refl refl refl refl refl refl (λ e. ground arith)
