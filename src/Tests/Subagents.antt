-- ===== src/Tests/Subagents.antt =====
-- The theorems on the subagents at concrete inputs.
use looping_agent.Prelude.{
  ℕ, ◌≤◌, ◌≡◌, refl, true, none, some, List, [], ◌∷◌, any, count, arith, string_eq,
}
use looping_agent.Js.Text.{safe_big_int, big_int, decimal}
use looping_agent.Js.Text.RoundTrip.{safe_big_int-decimal}
use looping_agent.Types.{SubagentRole, role, navi, main_agent}
use looping_agent.StrategyLedger.{
  Message, proposal_satisfies, StrategyLedger, update, is_fresh, active_loop_opening_plans,
  create_empty_strategy_ledger,
}
use looping_agent.Subagents.Validate.{
  allow, validate_loop_proposal, check_proposal, check_raw, check_ledger, market_is_fresh,
  positions_are_fresh,
}
use looping_agent.Subagents.Acceptable.{SoundProposal, ReadyLedger, validate_loop_proposal_iff}
use looping_agent.Subagents.Claim.{
  ExecutorOptions, claim, claim_candidate, claim_proposal, claimed_plan,
}
use looping_agent.Subagents.Exclusive.{claim_is_exclusive}
use looping_agent.Subagents.Executor.{ExecutorRun, execute_claimed, blocked, block_claim}
use looping_agent.Subagents.UnwindGuard.{
  run_unwind_guard, guards, is_active_loop, is_active_critical, create_lock, clear_locks,
}
use looping_agent.Subagents.Fence.{
  critical_is_fenced, new_lock_stops_loops, safe_is_cleared, locked_coordinator, locked_execution,
}
use looping_agent.Subagents.Stuck.{unwinding_is_stuck, unwinding_elsewhere}
use looping_agent.Subagents.Coordinator.{CoordinatorTimes, run_coordinator, expire_proposals}
use looping_agent.Subagents.Reconcile.{reconcile_expired_executing_plans}
use looping_agent.Subagents.OneActivePlan.{opening_plans}
use looping_agent.Pipeline.{Action, coordinate, claim_plan, run}
use looping_agent.Pipeline.Safety.{one_opening_plan}
use looping_agent.Tests.Sample.{
  hundredths, live_config, positions, borrowed, proposal, plan, lock, proposed, planned, endangered,
  locked, calls,
}

abbrev pub by_executor : ExecutorOptions
by_executor = record { actor = role SubagentRole.executor; run_id = "run-1"; plan_id = none }

abbrev by_main_agent : ExecutorOptions
by_main_agent = record { actor = main_agent; run_id = "run-2"; plan_id = some "plan-proposal" }

abbrev times_at : ℕ → CoordinatorTimes
times_at now = record { start = now; stale = now; validated = now; checked = now; accepted = now }

pub proposal_is_allowed :
    validate_loop_proposal proposal proposed live_config 2000 ≡ allow proposal_satisfies
unfolding validate_loop_proposal check_proposal check_raw check_ledger market_is_fresh
    positions_are_fresh is_fresh big_int active_loop_opening_plans create_empty_strategy_ledger
proposal_is_allowed = refl

validate_loop_proposal_iff_example :
    SoundProposal proposal live_config 2000 × ReadyLedger proposal proposed live_config 2000
validate_loop_proposal_iff_example =
    (validate_loop_proposal_iff proposal proposed live_config 2000).0 proposal_is_allowed

abbrev actions : List (ℕ × Action ℕ)
actions =
    (2000, coordinate (times_at 2000))
    ∷ (3000, claim_plan by_executor 3000)
    ∷ (4000, coordinate (times_at 4000))
    ∷ []

one_opening_plan_example : opening_plans (run live_config actions proposed) ≤ 1
unfolding create_empty_strategy_ledger
one_opening_plan_example = one_opening_plan live_config actions proposed (omega arith)

abbrev claimed_at : ℕ → StrategyLedger ℕ
claimed_at now = (claim live_config by_executor now planned).0

plan_is_claimed :
    (claim live_config by_executor 3000 planned).1
    ≡ some (claimed_plan live_config by_executor 3000 proposal plan, proposal)
unfolding claim claim_candidate claim_proposal
plan_is_claimed = refl

claim_is_exclusive_example : (claim live_config by_main_agent 4000 (claimed_at 3000)).1 ≡ none
claim_is_exclusive_example =
    claim_is_exclusive live_config by_executor by_main_agent 3000 4000 planned _ refl (omega arith)
      plan_is_claimed

critical_is_fenced_example :
    any
      (guards navi)
      (run_unwind_guard live_config SubagentRole.unwind_guard 2000 endangered).0.risk_locks
    ≡ true
critical_is_fenced_example =
    critical_is_fenced live_config SubagentRole.unwind_guard 2000 endangered (positions 110)
      (borrowed navi 110) refl refl

new_lock_stops_loops_example :
    count is_active_loop
      (run_unwind_guard live_config SubagentRole.unwind_guard 2000 endangered).0.loop_positions
    ≡ 0
unfolding create_empty_strategy_ledger
new_lock_stops_loops_example =
    new_lock_stops_loops live_config SubagentRole.unwind_guard 2000 endangered (positions 110)
      (borrowed navi 110) refl refl refl

safe_is_cleared_example :
    count is_active_critical
      (run_unwind_guard live_config SubagentRole.unwind_guard 2000 locked).0.risk_locks
    ≡ 0
safe_is_cleared_example =
    safe_is_cleared live_config SubagentRole.unwind_guard 2000 locked (positions 300) refl refl

locked_coordinator_example :
    (run_coordinator live_config (times_at 2000) locked).0.accepted_plans
    ≡ (reconcile_expired_executing_plans
        (expire_proposals 2000 locked)
        live_config
        2000).0.accepted_plans
locked_coordinator_example = locked_coordinator live_config (times_at 2000) locked refl

-- Between the claim and the gate, the unwind guard locks NAVI.
abbrev interrupted : ExecutorRun ℕ
interrupted = record {
  claimed = 3000;
  saved = 3001;
  gated = 3002;
  completed = 3003;
  stamp = 3004;
  ended = 3005;
  before_gate = λ ledger. record ledger { risk_locks = lock ∷ ledger.risk_locks };
  before_end = λ ledger. ledger;
  calls = calls;
}

locked_execution_example :
    (reason : Message ℕ) × (execute_claimed live_config by_executor interrupted
        (some (claimed_plan live_config by_executor 3000 proposal plan, proposal))
        (claimed_at 3000)
      ≡ (
        update 3005
            (block_claim by_executor "plan-proposal" reason)
            (record (claimed_at 3000) { risk_locks = lock ∷ (claimed_at 3000).risk_locks }),
        blocked reason,
      ))
unfolding claimed_plan
locked_execution_example =
    locked_execution live_config by_executor interrupted
      (claimed_plan live_config by_executor 3000 proposal plan) proposal (claimed_at 3000) refl

unwinding_is_stuck_example :
    (count is_active_critical
        (clear_locks 4000 120
          (create_lock 3000 SubagentRole.unwind_guard 120
            (borrowed navi 110)
            endangered).0).0.risk_locks
      ≡ 0)
    × (count
          (unwinding_elsewhere navi)
          (clear_locks 4000 120
            (create_lock 3000 SubagentRole.unwind_guard 120
              (borrowed navi 110)
              endangered).0).0.loop_positions
        ≡ 1)
unfolding create_empty_strategy_ledger
unwinding_is_stuck_example =
    unwinding_is_stuck 3000 4000 SubagentRole.unwind_guard 120 (borrowed navi 110) endangered refl

safe_big_int-decimal_example : safe_big_int (decimal 1200) ≡ some 1200
safe_big_int-decimal_example = safe_big_int-decimal 1200
