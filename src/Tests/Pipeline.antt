-- ===== src/Tests/Pipeline.antt =====
-- A whole execution between the updates of the coordinator and the unwind guard.
use looping_agent.Prelude.{ℕ, ◌≤◌, none, List, [], ◌∷◌, arith}
use looping_agent.Types.{SubagentRole, role}
use looping_agent.StrategyLedger.{create_empty_strategy_ledger}
use looping_agent.Subagents.Claim.{ExecutorOptions}
use looping_agent.Subagents.Executor.{ExecutorRun, claim_and_execute_accepted_plan}
use looping_agent.Subagents.OneActivePlan.{opening_plans}
use looping_agent.Pipeline.{Action, coordinate, guard_unwind, run}
use looping_agent.Pipeline.Safety.{one_opening_plan}
use looping_agent.Pipeline.Execution.{execution_keeps_one_plan}
use looping_agent.Tests.Sample.{hundredths, live_config, planned, calls}

abbrev options : ExecutorOptions
options = record { actor = role SubagentRole.executor; run_id = "run-1"; plan_id = none }

abbrev ticks : List (ℕ × Action ℕ)
ticks =
    (
      4000,
      coordinate (record {
        start = 4000;
        stale = 4000;
        validated = 4000;
        checked = 4000;
        accepted = 4000;
      }),
    )
    ∷ (5000, guard_unwind SubagentRole.unwind_guard 5000)
    ∷ []

abbrev interleaved : ExecutorRun ℕ
interleaved = record {
  claimed = 3000;
  saved = 3001;
  gated = 5001;
  completed = 5002;
  stamp = 5003;
  ended = 6000;
  before_gate = run live_config ticks;
  before_end = run live_config ticks;
  calls = calls;
}

execution_keeps_one_plan_example :
    opening_plans (claim_and_execute_accepted_plan live_config options interleaved planned).0 ≤ 1
unfolding create_empty_strategy_ledger
execution_keeps_one_plan_example =
    execution_keeps_one_plan live_config options interleaved planned
      (one_opening_plan live_config ticks) (one_opening_plan live_config ticks) (omega arith)
