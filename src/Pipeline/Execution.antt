-- ===== src/Pipeline/Execution.antt =====
-- A whole execution, with what other processes do to the ledger between its updates.
use looping_agent.Prelude.{◌≤◌, Option, none, some, arith}
use looping_agent.Js.Number.{Number}
use looping_agent.Types.{AppConfig}
use looping_agent.StrategyLedger.{LoopStrategyProposal, AcceptedPlan, StrategyLedger, update}
use looping_agent.Subagents.Validate.{Verdict, allow, deny, validate_executor_gate}
use looping_agent.Subagents.Claim.{ExecutorOptions, claim}
use looping_agent.Subagents.Executor.{
  ExecutorRun, block_claim, finish, receipt_of, before_health_factor, execute_gated,
  execute_claimed, claim_and_execute_accepted_plan,
}
use looping_agent.Subagents.OneActivePlan.{
  opening_plans, opening_plans-update, opening_plans-claim, opening_plans-block_claim,
  opening_plans-finish,
}

module _ {F : Type 0} ⦃num : Number F⦄ where
  execute_gated-one_plan :
      (config : AppConfig F) (options : ExecutorOptions) (run : ExecutorRun F)
      (plan : AcceptedPlan F) (p : LoopStrategyProposal F) (verdict : Verdict F)
      (ledger : StrategyLedger F)
      → opening_plans (run.before_end ledger) ≤ 1
      → opening_plans (execute_gated config options run plan p verdict ledger).0 ≤ 1
  unfolding execute_gated
  execute_gated-one_plan config options run plan p (deny reason) ledger h = omega (
    arith,
    opening_plans-update run.ended (block_claim options plan.id reason) (run.before_end ledger),
    opening_plans-block_claim options plan.id reason (run.before_end ledger),
  )
  execute_gated-one_plan config options run plan p (allow reason) ledger h =
      let receipt =
        receipt_of config options plan p run.calls (before_health_factor p ledger) run.completed
          run.stamp in
      omega (
        arith,
        opening_plans-update run.ended (finish config options plan p receipt run.completed)
            (run.before_end ledger),
        opening_plans-finish config options plan p receipt run.completed (run.before_end ledger),
      )

  execute_claimed-one_plan :
      (config : AppConfig F) (options : ExecutorOptions) (run : ExecutorRun F)
      (taken : Option (AcceptedPlan F × LoopStrategyProposal F)) (saved : StrategyLedger F)
      → ((l : StrategyLedger F) → opening_plans l ≤ 1 → opening_plans (run.before_gate l) ≤ 1)
      → ((l : StrategyLedger F) → opening_plans l ≤ 1 → opening_plans (run.before_end l) ≤ 1)
      → opening_plans saved ≤ 1
      → opening_plans (execute_claimed config options run taken saved).0 ≤ 1
  unfolding execute_claimed
  execute_claimed-one_plan config options run none saved gate end h = h
  execute_claimed-one_plan config options run (some (plan, p)) saved gate end h =
      execute_gated-one_plan config options run plan p
        (validate_executor_gate p (run.before_gate saved) config run.gated) (run.before_gate saved)
        (end (run.before_gate saved) (gate saved h))

  -- An execution, from its claim to its end, keeps at most one plan accepted or executing, if what
  -- other processes do before its gate and before its end keeps that too. Whether the plan is taken,
  -- blocked by the gate, executed or failed makes no difference, nor do the answers of the calls.
  pub execution_keeps_one_plan :
      (config : AppConfig F) (options : ExecutorOptions) (run : ExecutorRun F)
      (ledger : StrategyLedger F)
      → ((l : StrategyLedger F) → opening_plans l ≤ 1 → opening_plans (run.before_gate l) ≤ 1)
      → ((l : StrategyLedger F) → opening_plans l ≤ 1 → opening_plans (run.before_end l) ≤ 1)
      → opening_plans ledger ≤ 1
      → opening_plans (claim_and_execute_accepted_plan config options run ledger).0 ≤ 1
  unfolding claim_and_execute_accepted_plan
  execution_keeps_one_plan config options run ledger gate end h =
      execute_claimed-one_plan config options run (claim config options run.claimed ledger).1
        (update run.saved (λ l. (claim config options run.claimed ledger).0) ledger) gate end
        (omega (
          arith,
          opening_plans-update run.saved (λ l. (claim config options run.claimed ledger).0) ledger,
          opening_plans-claim config options run.claimed ledger,
        ))
