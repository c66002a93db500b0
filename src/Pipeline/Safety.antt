-- ===== src/Pipeline/Safety.antt =====
-- What holds of the ledger after any sequence of updates.
use looping_agent.Prelude.{ℕ, ◌≤◌, List, [], ◌∷◌, arith}
use looping_agent.Js.Number.{Number}
use looping_agent.Types.{AppConfig}
use looping_agent.StrategyLedger.{StrategyLedger, update, record_heartbeat, append_walrus_archive}
use looping_agent.Subagents.Produce.{add_market_snapshot, add_position_snapshot, submit_proposal}
use looping_agent.Subagents.OneActivePlan.{
  opening_plans, opening_plans-update, opening_plans-run_coordinator,
  opening_plans-run_unwind_guard, opening_plans-claim, opening_plans-block_claim,
  opening_plans-finish,
}
use looping_agent.Pipeline.{
  Action, coordinate, guard_unwind, claim_plan, block_plan, finish_plan, mutate, run,
}

module _ {F : Type 0} ⦃num : Number F⦄ where
  mutate-one_plan :
      (config : AppConfig F) (action : Action F) (ledger : StrategyLedger F)
      → opening_plans ledger ≤ 1
      → opening_plans (mutate config action ledger) ≤ 1
  unfolding mutate record_heartbeat append_walrus_archive add_market_snapshot add_position_snapshot
      submit_proposal
  mutate-one_plan config (coordinate times) ledger h =
      opening_plans-run_coordinator config times ledger h
  mutate-one_plan config (guard_unwind role now) ledger h =
      omega (arith, opening_plans-run_unwind_guard config role now ledger)
  mutate-one_plan config (claim_plan options now) ledger h =
      omega (arith, opening_plans-claim config options now ledger)
  mutate-one_plan config (block_plan options id reason) ledger h =
      omega (arith, opening_plans-block_claim options id reason ledger)
  mutate-one_plan config (finish_plan options plan p receipt completed) ledger h =
      omega (arith, opening_plans-finish config options plan p receipt completed ledger)
  mutate-one_plan config _ ledger h = h

  -- After any sequence of the pipeline's updates, in any order and at any times, a ledger with at
  -- most one plan that is accepted or executing still has at most one.
  pub one_opening_plan :
      (config : AppConfig F) (actions : List (ℕ × Action F)) (ledger : StrategyLedger F)
      → opening_plans ledger ≤ 1
      → opening_plans (run config actions ledger) ≤ 1
  unfolding run
  one_opening_plan config [] ledger h = h
  one_opening_plan config ((now, action) ∷ actions) ledger h =
      one_opening_plan config actions (update now (mutate config action) ledger) (
        omega (
          arith,
          opening_plans-update now (mutate config action) ledger,
          mutate-one_plan config action ledger h,
        ))
