-- ===== src/Subagents/OneActivePlan.antt =====
-- The number of plans that are accepted or executing, and how each mutator of the pipeline changes
-- it.
use looping_agent.Prelude.{
  ℕ, ◌+◌, ◌≤◌, String, ◌≡◌, refl, true, Option, none, some, List, [], ◌∷◌, arith, ltb, ◌==◌,
  string_eq, count, length, length-filter, count-take-le, find, inl, inr, Bool-cases,
  count-update_first-le, count-update_first_found,
}
use looping_agent.Js.Number.{Number}
use looping_agent.Types.{AppConfig, SubagentRole}
use looping_agent.StrategyLedger.Status.{plan_eq}
use looping_agent.StrategyLedger.{
  Message, claim_in_progress, LoopStrategyProposal, PositionSnapshot, AcceptedPlan,
  ExecutionReceipt, StrategyLedger, is_opening_plan, active_loop_opening_plans, update,
  prune_ledger,
}
use looping_agent.Subagents.Validate.{Verdict, allow, deny}
use looping_agent.Subagents.Reconcile.{
  Reconciled, claim_expired, reconcile_plan, reconcile_plans, confirm_plan, cancel_plan,
  reconcile_expired, reconcile_expired_executing_plans,
}
use looping_agent.Subagents.Coordinator.{
  CoordinatorTimes, run_coordinator, coordinate_reconciled, decide_open, apply_verdict,
  reject_first_open, accept_first_open, plan_of, is_open, expire_proposals,
}
use looping_agent.Subagents.UnwindGuard.{
  run_unwind_guard, guard_snapshot, guard_positions, fence, clear_locks, create_lock, refresh_lock,
}
use looping_agent.Subagents.Claim.{ExecutorOptions, claim, claim_candidate, claim_proposal, selects}
use looping_agent.Subagents.Executor.{
  block_claim, finish, finish_found, record_execution, blocked_plan, finished_plan, holds_claim,
}

module _ {F : Type 0} where
  -- The number of plans that are opening a loop.
  abbrev pub opening_plans : StrategyLedger F → ℕ
  opening_plans ledger = count is_opening_plan ledger.accepted_plans

  pub length-active_loop_opening_plans :
      (ledger : StrategyLedger F) → length (active_loop_opening_plans ledger) ≡ opening_plans ledger
  unfolding active_loop_opening_plans
  length-active_loop_opening_plans ledger = length-filter is_opening_plan ledger.accepted_plans

  pub opening_plans-update :
      (now : ℕ) (f : StrategyLedger F → StrategyLedger F) (ledger : StrategyLedger F)
      → opening_plans (update now f ledger) ≤ opening_plans (f ledger)
  unfolding update prune_ledger
  opening_plans-update now f ledger = count-take-le is_opening_plan 100 (f ledger).accepted_plans

  opening_plans-expire :
      (now : ℕ) (ledger : StrategyLedger F)
      → opening_plans (expire_proposals now ledger) ≡ opening_plans ledger
  unfolding expire_proposals
  opening_plans-expire now ledger = refl

  pub opening_plans-block_claim :
      (options : ExecutorOptions) (id : String) (reason : Message F) (ledger : StrategyLedger F)
      → opening_plans (block_claim options id reason ledger) ≤ opening_plans ledger
  unfolding block_claim blocked_plan
  opening_plans-block_claim options id reason ledger =
      count-update_first-le is_opening_plan _ (blocked_plan options reason) ledger.accepted_plans
        (λ x p. ground arith)

  record_execution-le :
      (config : AppConfig F) (plan : AcceptedPlan F) (p : LoopStrategyProposal F)
      (receipt : ExecutionReceipt F) (completed : ℕ) (ledger : StrategyLedger F)
      → opening_plans (record_execution config plan p receipt completed ledger)
        ≤ opening_plans ledger
  unfolding record_execution finished_plan
  record_execution-le config plan p receipt completed ledger =
      count-update_first-le is_opening_plan _ (finished_plan receipt) ledger.accepted_plans
        (λ x h. ground arith)

  finish_found-le :
      (config : AppConfig F) (options : ExecutorOptions) (plan : AcceptedPlan F)
      (p : LoopStrategyProposal F) (receipt : ExecutionReceipt F) (completed : ℕ)
      (current : Option (AcceptedPlan F)) (ledger : StrategyLedger F)
      → opening_plans (finish_found config options plan p receipt completed current ledger)
        ≤ opening_plans ledger
  unfolding finish_found
  finish_found-le config options plan p receipt completed none ledger = omega arith
  finish_found-le config options plan p receipt completed (some current) ledger =
      elim (Bool-cases (holds_claim options current)) [
        | inl e ↦ rw e (record_execution-le config plan p receipt completed ledger)
        | inr e ↦ rw e (omega arith)
      ]

  pub opening_plans-finish :
      (config : AppConfig F) (options : ExecutorOptions) (plan : AcceptedPlan F)
      (p : LoopStrategyProposal F) (receipt : ExecutionReceipt F) (completed : ℕ)
      (ledger : StrategyLedger F)
      → opening_plans (finish config options plan p receipt completed ledger) ≤ opening_plans ledger
  unfolding finish
  opening_plans-finish config options plan p receipt completed ledger =
      finish_found-le config options plan p receipt completed _ ledger

  -- A candidate that the claim writes to was opening a loop already, or opens none afterwards.
  claim_proposal-le :
      (config : AppConfig F) (options : ExecutorOptions) (now : ℕ) (plan : AcceptedPlan F)
      (p : Option (LoopStrategyProposal F)) (ledger : StrategyLedger F)
      → find (selects config options now) ledger.accepted_plans ≡ some plan
      → is_opening_plan plan ≡ true
      → opening_plans (claim_proposal config options now plan p ledger).0 ≤ opening_plans ledger
  unfolding claim_proposal
  claim_proposal-le config options now plan none ledger h o =
      count-update_first_found is_opening_plan (selects config options now) _ ledger.accepted_plans
        h (λ e. o)
  claim_proposal-le config options now plan (some p) ledger h o =
      count-update_first_found is_opening_plan (selects config options now) _ ledger.accepted_plans
        h (λ e. o)

  claim_candidate-le :
      (config : AppConfig F) (options : ExecutorOptions) (now : ℕ) (plan : Option (AcceptedPlan F))
      (ledger : StrategyLedger F)
      → find (selects config options now) ledger.accepted_plans ≡ plan
      → opening_plans (claim_candidate config options now plan ledger).0 ≤ opening_plans ledger
  unfolding claim_candidate claim_expired
  claim_candidate-le config options now none ledger h = omega arith
  claim_candidate-le config options now (some plan) ledger h = ground (
    arith,
    count-update_first_found is_opening_plan (selects config options now)
        (λ q. record q { failure_reason = some claim_in_progress }) ledger.accepted_plans h
        (λ e. e),
    claim_proposal-le config options now plan
        (find (λ e. e.id == plan.proposal_id) ledger.strategy_proposals) ledger h,
  )

  pub opening_plans-claim :
      (config : AppConfig F) (options : ExecutorOptions) (now : ℕ) (ledger : StrategyLedger F)
      → opening_plans (claim config options now ledger).0 ≤ opening_plans ledger
  unfolding claim
  opening_plans-claim config options now ledger =
      claim_candidate-le config options now _ ledger refl

module _ {F : Type 0} ⦃num : Number F⦄ where
  reconcile_plan-le :
      (proposals : List (LoopStrategyProposal F)) (snapshot : Option (PositionSnapshot F)) (now : ℕ)
      (plan : AcceptedPlan F) (r : Reconciled F)
      → is_opening_plan (reconcile_plan proposals snapshot now plan r).0 ≡ true
      → is_opening_plan plan ≡ true
  unfolding reconcile_plan reconcile_expired confirm_plan cancel_plan claim_expired
  reconcile_plan-le proposals snapshot now plan r = ground arith

  reconcile_plans-le :
      (proposals : List (LoopStrategyProposal F)) (snapshot : Option (PositionSnapshot F)) (now : ℕ)
      (plans : List (AcceptedPlan F)) (r : Reconciled F)
      → count is_opening_plan (reconcile_plans proposals snapshot now plans r).0
        ≤ count is_opening_plan plans
  unfolding reconcile_plans
  reconcile_plans-le proposals snapshot now [] r = omega arith
  reconcile_plans-le proposals snapshot now (plan ∷ plans) r = ground (
    arith,
    reconcile_plan-le proposals snapshot now plan r,
    reconcile_plans-le proposals snapshot now plans
        (reconcile_plan proposals snapshot now plan r).1,
  )

  opening_plans-reconcile :
      (ledger : StrategyLedger F) (config : AppConfig F) (now : ℕ)
      → opening_plans (reconcile_expired_executing_plans ledger config now).0 ≤ opening_plans ledger
  unfolding reconcile_expired_executing_plans
  opening_plans-reconcile ledger config now = elim (Bool-cases config.runtime.dry_run) [
    | inl e ↦ rw e (omega arith)
    | inr e ↦ rw e (reconcile_plans-le _ _ now ledger.accepted_plans _)
  ]

  apply_verdict-le :
      (times : CoordinatorTimes) (p : LoopStrategyProposal F) (v : Verdict F)
      (ledger : StrategyLedger F)
      → opening_plans (apply_verdict times p v ledger).0 ≤ opening_plans ledger + 1
  unfolding apply_verdict reject_first_open accept_first_open plan_of
  apply_verdict-le times p (deny reason) ledger = omega arith
  apply_verdict-le times p (allow reason) ledger = omega arith

  decide_open-le :
      (config : AppConfig F) (times : CoordinatorTimes) (executed cancelled : ℕ)
      (p : Option (LoopStrategyProposal F)) (ledger : StrategyLedger F)
      → opening_plans (decide_open config times executed cancelled p ledger).0
        ≤ opening_plans ledger + 1
  unfolding decide_open
  decide_open-le config times executed cancelled none ledger = omega arith
  decide_open-le config times executed cancelled (some p) ledger = apply_verdict-le times p _ ledger

  coordinate_reconciled-le :
      (config : AppConfig F) (times : CoordinatorTimes) (executed cancelled : ℕ)
      (ledger : StrategyLedger F)
      → opening_plans ledger ≤ 1
      → opening_plans (coordinate_reconciled config times executed cancelled ledger).0 ≤ 1
  unfolding coordinate_reconciled
  coordinate_reconciled-le config times executed cancelled ledger h =
      elim (Bool-cases (ltb 0 (length (active_loop_opening_plans ledger)))) [
        | inl e ↦ rw e h
        | inr e ↦ rw e (
            ground (
              arith,
              length-active_loop_opening_plans ledger,
              decide_open-le config times executed cancelled
                  (find is_open ledger.strategy_proposals) ledger,
            ))
      ]

  pub opening_plans-run_coordinator :
      (config : AppConfig F) (times : CoordinatorTimes) (ledger : StrategyLedger F)
      → opening_plans ledger ≤ 1
      → opening_plans (run_coordinator config times ledger).0 ≤ 1
  unfolding run_coordinator
  opening_plans-run_coordinator config times ledger h =
      coordinate_reconciled-le config times _ _ _ (
        omega (
          arith,
          opening_plans-reconcile (expire_proposals times.start ledger) config times.start,
          opening_plans-expire times.start ledger,
        ))

  pub opening_plans-run_unwind_guard :
      (config : AppConfig F) (role : SubagentRole) (now : ℕ) (ledger : StrategyLedger F)
      → opening_plans (run_unwind_guard config role now ledger).0 ≡ opening_plans ledger
  unfolding run_unwind_guard guard_snapshot guard_positions fence clear_locks create_lock
      refresh_lock
  opening_plans-run_unwind_guard config role now ledger = ground arith
