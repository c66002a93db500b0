-- ===== src/Subagents/Claim.antt =====
-- `claimAndExecuteAcceptedPlan` of agent/src/core/subagents.ts, the claim of a plan
-- under the store's lock.
use looping_agent.Prelude.{
  ℕ, ◌+◌, String, Bool, ◌&&◌, ◌||◌, not, Option, none, some, [], ◌∷◌, ◌==◌, string_eq,
  if◌then◌else◌, find, update_first,
}
use looping_agent.Js.Text.{template}
use looping_agent.Types.{StrategyExecutionActor, AppConfig, actor_eq, protocol_eq, protocol_text}
use looping_agent.StrategyLedger.Status.{
  PlanStatus, accepted, executing, plan_eq, StrategyProposalType, open_loop,
  borrow_against_existing_collateral, action_eq, leg_eq,
}
use looping_agent.StrategyLedger.{
  claim_in_progress, proposal_missing, LoopStrategyProposal, AcceptedPlan, StrategyLedger, or_else,
}
use looping_agent.Subagents.Validate.{is_blank}
use looping_agent.Subagents.Reconcile.{claim_expired}

-- Who runs the execution, and the plan that it asks for, if any.
pub record ExecutorOptions : Type 0 where
  pub actor : StrategyExecutionActor
  pub run_id : String
  pub plan_id : Option String

unfoldable pub type_text : StrategyProposalType → String
type_text open_loop = "open_loop"
type_text borrow_against_existing_collateral = "borrow_against_existing_collateral"

module _ {F : Type 0} where
  -- `executionFingerprint`
  unfoldable pub execution_fingerprint : LoopStrategyProposal F → String
  execution_fingerprint p = template (
      type_text p.proposal_type
      ∷ ":"
      ∷ protocol_text p.collateral_protocol
      ∷ ":"
      ∷ protocol_text p.supply_target_protocol
      ∷ ":"
      ∷ p.collateral_asset
      ∷ ":"
      ∷ p.borrow_asset
      ∷ ":"
      ∷ p.raw_collateral_amount
      ∷ ":"
      ∷ p.raw_borrow_amount
      ∷ ":"
      ∷ or_else p.source_position_id ""
      ∷ [])

  -- The plan that the claim looks at.
  abbrev pub selects : AppConfig F → ExecutorOptions → ℕ → AcceptedPlan F → Bool
  selects config options now plan =
      if is_blank options.plan_id
      then plan.status == accepted || (config.runtime.dry_run && claim_expired plan now)
      else plan.id == or_else options.plan_id ""

  unfoldable pub claimed_plan :
      AppConfig F → ExecutorOptions → ℕ → LoopStrategyProposal F → AcceptedPlan F → AcceptedPlan F
  claimed_plan config options now p plan = record plan {
    status = executing;
    executor_run_id = some options.run_id;
    claimed_by = some options.actor;
    claimed_at = some (some now);
    claim_expires_at = some (some (now + config.loop_strategy.execution_claim_ttl_ms));
    execution_fingerprint = some (execution_fingerprint p);
  }

  -- A write to the candidate.
  abbrev pub set_candidate :
      AppConfig F
      → ExecutorOptions
      → ℕ
      → (AcceptedPlan F → AcceptedPlan F)
      → StrategyLedger F
      → StrategyLedger F
  set_candidate config options now f ledger = record ledger {
    accepted_plans = update_first (selects config options now) f ledger.accepted_plans;
  }

  -- From the search for the candidate's proposal on.
  unfoldable pub claim_proposal :
      AppConfig F
      → ExecutorOptions
      → ℕ
      → AcceptedPlan F
      → Option (LoopStrategyProposal F)
      → StrategyLedger F
      → StrategyLedger F × Option (AcceptedPlan F × LoopStrategyProposal F)
  claim_proposal config options now plan none ledger = (
    set_candidate config options now
        (λ q. record q { status = PlanStatus.failed; failure_reason = some proposal_missing })
        ledger,
    none,
  )
  claim_proposal config options now plan (some p) ledger = (
    set_candidate config options now (claimed_plan config options now p) ledger,
    some (claimed_plan config options now p plan, p),
  )

  -- From the search for a candidate on.
  unfoldable pub claim_candidate :
      AppConfig F
      → ExecutorOptions
      → ℕ
      → Option (AcceptedPlan F)
      → StrategyLedger F
      → StrategyLedger F × Option (AcceptedPlan F × LoopStrategyProposal F)
  claim_candidate config options now none ledger = (ledger, none)
  claim_candidate config options now (some plan) ledger =
      if not (plan.status == accepted) && not config.runtime.dry_run
      then (
        set_candidate config options now (λ q. record q { failure_reason = some claim_in_progress })
            ledger,
        none,
      )
      else if not (plan.status == accepted) && not (claim_expired plan now)
      then (ledger, none)
      else claim_proposal config options now plan
          (find (λ e. e.id == plan.proposal_id) ledger.strategy_proposals) ledger

  -- The first mutator: the ledger, and the claimed plan with its proposal.
  unfoldable pub claim :
      AppConfig F
      → ExecutorOptions
      → ℕ
      → StrategyLedger F
      → StrategyLedger F × Option (AcceptedPlan F × LoopStrategyProposal F)
  claim config options now ledger =
      claim_candidate config options now (find (selects config options now) ledger.accepted_plans)
        ledger
