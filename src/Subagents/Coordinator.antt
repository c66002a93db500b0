-- ===== src/Subagents/Coordinator.antt =====
-- `runCoordinator` of agent/src/core/subagents.ts: the mutator that it hands to the store. The times
-- are those of its calls of `Date.now()`, in their order.
use looping_agent.Prelude.{
  ℕ, String, Bool, true, ◌&&◌, ◌||◌, none, some, Option, List, [], ◌∷◌, map, ltb, ◌==◌, string_eq,
  if◌then◌else◌, find, update_first, count, length, Option,
}
use looping_agent.Js.Number.{Number}
use looping_agent.Js.Text.{template}
use looping_agent.Types.{SubagentRole, AppConfig}
use looping_agent.StrategyLedger.Status.{
  ProposalStatus, open_, rejected, expired, proposal_eq, PlanStatus,
}
use looping_agent.StrategyLedger.{
  Message, proposal_expired, LoopStrategyProposal, AcceptedPlan, SubagentHeartbeat, StrategyLedger,
  is_past, stale_subagents, active_loop_opening_plans,
}
use looping_agent.Subagents.Validate.{Verdict, allow, deny, validate_loop_proposal}
use looping_agent.Subagents.Reconcile.{reconcile_expired_executing_plans}

-- The times of one tick: at its start, for the stale heartbeats, in the validation, and for the
-- two stamps.
pub record CoordinatorTimes : Type 0 where
  pub start : ℕ
  pub stale : ℕ
  pub validated : ℕ
  pub checked : ℕ
  pub accepted : ℕ

-- `summary.action`, with its details.
pub data CoordinatorAction (F : Type 0) : Type 0 where
  plan_active no_open_proposal : CoordinatorAction F
  reconciled_claims : ℕ → ℕ → CoordinatorAction F
  proposal_rejected : String → Message F → CoordinatorAction F
  plan_accepted : String → String → CoordinatorAction F

pub record CoordinatorSummary (F : Type 0) : Type 0 where
  pub expired_proposals : ℕ
  pub stale_roles : List SubagentRole
  pub action : CoordinatorAction F

module _ {F : Type 0} where
  abbrev pub is_open : LoopStrategyProposal F → Bool
  is_open p = p.status == open_

  abbrev pub expires : ℕ → LoopStrategyProposal F → Bool
  expires now p = is_open p && is_past p.expires_at now

  unfoldable pub expire : ℕ → LoopStrategyProposal F → LoopStrategyProposal F
  expire now p =
      if expires now p
      then record p { status = expired; rejection_reason = some proposal_expired }
      else p

  unfoldable pub expire_proposals : ℕ → StrategyLedger F → StrategyLedger F
  expire_proposals now ledger = record ledger {
    strategy_proposals = map (expire now) ledger.strategy_proposals;
  }

  unfoldable pub reject_first_open : Message F → StrategyLedger F → StrategyLedger F
  reject_first_open reason ledger = record ledger {
    strategy_proposals =
        update_first is_open (λ p. record p { status = rejected; rejection_reason = some reason })
          ledger.strategy_proposals;
  }

  unfoldable pub plan_of : LoopStrategyProposal F → Message F → CoordinatorTimes → AcceptedPlan F
  plan_of p reason times = record {
    id = template ("plan-" ∷ p.id ∷ []);
    proposal_id = p.id;
    accepted_at = some times.accepted;
    status = PlanStatus.accepted;
    policy = record { allowed = true; reason = reason; checked_at = some times.checked };
    executor_run_id = none;
    claimed_by = none;
    claimed_at = none;
    claim_expires_at = none;
    execution_fingerprint = none;
    execution_receipt_id = none;
    failure_reason = none;
  }

  unfoldable pub accept_first_open :
      LoopStrategyProposal F → Message F → CoordinatorTimes → StrategyLedger F → StrategyLedger F
  accept_first_open p reason times ledger = record ledger {
    strategy_proposals =
        update_first is_open (λ q. record q { status = ProposalStatus.accepted })
          ledger.strategy_proposals;
    accepted_plans = plan_of p reason times ∷ ledger.accepted_plans;
  }

  -- From the validation of the first open proposal on.
  unfoldable pub apply_verdict :
      CoordinatorTimes
      → LoopStrategyProposal F
      → Verdict F
      → StrategyLedger F
      → StrategyLedger F × CoordinatorAction F
  apply_verdict times p (deny reason) ledger =
      (reject_first_open reason ledger, proposal_rejected p.id reason)
  apply_verdict times p (allow reason) ledger =
      (accept_first_open p reason times ledger, plan_accepted (template ("plan-" ∷ p.id ∷ [])) p.id)

module _ {F : Type 0} ⦃num : Number F⦄ where
  -- From the search for an open proposal on.
  unfoldable pub decide_open :
      AppConfig F
      → CoordinatorTimes
      → ℕ
      → ℕ
      → Option (LoopStrategyProposal F)
      → StrategyLedger F
      → StrategyLedger F × CoordinatorAction F
  decide_open config times executed cancelled none ledger = (
    ledger,
    if ltb 0 executed || ltb 0 cancelled
        then reconciled_claims executed cancelled
        else no_open_proposal,
  )
  decide_open config times executed cancelled (some p) ledger =
      apply_verdict times p (validate_loop_proposal p ledger config times.validated) ledger

  -- From the reconciled ledger on.
  unfoldable pub coordinate_reconciled :
      AppConfig F
      → CoordinatorTimes
      → ℕ
      → ℕ
      → StrategyLedger F
      → StrategyLedger F × CoordinatorAction F
  coordinate_reconciled config times executed cancelled ledger =
      if ltb 0 (length (active_loop_opening_plans ledger))
      then (ledger, plan_active)
      else decide_open config times executed cancelled (find is_open ledger.strategy_proposals)
          ledger

  -- The mutator, with the summary of the tick.
  unfoldable pub run_coordinator :
      AppConfig F → CoordinatorTimes → StrategyLedger F → StrategyLedger F × CoordinatorSummary F
  run_coordinator config times ledger =
      let expiring = count (expires times.start) ledger.strategy_proposals in
      let current = expire_proposals times.start ledger in
      let stale = stale_subagents current config.loop_strategy.stale_heartbeat_ms times.stale in
      let (reconciled, executed, cancelled) =
        reconcile_expired_executing_plans current config times.start in
      let (ledger', action) = coordinate_reconciled config times executed cancelled reconciled in
      (
        ledger',
        record {
          expired_proposals = expiring;
          stale_roles = map (λ (h : SubagentHeartbeat F). h.role) stale;
          action = action;
        },
      )
