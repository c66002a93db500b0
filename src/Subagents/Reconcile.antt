-- ===== src/Subagents/Reconcile.antt =====
-- Expired execution claims, and their reconciliation with the latest position snapshot:
-- `claimExpired`, `executionLegs`, `executionAppearsOnChain` and `reconcileExpiredExecutingPlans`
-- of agent/src/core/subagents.ts.
pub mod Loops
use looping_agent.Prelude.{
  ℕ, ◌+◌, String, Bool, false, ◌&&◌, ◌||◌, Option, none, some, List, [], ◌∷◌, ◌++◌, map, leb, ◌==◌,
  string_eq, if◌then◌else◌, find, any, filter,
}
use looping_agent.Js.Number.{Number}
use looping_agent.Js.Text.{template, decimal, safe_big_int, upper}
use looping_agent.Types.{protocol_eq, AppConfig}
use looping_agent.StrategyLedger.Status.{
  executing, executed, cancelled, opening, active, plan_eq, is_existing, LegAction, LegStatus,
  ReceiptStatus,
}
use looping_agent.StrategyLedger.{
  reconcile_proposal_missing, reconcile_not_on_chain, Message, PositionLeg, PositionSnapshot,
  LoopStrategyProposal, AcceptedPlan, ExecutionLegReceipt, ExecutionReceipt, LoopPosition,
  StrategyLedger, is_past, or_else, latest_position_snapshot,
}

abbrev confirmed_status : ExecutionLegReceipt → ExecutionLegReceipt
confirmed_status leg = record leg { status = LegStatus.confirmed }

module _ {F : Type 0} where
  -- `claimExpired`
  unfoldable pub claim_expired : AcceptedPlan F → ℕ → Bool
  claim_expired plan now =
      plan.status == executing
      && elim plan.claim_expires_at [ none ↦ false | some t ↦ is_past t now ]

  unfoldable pub borrow_leg : LoopStrategyProposal F → LegStatus → ExecutionLegReceipt
  borrow_leg p status = record {
    protocol = p.borrow_protocol;
    action = LegAction.borrow;
    asset = p.borrow_asset;
    raw_amount = p.raw_borrow_amount;
    status = status;
    digest = none;
  }

  unfoldable pub target_leg : LoopStrategyProposal F → LegStatus → ExecutionLegReceipt
  target_leg p status = record {
    protocol = p.supply_target_protocol;
    action = LegAction.supply;
    asset = p.borrow_asset;
    raw_amount = p.raw_borrow_amount;
    status = status;
    digest = none;
  }

  unfoldable pub collateral_leg : LoopStrategyProposal F → LegStatus → ExecutionLegReceipt
  collateral_leg p status = record {
    protocol = p.collateral_protocol;
    action = LegAction.supply;
    asset = p.collateral_asset;
    raw_amount = p.raw_collateral_amount;
    status = status;
    digest = none;
  }

  -- `executionLegs`
  unfoldable pub execution_legs : LoopStrategyProposal F → Bool → List ExecutionLegReceipt
  execution_legs p dry_run =
      let status = if dry_run then LegStatus.planned else LegStatus.submitted in
      (if is_existing p.proposal_type then [] else collateral_leg p status ∷ [])
      ++ (borrow_leg p status ∷ target_leg p status ∷ [])

  -- The loop position that a finished plan opens.
  unfoldable pub opened_loop : AcceptedPlan F → LoopStrategyProposal F → ℕ → Bool → LoopPosition F
  opened_loop plan p now dry_run = record {
    id = template ("loop-" ∷ plan.id ∷ []);
    plan_id = plan.id;
    proposal_id = p.id;
    opened_at = some now;
    status = if dry_run then opening else active;
    collateral_protocol = p.collateral_protocol;
    supply_target_protocol = p.supply_target_protocol;
    collateral_asset = p.collateral_asset;
    borrow_asset = p.borrow_asset;
    raw_collateral_amount = p.raw_collateral_amount;
    raw_borrow_amount = p.raw_borrow_amount;
    borrow_usd = p.borrow_usd;
    depth = 1;
    unwind_status = none;
  }

  unfoldable pub sum_raw : List (PositionLeg F) → ℕ
  sum_raw [] = 0
  sum_raw (leg ∷ legs) = or_else (safe_big_int leg.raw_amount) 0 + sum_raw legs

module _ {F : Type 0} ⦃num : Number F⦄ where
  -- `reduce` adds from the left.
  unfoldable pub sum_usd_from : F → List (PositionLeg F) → F
  sum_usd_from acc [] = acc
  sum_usd_from acc (leg ∷ legs) = sum_usd_from (num.add acc leg.amount_usd) legs

  -- `hasPositionAmount`
  unfoldable pub has_position_amount : List (PositionLeg F) → String → String → F → Bool
  has_position_amount legs asset raw_amount amount_usd =
      let matching = filter (λ leg. upper leg.asset == asset) legs in
      elim (safe_big_int raw_amount) [
        | none ↦ false
        | some expected ↦ leb expected (sum_raw matching)
      ]
      || num.le (num.mul amount_usd (num.div (num.of_ℕ 9) (num.of_ℕ 10)))
          (sum_usd_from (num.of_ℕ 0) matching)

  unfoldable pub execution_appears_on_chain : LoopStrategyProposal F → PositionSnapshot F → Bool
  execution_appears_on_chain p snapshot =
      elim (find (λ e. e.protocol == p.collateral_protocol) snapshot.protocols) [
        | none ↦ false
        | some collateral ↦
            elim (find (λ e. e.protocol == p.supply_target_protocol) snapshot.protocols) [
              | none ↦ false
              | some target ↦
                  (is_existing p.proposal_type
                    || has_position_amount collateral.deposits "USDC" p.raw_collateral_amount
                        p.collateral_usd)
                  && has_position_amount collateral.borrows "SUI" p.raw_borrow_amount p.borrow_usd
                  && has_position_amount target.deposits "SUI" p.raw_borrow_amount p.borrow_usd
            ]
      ]

  unfoldable pub reconciled_receipt :
      AcceptedPlan F → LoopStrategyProposal F → ℕ → ExecutionReceipt F
  reconciled_receipt plan p now = record {
    id = template ("receipt-" ∷ plan.id ∷ "-" ∷ decimal now ∷ "-reconciled" ∷ []);
    plan_id = plan.id;
    proposal_id = p.id;
    executor_run_id = or_else plan.executor_run_id "reconciled-expired-claim";
    executed_by = plan.claimed_by;
    dry_run = false;
    started_at = or_else plan.claimed_at plan.accepted_at;
    completed_at = some now;
    status = ReceiptStatus.confirmed;
    legs = map confirmed_status (execution_legs p false);
    before_health_factor = none;
    after_health_factor = none;
    walrus_report_blob_id = none;
    error = none;
  }

-- What the loop over the plans changes besides the plans.
pub record Reconciled (F : Type 0) : Type 0 where
  pub receipts : List (ExecutionReceipt F)
  pub loops : List (LoopPosition F)
  pub executed : ℕ
  pub cancelled : ℕ

module _ {F : Type 0} ⦃num : Number F⦄ where
  unfoldable pub confirm_plan :
      AcceptedPlan F → LoopStrategyProposal F → ℕ → Reconciled F → AcceptedPlan F × Reconciled F
  confirm_plan plan p now r = (
    record plan {
      status = executed;
      execution_receipt_id = some (reconciled_receipt plan p now).id;
      failure_reason = none;
    },
    record {
      receipts = reconciled_receipt plan p now ∷ r.receipts;
      loops =
          if any (λ loop. loop.plan_id == plan.id) r.loops
          then r.loops
          else opened_loop plan p now false ∷ r.loops;
      executed = r.executed + 1;
      cancelled = r.cancelled;
    },
  )

  -- `snapshot && executionAppearsOnChain(proposal, snapshot)`
  unfoldable pub seen_on_chain : LoopStrategyProposal F → Option (PositionSnapshot F) → Bool
  seen_on_chain p none = false
  seen_on_chain p (some snapshot) = execution_appears_on_chain p snapshot

  unfoldable pub cancel_plan :
      Message F → AcceptedPlan F → Reconciled F → AcceptedPlan F × Reconciled F
  cancel_plan reason plan r = (
    record plan { status = cancelled; failure_reason = some reason },
    record r { cancelled = r.cancelled + 1 },
  )

  -- An expired claim, from the search for its proposal on.
  unfoldable pub reconcile_expired :
      Option (LoopStrategyProposal F)
      → Option (PositionSnapshot F)
      → ℕ
      → AcceptedPlan F
      → Reconciled F
      → AcceptedPlan F × Reconciled F
  reconcile_expired none snapshot now plan r = cancel_plan reconcile_proposal_missing plan r
  reconcile_expired (some p) snapshot now plan r =
      if seen_on_chain p snapshot
      then confirm_plan plan p now r
      else cancel_plan reconcile_not_on_chain plan r

  -- One round of the loop.
  unfoldable pub reconcile_plan :
      List (LoopStrategyProposal F)
      → Option (PositionSnapshot F)
      → ℕ
      → AcceptedPlan F
      → Reconciled F
      → AcceptedPlan F × Reconciled F
  reconcile_plan proposals snapshot now plan r =
      if claim_expired plan now
      then reconcile_expired (find (λ e. e.id == plan.proposal_id) proposals) snapshot now plan r
      else (plan, r)

  unfoldable pub reconcile_plans :
      List (LoopStrategyProposal F)
      → Option (PositionSnapshot F)
      → ℕ
      → List (AcceptedPlan F)
      → Reconciled F
      → List (AcceptedPlan F) × Reconciled F
  reconcile_plans proposals snapshot now [] r = ([], r)
  reconcile_plans proposals snapshot now (plan ∷ plans) r =
      let (plan', r') = reconcile_plan proposals snapshot now plan r in
      let (plans', r'') = reconcile_plans proposals snapshot now plans r' in (plan' ∷ plans', r'')

  -- `reconcileExpiredExecutingPlans`: the ledger, and the counts of its result.
  unfoldable pub reconcile_expired_executing_plans :
      StrategyLedger F → AppConfig F → ℕ → StrategyLedger F × ℕ × ℕ
  reconcile_expired_executing_plans ledger config now =
      if config.runtime.dry_run
      then (ledger, 0, 0)
      else let (plans, r) =
          reconcile_plans ledger.strategy_proposals (latest_position_snapshot ledger) now
            ledger.accepted_plans
            (record {
              receipts = ledger.execution_receipts;
              loops = ledger.loop_positions;
              executed = 0;
              cancelled = 0;
            }) in
        (
          record ledger {
            accepted_plans = plans;
            execution_receipts = r.receipts;
            loop_positions = r.loops;
          },
          r.executed,
          r.cancelled,
        )
