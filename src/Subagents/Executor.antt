-- ===== src/Subagents/Executor.antt =====
-- `claimAndExecuteAcceptedPlan` of agent/src/core/subagents.ts, after the claim: the gate, the calls of the lending clients, and the two ways in which the claim ends.
use looping_agent.Prelude.{
  ℕ, String, Bool, false, ◌&&◌, Option, none, some, List, [], ◌∷◌, map, ◌==◌, string_eq,
  if◌then◌else◌, find, update_first,
}
use mathlib.Core.Option
use looping_agent.Js.Number.{Number}
use looping_agent.Js.Text.{template, decimal}
use looping_agent.Types.{StrategyExecutionActor, AppConfig, actor_eq, protocol_eq}
use looping_agent.StrategyLedger.Status.{
  PlanStatus, executed, plan_eq, ReceiptStatus, action_eq, leg_eq,
}
use looping_agent.StrategyLedger.{
  Message, caught, LoopStrategyProposal, AcceptedPlan, ExecutionLegReceipt, ExecutionReceipt,
  ProtocolPositionSnapshot, StrategyLedger, or_else, latest_position_snapshot, update,
}
use looping_agent.Subagents.Validate.{Verdict, allow, deny, validate_executor_gate}
use looping_agent.Subagents.Reconcile.{execution_legs, opened_loop}
use looping_agent.Subagents.Live.{returns, throws, LiveCalls, execute_live, fail_submitted}
use looping_agent.Subagents.Claim.{ExecutorOptions, claim}

abbrev pub is_actor : StrategyExecutionActor → Option StrategyExecutionActor → Bool
is_actor actor none = false
is_actor actor (some a) = a == actor

abbrev pub is_run : String → Option String → Bool
is_run run_id none = false
is_run run_id (some r) = r == run_id

module _ {F : Type 0} where
  -- The plan is still claimed by this run.
  abbrev pub holds_claim : ExecutorOptions → AcceptedPlan F → Bool
  holds_claim options plan =
      is_actor options.actor plan.claimed_by && is_run options.run_id plan.executor_run_id

  abbrev pub has_id : String → AcceptedPlan F → Bool
  has_id id plan = plan.id == id

  unfoldable pub blocked_plan : ExecutorOptions → Message F → AcceptedPlan F → AcceptedPlan F
  blocked_plan options reason plan =
      if holds_claim options plan
      then record plan { status = PlanStatus.failed; failure_reason = some reason }
      else plan

  -- The mutator after the gate has denied.
  unfoldable pub block_claim :
      ExecutorOptions → String → Message F → StrategyLedger F → StrategyLedger F
  block_claim options plan_id reason ledger = record ledger {
    accepted_plans =
        update_first (has_id plan_id) (blocked_plan options reason) ledger.accepted_plans;
  }

  -- `current.status`, the receipt's id, and the reason of a failure.
  unfoldable pub finished_plan : ExecutionReceipt F → AcceptedPlan F → AcceptedPlan F
  finished_plan receipt plan = record plan {
    status = elim receipt.status [ ReceiptStatus.failed ↦ PlanStatus.failed | _ ↦ executed ];
    execution_receipt_id = some receipt.id;
    failure_reason = elim receipt.error [ none ↦ plan.failure_reason | some e ↦ some e ];
  }

  -- What a held claim records: the receipt, the plan's end and, after a success, the loop.
  unfoldable pub record_execution :
      AppConfig F
      → AcceptedPlan F
      → LoopStrategyProposal F
      → ExecutionReceipt F
      → ℕ
      → StrategyLedger F
      → StrategyLedger F
  record_execution config plan p receipt completed ledger = record ledger {
    execution_receipts = receipt ∷ ledger.execution_receipts;
    accepted_plans = update_first (has_id plan.id) (finished_plan receipt) ledger.accepted_plans;
    loop_positions = elim receipt.status [
      | ReceiptStatus.failed ↦ ledger.loop_positions
      | _ ↦ opened_loop plan p completed config.runtime.dry_run ∷ ledger.loop_positions
    ];
  }

  -- The last mutator, for the plan and proposal that were claimed, from the search for the plan on.
  unfoldable pub finish_found :
      AppConfig F
      → ExecutorOptions
      → AcceptedPlan F
      → LoopStrategyProposal F
      → ExecutionReceipt F
      → ℕ
      → Option (AcceptedPlan F)
      → StrategyLedger F
      → StrategyLedger F
  finish_found config options plan p receipt completed none ledger = ledger
  finish_found config options plan p receipt completed (some current) ledger =
      if holds_claim options current
      then record_execution config plan p receipt completed ledger
      else ledger

  unfoldable pub finish :
      AppConfig F
      → ExecutorOptions
      → AcceptedPlan F
      → LoopStrategyProposal F
      → ExecutionReceipt F
      → ℕ
      → StrategyLedger F
      → StrategyLedger F
  finish config options plan p receipt completed ledger =
      finish_found config options plan p receipt completed
        (find (has_id plan.id) ledger.accepted_plans) ledger

  -- `latestPositionSnapshot(ledger)?.protocols.find(…)?.healthFactor`
  unfoldable pub before_health_factor : LoopStrategyProposal F → StrategyLedger F → Option F
  before_health_factor p ledger = elim (latest_position_snapshot ledger) [
    | none ↦ none
    | some snapshot ↦
        Option.map (λ (e : ProtocolPositionSnapshot F). e.health_factor)
          (find (λ e. e.protocol == p.collateral_protocol) snapshot.protocols)
  ]

  -- How the execution ended: the legs, the status and the error of the receipt.
  unfoldable pub execute :
      AppConfig F
      → LoopStrategyProposal F
      → LiveCalls
      → List ExecutionLegReceipt × ReceiptStatus × Option (Message F)
  execute config p calls =
      let legs = execution_legs p config.runtime.dry_run in
      if config.runtime.dry_run
      then (legs, ReceiptStatus.planned, none)
      else let (r, legs') = execute_live p calls legs in
        elim r [
          | returns done ↦ (legs', ReceiptStatus.confirmed, none)
          | throws message ↦ (
            map fail_submitted legs',
            ReceiptStatus.failed,
            if message == "" then none else some (caught message),
          )
        ]

  unfoldable pub receipt_of :
      AppConfig F
      → ExecutorOptions
      → AcceptedPlan F
      → LoopStrategyProposal F
      → LiveCalls
      → Option F
      → ℕ
      → ℕ
      → ExecutionReceipt F
  receipt_of config options plan p calls before completed stamp =
      let (legs, status, error) = execute config p calls in
      record {
        id = template ("receipt-" ∷ plan.id ∷ "-" ∷ decimal stamp ∷ []);
        plan_id = plan.id;
        proposal_id = p.id;
        executor_run_id = options.run_id;
        executed_by = some options.actor;
        dry_run = config.runtime.dry_run;
        started_at = or_else plan.claimed_at (some completed);
        completed_at = some completed;
        status = status;
        legs = legs;
        before_health_factor = before;
        after_health_factor = none;
        walrus_report_blob_id = none;
        error = error;
      }

-- What the caller is told.
pub data ExecutorResult (F : Type 0) : Type 0 where
  not_claimed : ExecutorResult F
  blocked : Message F → ExecutorResult F
  finished : ExecutionReceipt F → ExecutorResult F

-- The times of one call, and what other processes do to the ledger between its updates.
pub record ExecutorRun (F : Type 0) : Type 0 where
  pub claimed : ℕ
  pub saved : ℕ
  pub gated : ℕ
  pub completed : ℕ
  pub stamp : ℕ
  pub ended : ℕ
  pub before_gate : StrategyLedger F → StrategyLedger F
  pub before_end : StrategyLedger F → StrategyLedger F
  pub calls : LiveCalls

module _ {F : Type 0} ⦃num : Number F⦄ where
  -- After the gate, with the ledger that was loaded for it.
  unfoldable pub execute_gated :
      AppConfig F
      → ExecutorOptions
      → ExecutorRun F
      → AcceptedPlan F
      → LoopStrategyProposal F
      → Verdict F
      → StrategyLedger F
      → StrategyLedger F × ExecutorResult F
  execute_gated config options run plan p (deny reason) ledger = (
    update run.ended (block_claim options plan.id reason) (run.before_end ledger),
    blocked reason,
  )
  execute_gated config options run plan p (allow reason) ledger =
      let receipt =
        receipt_of config options plan p run.calls (before_health_factor p ledger) run.completed
          run.stamp in
      (
        update run.ended (finish config options plan p receipt run.completed)
            (run.before_end ledger),
        finished receipt,
      )

  -- After the claim, with the ledger that the claim has saved.
  unfoldable pub execute_claimed :
      AppConfig F
      → ExecutorOptions
      → ExecutorRun F
      → Option (AcceptedPlan F × LoopStrategyProposal F)
      → StrategyLedger F
      → StrategyLedger F × ExecutorResult F
  execute_claimed config options run none saved = (saved, not_claimed)
  execute_claimed config options run (some (plan, p)) saved =
      let ledger = run.before_gate saved in
      execute_gated config options run plan p (validate_executor_gate p ledger config run.gated)
        ledger

  -- `claimAndExecuteAcceptedPlan`, up to the archiving of the receipt.
  unfoldable pub claim_and_execute_accepted_plan :
      AppConfig F
      → ExecutorOptions
      → ExecutorRun F
      → StrategyLedger F
      → StrategyLedger F × ExecutorResult F
  claim_and_execute_accepted_plan config options run ledger =
      let (claimed, taken) = claim config options run.claimed ledger in
      execute_claimed config options run taken (update run.saved (λ l. claimed) ledger)
