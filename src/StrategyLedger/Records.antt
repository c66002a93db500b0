-- ===== src/StrategyLedger/Records.antt =====
-- The records of agent/src/core/strategyLedger.ts. `F` is the type of numbers; a text that the
-- program only builds for readers is a `Message`, one constructor for each wording.
use looping_agent.Prelude.{ℕ, String, Bool, Option, List}
use looping_agent.Js.Int.{ℤ}
use looping_agent.Types.{LendingProtocol, SubagentRole, StrategyExecutionActor, Iso}
use looping_agent.StrategyLedger.Status.{
  SubagentStatus, ProposalStatus, PlanStatus, RiskLockSeverity, LoopPositionStatus,
  StrategyProposalType, PositionSide, LegAction, LegStatus, ReceiptStatus, ArchiveKind,
}

-- Reasons, with the values that the wording quotes.
pub data Message (F : Type 0) : Type 0 where
  strategy_disabled only_depth_one only_usdc_sui borrow_protocol_differs target_not_different :
      Message F
  source_position_missing proposal_expired : Message F
  health_factor_below net_apr_below : F → F → Message F
  borrow_usd_exceeds : F → Message F
  borrow_raw_exceeds : ℤ → Message F
  borrow_raw_invalid : Message F
  collateral_exceeds : F → Message F
  risk_lock_blocks plan_already_active : Message F
  loops_exhausted : ℕ → ℕ → Message F
  market_stale positions_stale proposal_satisfies : Message F
  borrow_must_be_enabled execution_must_be_enabled gate_passed : Message F
  proposal_missing claim_in_progress reconcile_proposal_missing reconcile_not_on_chain : Message F
  health_critical : F → F → Message F
  lock_cleared : F → Message F
  caught : String → Message F

pub record SubagentHeartbeat (F : Type 0) : Type 0 where
  pub role : SubagentRole
  pub enabled : Bool
  pub heartbeat_at : Iso
  pub last_run_id : Option String
  pub status : SubagentStatus
  pub message : Option (Message F)

pub record MarketRate (F : Type 0) : Type 0 where
  pub protocol : LendingProtocol
  pub asset : String
  pub coin_type : String
  pub supply_apr : F
  pub borrow_apr : F
  pub price_usd : F
  pub liquidity_usd : Option F

pub record MarketSnapshot (F : Type 0) : Type 0 where
  pub id : String
  pub run_id : String
  pub captured_at : Iso
  pub rates : List (MarketRate F)

pub record PositionLeg (F : Type 0) : Type 0 where
  pub protocol : LendingProtocol
  pub asset : String
  pub coin_type : String
  pub raw_amount : String
  pub amount_usd : F
  pub side : PositionSide

pub record ProtocolPositionSnapshot (F : Type 0) : Type 0 where
  pub protocol : LendingProtocol
  pub health_factor : F
  pub borrow_limit_usd : F
  pub weighted_borrows_usd : F
  pub deposited_amount_usd : F
  pub borrowed_amount_usd : F
  pub obligation_id : Option String
  pub obligation_owner_cap_id : Option String
  pub obligation_key_id : Option String
  pub deposits : List (PositionLeg F)
  pub borrows : List (PositionLeg F)

pub record PositionSnapshot (F : Type 0) : Type 0 where
  pub id : String
  pub run_id : String
  pub wallet_address : String
  pub captured_at : Iso
  pub protocols : List (ProtocolPositionSnapshot F)

pub record LoopStrategyProposal (F : Type 0) : Type 0 where
  pub id : String
  pub run_id : String
  pub proposer_role : SubagentRole
  pub proposal_type : StrategyProposalType
  pub created_by : Option StrategyExecutionActor
  pub created_at : Iso
  pub expires_at : Iso
  pub status : ProposalStatus
  pub collateral_asset : String
  pub borrow_asset : String
  pub collateral_protocol : LendingProtocol
  pub borrow_protocol : LendingProtocol
  pub supply_target_protocol : LendingProtocol
  pub raw_collateral_amount : String
  pub raw_borrow_amount : String
  pub collateral_usd : F
  pub borrow_usd : F
  pub projected_health_factor : F
  pub projected_net_apr_bps : F
  pub unwind_path : List String
  pub market_snapshot_id : String
  pub position_snapshot_id : String
  pub source_position_id : Option String
  pub target_supply_asset : Option String
  pub net_apr_bps : Option F
  pub rationale : Option String
  pub rejection_reason : Option (Message F)

pub record PolicyResult (F : Type 0) : Type 0 where
  pub allowed : Bool
  pub reason : Message F
  pub checked_at : Iso

pub record AcceptedPlan (F : Type 0) : Type 0 where
  pub id : String
  pub proposal_id : String
  pub accepted_at : Iso
  pub status : PlanStatus
  pub policy : PolicyResult F
  pub executor_run_id : Option String
  pub claimed_by : Option StrategyExecutionActor
  pub claimed_at : Option Iso
  pub claim_expires_at : Option Iso
  pub execution_fingerprint : Option String
  pub execution_receipt_id : Option String
  pub failure_reason : Option (Message F)

pub record ExecutionLegReceipt : Type 0 where
  pub protocol : LendingProtocol
  pub action : LegAction
  pub asset : String
  pub raw_amount : String
  pub status : LegStatus
  pub digest : Option String

pub record ExecutionReceipt (F : Type 0) : Type 0 where
  pub id : String
  pub plan_id : String
  pub proposal_id : String
  pub executor_run_id : String
  pub executed_by : Option StrategyExecutionActor
  pub dry_run : Bool
  pub started_at : Iso
  pub completed_at : Iso
  pub status : ReceiptStatus
  pub legs : List ExecutionLegReceipt
  pub before_health_factor : Option F
  pub after_health_factor : Option F
  pub walrus_report_blob_id : Option String
  pub error : Option (Message F)

pub record RiskLock (F : Type 0) : Type 0 where
  pub id : String
  pub created_at : Iso
  pub role : SubagentRole
  pub severity : RiskLockSeverity
  pub reason : Message F
  pub active : Bool
  pub protocol : Option LendingProtocol
  pub health_factor : Option F
  pub cleared_at : Option Iso

pub record LoopPosition (F : Type 0) : Type 0 where
  pub id : String
  pub plan_id : String
  pub proposal_id : String
  pub opened_at : Iso
  pub status : LoopPositionStatus
  pub collateral_protocol : LendingProtocol
  pub supply_target_protocol : LendingProtocol
  pub collateral_asset : String
  pub borrow_asset : String
  pub raw_collateral_amount : String
  pub raw_borrow_amount : String
  pub borrow_usd : F
  pub depth : ℕ
  pub unwind_status : Option (Message F)

pub record WalrusLedgerArchive : Type 0 where
  pub blob_id : String
  pub url : String
  pub kind : ArchiveKind
  pub record_id : String
  pub created_at : Iso

pub record StrategyLedger (F : Type 0) : Type 0 where
  pub wallet_address : String
  pub updated_at : Iso
  pub subagents : SubagentRole → SubagentHeartbeat F
  pub market_snapshots : List (MarketSnapshot F)
  pub position_snapshots : List (PositionSnapshot F)
  pub strategy_proposals : List (LoopStrategyProposal F)
  pub accepted_plans : List (AcceptedPlan F)
  pub execution_receipts : List (ExecutionReceipt F)
  pub risk_locks : List (RiskLock F)
  pub loop_positions : List (LoopPosition F)
  pub walrus_archives : List WalrusLedgerArchive
