-- ===== src/StrategyLedger/Status.antt =====
-- The status types of agent/src/core/strategyLedger.ts, with their equality tests.
use looping_agent.Prelude.{ℕ, ◌≡◌, ◌↔◌, Bool, true, arith, HasEq, ◌==◌, nat_eq}

pub data SubagentStatus : Type 0 where
  idle running ok error disabled : SubagentStatus

pub data ProposalStatus : Type 0 where
  open_ accepted rejected expired : ProposalStatus

pub data PlanStatus : Type 0 where
  accepted executing executed failed cancelled : PlanStatus

pub data RiskLockSeverity : Type 0 where
  warning critical : RiskLockSeverity

pub data LoopPositionStatus : Type 0 where
  opening active unwinding closed : LoopPositionStatus

pub data StrategyProposalType : Type 0 where
  open_loop borrow_against_existing_collateral : StrategyProposalType

pub data PositionSide : Type 0 where
  deposit borrow : PositionSide

pub data LegAction : Type 0 where
  supply borrow repay withdraw : LegAction

pub data LegStatus : Type 0 where
  planned submitted confirmed failed : LegStatus

pub data ReceiptStatus : Type 0 where
  planned confirmed failed : ReceiptStatus

pub data ArchiveKind : Type 0 where
  accepted_plan execution_receipt risk_lock : ArchiveKind

abbrev proposal_index : ProposalStatus → ℕ
proposal_index open_ = 0
proposal_index accepted = 1
proposal_index rejected = 2
proposal_index expired = 3

abbrev plan_index : PlanStatus → ℕ
plan_index accepted = 0
plan_index executing = 1
plan_index executed = 2
plan_index failed = 3
plan_index cancelled = 4

abbrev loop_index : LoopPositionStatus → ℕ
loop_index opening = 0
loop_index active = 1
loop_index unwinding = 2
loop_index closed = 3

abbrev action_index : LegAction → ℕ
action_index supply = 0
action_index borrow = 1
action_index repay = 2
action_index withdraw = 3

abbrev leg_index : LegStatus → ℕ
leg_index planned = 0
leg_index submitted = 1
leg_index confirmed = 2
leg_index failed = 3

abbrev pub is_critical : RiskLockSeverity → Bool
is_critical critical = true
is_critical warning = Bool.false

abbrev pub is_existing : StrategyProposalType → Bool
is_existing borrow_against_existing_collateral = true
is_existing open_loop = Bool.false

pub proposal_iff :
    (a b : ProposalStatus) → ((proposal_index a == proposal_index b) ≡ true) ↔ (a ≡ b)
proposal_iff a b = ground arith

pub plan_iff : (a b : PlanStatus) → ((plan_index a == plan_index b) ≡ true) ↔ (a ≡ b)
plan_iff a b = ground arith

pub loop_iff : (a b : LoopPositionStatus) → ((loop_index a == loop_index b) ≡ true) ↔ (a ≡ b)
loop_iff a b = ground arith

pub action_iff : (a b : LegAction) → ((action_index a == action_index b) ≡ true) ↔ (a ≡ b)
action_iff a b = ground arith

pub leg_iff : (a b : LegStatus) → ((leg_index a == leg_index b) ≡ true) ↔ (a ≡ b)
leg_iff a b = ground arith

instance abbrev pub proposal_eq : HasEq ProposalStatus
proposal_eq = record { same = λ a b. proposal_index a == proposal_index b; same_iff = proposal_iff }

instance abbrev pub plan_eq : HasEq PlanStatus
plan_eq = record { same = λ a b. plan_index a == plan_index b; same_iff = plan_iff }

instance abbrev pub loop_eq : HasEq LoopPositionStatus
loop_eq = record { same = λ a b. loop_index a == loop_index b; same_iff = loop_iff }

instance abbrev pub action_eq : HasEq LegAction
action_eq = record { same = λ a b. action_index a == action_index b; same_iff = action_iff }

instance abbrev pub leg_eq : HasEq LegStatus
leg_eq = record { same = λ a b. leg_index a == leg_index b; same_iff = leg_iff }
