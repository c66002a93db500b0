-- ===== src/AgentMemory/Records.antt =====
-- The records of agent/src/core/agentMemory.ts. `O` is the type of the last obligation, which the
-- program keeps as it is, and `F` the type of numbers.
use looping_agent.Prelude.{
  ℕ, String, Bool, Option, List, ◌≡◌, ◌↔◌, true, arith, HasEq, ◌==◌, nat_eq,
}
use looping_agent.Types.{LendingProtocol, PositionActionKind, Iso}

pub data ActionStatus : Type 0 where
  planned submitted confirmed failed : ActionStatus

pub data TweetStatus : Type 0 where
  planned posted failed : TweetStatus

pub data PendingTaskType : Type 0 where
  tweet_action retry_action health_alert : PendingTaskType

pub data ArtifactKind : Type 0 where
  run_report state_snapshot : ArtifactKind

abbrev pub is_confirmed : ActionStatus → Bool
is_confirmed ActionStatus.confirmed = true
is_confirmed _ = Bool.false

abbrev pub is_posted : TweetStatus → Bool
is_posted TweetStatus.posted = true
is_posted _ = Bool.false

abbrev kind_index : PositionActionKind → ℕ
kind_index PositionActionKind.supply = 0
kind_index PositionActionKind.withdraw = 1
kind_index PositionActionKind.borrow = 2
kind_index PositionActionKind.repay = 3

pub kind_iff : (a b : PositionActionKind) → ((kind_index a == kind_index b) ≡ true) ↔ (a ≡ b)
kind_iff a b = ground arith

instance abbrev pub kind_eq : HasEq PositionActionKind
kind_eq = record { same = λ a b. kind_index a == kind_index b; same_iff = kind_iff }

pub record AgentRunRecord : Type 0 where
  pub run_id : String
  pub started_at : String
  pub ended_at : Option Iso
  pub summary : Option String

pub record AgentPositionActionRecord : Type 0 where
  pub id : String
  pub run_id : String
  pub protocol : LendingProtocol
  pub action : PositionActionKind
  pub asset : String
  pub raw_amount : String
  pub obligation_id : Option String
  pub digest : Option String
  pub status : ActionStatus
  pub dry_run : Bool
  pub created_at : Iso
  pub tweeted : Bool
  pub tweet_id : Option String

pub record AgentTweetRecord : Type 0 where
  pub id : String
  pub action_id : Option String
  pub status : TweetStatus
  pub text : Option String
  pub external_id : Option String
  pub created_at : Iso

pub data SuggestedAction : Type 0 where
  repay supply : SuggestedAction

pub record AgentPendingTask (F : Type 0) : Type 0 where
  pub task : PendingTaskType
  pub action_id : Option String
  pub obligation_id : Option String
  pub health_factor : Option F
  pub suggested_action : Option SuggestedAction
  pub created_at : Iso

pub record AgentSnapshots (O F : Type 0) : Type 0 where
  pub last_suilend_obligation : Option O
  pub last_usdc_balance_raw : Option String
  pub last_top_market_asset : Option String
  pub last_health_factor : Option F

pub record AgentArtifactRecord : Type 0 where
  pub run_id : String
  pub kind : ArtifactKind
  pub blob_id : String
  pub url : String
  pub created_at : Iso
  pub description : Option String

pub record AgentState (O F : Type 0) : Type 0 where
  pub agent_name : String
  pub wallet_address : String
  pub updated_at : Iso
  pub runs : List AgentRunRecord
  pub position_actions : List AgentPositionActionRecord
  pub tweets : List AgentTweetRecord
  pub snapshots : AgentSnapshots O F
  pub pending : List (AgentPendingTask F)
  pub artifacts : List AgentArtifactRecord

pub record RecordPositionActionInput : Type 0 where
  pub run_id : String
  pub protocol : LendingProtocol
  pub action : PositionActionKind
  pub asset : String
  pub raw_amount : String
  pub obligation_id : Option String
  pub status : ActionStatus
  pub digest : Option String
  pub dry_run : Bool

pub record RecordTweetInput : Type 0 where
  pub action_id : Option String
  pub status : TweetStatus
  pub text : Option String
  pub external_id : Option String
