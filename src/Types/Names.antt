-- ===== src/Types/Names.antt =====
-- Protocols, roles, actors and action kinds of agent/src/types.ts, with their equality tests.
use looping_agent.Prelude.{
  ℕ, String, ◌≡◌, ◌↔◌, Bool, true, false, List, [], ◌∷◌, Option, arith, HasEq, ◌==◌, nat_eq,
}

pub data LendingProtocol : Type 0 where
  suilend navi scallop : LendingProtocol

pub data PositionActionKind : Type 0 where
  supply withdraw borrow repay : PositionActionKind

pub data SubagentRole : Type 0 where
  coordinator rate_scout position_risk loop_strategist executor unwind_guard : SubagentRole

-- `SubagentRole | 'main-agent'`
pub data StrategyExecutionActor : Type 0 where
  role : SubagentRole → StrategyExecutionActor
  main_agent : StrategyExecutionActor

-- A timestamp text as `Date` reads it: its milliseconds, or `none` where it is no date.
abbrev pub Iso : Type 0
Iso = Option ℕ

abbrev protocol_beq : LendingProtocol → LendingProtocol → Bool
protocol_beq suilend suilend = true
protocol_beq navi navi = true
protocol_beq scallop scallop = true
protocol_beq _ _ = false

pub protocol_beq_iff : (a b : LendingProtocol) → (protocol_beq a b ≡ true) ↔ (a ≡ b)
protocol_beq_iff a b = ground arith

instance abbrev pub protocol_eq : HasEq LendingProtocol
protocol_eq = record { same = protocol_beq; same_iff = protocol_beq_iff }

abbrev role_index : SubagentRole → ℕ
role_index coordinator = 0
role_index rate_scout = 1
role_index position_risk = 2
role_index loop_strategist = 3
role_index executor = 4
role_index unwind_guard = 5

abbrev role_beq : SubagentRole → SubagentRole → Bool
role_beq a b = role_index a == role_index b

pub role_beq_iff : (a b : SubagentRole) → (role_beq a b ≡ true) ↔ (a ≡ b)
role_beq_iff a b = ground arith

instance abbrev pub role_eq : HasEq SubagentRole
role_eq = record { same = role_beq; same_iff = role_beq_iff }

abbrev actor_beq : StrategyExecutionActor → StrategyExecutionActor → Bool
actor_beq (role a) (role b) = a == b
actor_beq main_agent main_agent = true
actor_beq _ _ = false

pub actor_beq_iff : (a b : StrategyExecutionActor) → (actor_beq a b ≡ true) ↔ (a ≡ b)
actor_beq_iff a b = ground arith

instance abbrev pub actor_eq : HasEq StrategyExecutionActor
actor_eq = record { same = actor_beq; same_iff = actor_beq_iff }

-- The text of a role, as it stands in identifiers.
unfoldable pub role_text : SubagentRole → String
role_text coordinator = "coordinator"
role_text rate_scout = "rate-scout"
role_text position_risk = "position-risk"
role_text loop_strategist = "loop-strategist"
role_text executor = "executor"
role_text unwind_guard = "unwind-guard"

unfoldable pub protocol_text : LendingProtocol → String
protocol_text suilend = "suilend"
protocol_text navi = "navi"
protocol_text scallop = "scallop"

-- `['suilend', 'navi', 'scallop']`
abbrev pub protocols : List LendingProtocol
protocols = suilend ∷ navi ∷ scallop ∷ []
