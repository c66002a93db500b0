-- ===== src/HealthGuard/Run.antt =====
-- `runHealthGuard`: the pass over the protocols.
use looping_agent.Prelude.{
  String, Bool, true, false, not, ◌&&◌, ◌||◌, List, [], ◌∷◌, ◌++◌, any, filter, ◌==◌, if◌then◌else◌,
}
use looping_agent.Js.Number.{Number}
use looping_agent.Types.{LendingProtocol, AppConfig, protocols, protocol_eq}
use looping_agent.Policy.{evaluate_health_guard}
use looping_agent.AgentMemory.Records.{AgentState}
use looping_agent.AgentMemory.Ops.{clear_health_alert}
use looping_agent.Subagents.Live.{Call, returns, throws}
use looping_agent.Subagents.Observe.{NormalizedPositions}
use looping_agent.HealthGuard.Repay.{GuardRun, Guarded, RepayReason, RepayResult, repay_critical}

pub data ProtocolReason (F : Type 0) : Type 0 where
  read_failed : LendingProtocol → String → ProtocolReason F
  health_ok : LendingProtocol → ProtocolReason F
  repaying : LendingProtocol → RepayReason F → ProtocolReason F

pub data GuardReason (F : Type 0) : Type 0 where
  lending_is_disabled no_active_borrows : GuardReason F
  reasons : List (ProtocolReason F) → GuardReason F

pub record GuardResult (F : Type 0) : Type 0 where
  pub executed : Bool
  pub reason : GuardReason F

-- The variables of the loop.
pub record Progress (O F : Type 0) : Type 0 where
  pub any_borrows : Bool
  pub executed : Bool
  pub reasons : List (ProtocolReason F)
  pub guarded : Guarded O F

abbrev pub is_empty : {A : Type 0} → List A → Bool
is_empty [] = true
is_empty (_ ∷ _) = false

module _ {F : Type 0} where
  unfoldable pub guarded_protocols : AppConfig F → List LendingProtocol
  guarded_protocols config =
      filter
        (λ protocol.
          (config.sui.protocols protocol).enabled
          && any (λ p. p == protocol) config.sui.allowed_protocols)
        protocols

module _ {O F : Type 0} where
  abbrev pub start : AgentState O F → Guarded O F
  start state = record { agent = state; sent = [] }

module _ {O F : Type 0} ⦃num : Number F⦄ where
  -- The loop's variables after a repay.
  unfoldable pub after_critical :
      LendingProtocol
      → Progress O F
      → Call (RepayResult F) × Guarded O F
      → Call (Unit {0}) × Progress O F
  after_critical protocol progress (throws e, guarded) =
      (throws e, record progress { any_borrows = true; guarded = guarded })
  after_critical protocol progress (returns result, guarded) = (
    returns tt,
    record {
      any_borrows = true;
      executed = progress.executed || result.executed;
      reasons = progress.reasons ++ (repaying protocol result.reason ∷ []);
      guarded = guarded;
    },
  )

  -- A protocol whose positions were read.
  unfoldable pub guard_read :
      GuardRun F
      → AppConfig F
      → LendingProtocol
      → NormalizedPositions F
      → Progress O F
      → Call (Unit {0}) × Progress O F
  guard_read run config protocol positions progress =
      if is_empty positions.borrows
      then (returns tt, progress)
      else if evaluate_health_guard positions.borrows positions.health_factor config
      then after_critical protocol progress
          (repay_critical run config protocol positions progress.guarded)
      else (
        returns tt,
        record progress {
          any_borrows = true;
          reasons = progress.reasons ++ (health_ok protocol ∷ []);
        },
      )

  unfoldable pub guard_answer :
      GuardRun F
      → AppConfig F
      → LendingProtocol
      → Call (NormalizedPositions F)
      → Progress O F
      → Call (Unit {0}) × Progress O F
  guard_answer run config protocol (throws e) progress =
      (returns tt, record progress { reasons = progress.reasons ++ (read_failed protocol e ∷ []) })
  guard_answer run config protocol (returns positions) progress =
      guard_read run config protocol positions progress

  -- The loop; an error ends it.
  unfoldable pub guard_all :
      GuardRun F
      → AppConfig F
      → List LendingProtocol
      → Call (Unit {0}) × Progress O F
      → Call (Unit {0}) × Progress O F
  guard_all run config [] reached = reached
  guard_all run config (protocol ∷ rest) (throws e, progress) = (throws e, progress)
  guard_all run config (protocol ∷ rest) (returns _, progress) =
      guard_all run config rest
        (guard_answer run config protocol (run.get_positions protocol) progress)

  unfoldable pub conclude : Call (Unit {0}) × Progress O F → Call (GuardResult F) × Guarded O F
  conclude (throws e, progress) = (throws e, progress.guarded)
  conclude (returns _, progress) =
      if progress.any_borrows
      then (
        returns (record { executed = progress.executed; reason = reasons progress.reasons }),
        progress.guarded,
      )
      else (
        returns (record { executed = false; reason = no_active_borrows }),
        record progress.guarded { agent = clear_health_alert progress.guarded.agent },
      )

  unfoldable pub run_health_guard :
      GuardRun F → AppConfig F → AgentState O F → Call (GuardResult F) × Guarded O F
  run_health_guard run config state =
      if not config.sui.enabled
      then (returns (record { executed = false; reason = lending_is_disabled }), start state)
      else conclude (
          guard_all run config (guarded_protocols config) (
            returns tt,
            record { any_borrows = false; executed = false; reasons = []; guarded = start state },
          ))
