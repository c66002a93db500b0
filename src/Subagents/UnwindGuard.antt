-- ===== src/Subagents/UnwindGuard.antt =====
-- `runUnwindGuard` of agent/src/core/subagents.ts: the mutator that it hands to the store.
use looping_agent.Prelude.{
  ℕ, String, Bool, true, false, ◌&&◌, Option, none, some, List, [], ◌∷◌, map, ltb, ◌==◌,
  if◌then◌else◌, find, update_first, count, any,
}
use looping_agent.Js.Number.{Number}
use looping_agent.Js.Text.{template, decimal}
use looping_agent.Types.{LendingProtocol, SubagentRole, AppConfig, protocol_eq, protocol_text}
use looping_agent.StrategyLedger.Status.{active, unwinding, critical, is_critical, loop_eq}
use looping_agent.StrategyLedger.{
  Message, health_critical, lock_cleared, PositionSnapshot, ProtocolPositionSnapshot, RiskLock,
  LoopPosition, StrategyLedger, latest_position_snapshot,
}

pub data UnwindAction (F : Type 0) : Type 0 where
  no_snapshot nothing_critical : UnwindAction F
  locks_cleared : ℕ → ℕ → UnwindAction F
  lock_refreshed lock_created : LendingProtocol → String → UnwindAction F

abbrev pub is_protocol : LendingProtocol → Option LendingProtocol → Bool
is_protocol p none = false
is_protocol p (some q) = q == p

abbrev is_nonempty {ℓ} : {A : Type ℓ} → List A → Bool
is_nonempty [] = false
is_nonempty (x ∷ xs) = true

module _ {F : Type 0} where
  abbrev pub is_active_critical : RiskLock F → Bool
  is_active_critical lock = lock.active && is_critical lock.severity

  abbrev pub guards : LendingProtocol → RiskLock F → Bool
  guards protocol lock =
      lock.active && is_protocol protocol lock.protocol && is_critical lock.severity

  unfoldable pub clear_lock : ℕ → F → RiskLock F → RiskLock F
  clear_lock now floor lock =
      if is_active_critical lock
      then record lock { active = false; cleared_at = some (some now); reason = lock_cleared floor }
      else lock

  -- `clearedProtocols.has(protocol)`
  abbrev pub is_cleared : List (RiskLock F) → LendingProtocol → Bool
  is_cleared locks protocol = any (guards protocol) locks

  abbrev pub reactivates : List (RiskLock F) → LoopPosition F → Bool
  reactivates locks loop = loop.status == unwinding && is_cleared locks loop.collateral_protocol

  unfoldable pub reactivate : List (RiskLock F) → LoopPosition F → LoopPosition F
  reactivate locks loop =
      if reactivates locks loop then record loop { status = active; unwind_status = none } else loop

  abbrev pub is_active_loop : LoopPosition F → Bool
  is_active_loop loop = loop.status == active

  unfoldable pub mark_unwinding : Message F → LoopPosition F → LoopPosition F
  mark_unwinding reason loop =
      if is_active_loop loop
      then record loop { status = unwinding; unwind_status = some reason }
      else loop

  -- The branch with no critical position.
  unfoldable pub clear_locks : ℕ → F → StrategyLedger F → StrategyLedger F × UnwindAction F
  clear_locks now floor ledger =
      let cleared = count is_active_critical ledger.risk_locks in
      (
        record ledger {
          risk_locks = map (clear_lock now floor) ledger.risk_locks;
          loop_positions = map (reactivate ledger.risk_locks) ledger.loop_positions;
        },
        if ltb 0 cleared
            then locks_cleared cleared (count (reactivates ledger.risk_locks) ledger.loop_positions)
            else nothing_critical,
      )

  -- The branch with a new critical position.
  unfoldable pub lock_of : ℕ → SubagentRole → F → ProtocolPositionSnapshot F → RiskLock F
  lock_of now role floor position = record {
    id = template ("risk-lock-" ∷ protocol_text position.protocol ∷ "-" ∷ decimal now ∷ []);
    created_at = some now;
    role = role;
    severity = critical;
    reason = health_critical position.health_factor floor;
    active = true;
    protocol = some position.protocol;
    health_factor = some position.health_factor;
    cleared_at = none;
  }

  unfoldable pub create_lock :
      ℕ
      → SubagentRole
      → F
      → ProtocolPositionSnapshot F
      → StrategyLedger F
      → StrategyLedger F × UnwindAction F
  create_lock now role floor position ledger =
      let lock = lock_of now role floor position in
      (
        record ledger {
          risk_locks = lock ∷ ledger.risk_locks;
          loop_positions = map (mark_unwinding lock.reason) ledger.loop_positions;
        },
        lock_created position.protocol lock.id,
      )

  unfoldable pub refresh_lock :
      F
      → ProtocolPositionSnapshot F
      → RiskLock F
      → StrategyLedger F
      → StrategyLedger F × UnwindAction F
  refresh_lock floor position existing ledger = (
    record ledger {
      risk_locks =
          update_first (guards position.protocol)
            (λ lock. record lock {
              health_factor = some position.health_factor;
              reason = health_critical position.health_factor floor;
            })
            ledger.risk_locks;
    },
    lock_refreshed position.protocol existing.id,
  )

  -- With a critical position, from the search for its lock on.
  unfoldable pub fence :
      ℕ
      → SubagentRole
      → F
      → ProtocolPositionSnapshot F
      → Option (RiskLock F)
      → StrategyLedger F
      → StrategyLedger F × UnwindAction F
  fence now role floor position none ledger = create_lock now role floor position ledger
  fence now role floor position (some existing) ledger = refresh_lock floor position existing ledger

  -- With a snapshot, from the search for a critical position on.
  unfoldable pub guard_positions :
      ℕ
      → SubagentRole
      → F
      → Option (ProtocolPositionSnapshot F)
      → StrategyLedger F
      → StrategyLedger F × UnwindAction F
  guard_positions now role floor none ledger = clear_locks now floor ledger
  guard_positions now role floor (some position) ledger =
      fence now role floor position (find (guards position.protocol) ledger.risk_locks) ledger

module _ {F : Type 0} ⦃num : Number F⦄ where
  -- A borrowed position at or below the critical health factor.
  abbrev pub is_critical_position : F → ProtocolPositionSnapshot F → Bool
  is_critical_position floor position =
      is_nonempty position.borrows
      && num.is_finite position.health_factor
      && num.le position.health_factor floor

  unfoldable pub guard_snapshot :
      ℕ
      → SubagentRole
      → F
      → Option (PositionSnapshot F)
      → StrategyLedger F
      → StrategyLedger F × UnwindAction F
  guard_snapshot now role floor none ledger = (ledger, no_snapshot)
  guard_snapshot now role floor (some snapshot) ledger =
      guard_positions now role floor (find (is_critical_position floor) snapshot.protocols) ledger

  unfoldable pub run_unwind_guard :
      AppConfig F → SubagentRole → ℕ → StrategyLedger F → StrategyLedger F × UnwindAction F
  run_unwind_guard config role now ledger =
      guard_snapshot now role config.loop_strategy.critical_health_factor
        (latest_position_snapshot ledger) ledger
