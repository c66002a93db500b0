-- ===== src/Subagents/Stuck.antt =====
-- How the clearing of a lock leaves loops of other protocols unwinding.
use looping_agent.Prelude.{
  ℕ, ◌+◌, ◌≡◌, ◌≢◌, refl, Bool, false, not, ◌&&◌, ◌||◌, List, [], ◌∷◌, map, arith, ◌==◌, string_eq,
  any, count, if◌then◌else◌,
}
use mathlib.Core.Path.{ap₂}
use looping_agent.Types.{LendingProtocol, SubagentRole, protocol_eq}
use looping_agent.StrategyLedger.Status.{active, unwinding, loop_eq}
use looping_agent.StrategyLedger.{
  Message, ProtocolPositionSnapshot, RiskLock, LoopPosition, StrategyLedger,
}
use looping_agent.Subagents.UnwindGuard.{
  clear_locks, create_lock, lock_of, mark_unwinding, reactivate, guards, is_active_critical,
  is_cleared,
}
use looping_agent.Subagents.Fence.{clear_lock-inactive}

module _ {F : Type 0} where
  no_guard_of_no_critical :
      (protocol : LendingProtocol) (locks : List (RiskLock F))
      → count is_active_critical locks ≡ 0
      → any (guards protocol) locks ≡ false
  no_guard_of_no_critical protocol [] h = refl
  no_guard_of_no_critical protocol (lock ∷ locks) h =
      ground (arith, no_guard_of_no_critical protocol locks)

  -- A loop on another protocol that is unwinding, and one that is active or unwinding.
  abbrev pub unwinding_elsewhere : LendingProtocol → LoopPosition F → Bool
  unwinding_elsewhere protocol loop =
      loop.status == unwinding && not (loop.collateral_protocol == protocol)

  abbrev pub running_elsewhere : LendingProtocol → LoopPosition F → Bool
  running_elsewhere protocol loop =
      (loop.status == active || loop.status == unwinding)
      && not (loop.collateral_protocol == protocol)

  stuck_loop :
      (protocol : LendingProtocol) (reason : Message F) (locks : List (RiskLock F))
      (loop : LoopPosition F)
      → (loop.collateral_protocol ≢ protocol → is_cleared locks loop.collateral_protocol ≡ false)
      → unwinding_elsewhere protocol (reactivate locks (mark_unwinding reason loop))
        ≡ running_elsewhere protocol loop
  unfolding reactivate mark_unwinding
  stuck_loop protocol reason locks loop h = ground arith

  stuck_loops :
      (protocol : LendingProtocol) (reason : Message F) (locks : List (RiskLock F))
      (loops : List (LoopPosition F))
      → ((q : LendingProtocol) → q ≢ protocol → is_cleared locks q ≡ false)
      → count
          (unwinding_elsewhere protocol)
          (map (reactivate locks) (map (mark_unwinding reason) loops))
        ≡ count (running_elsewhere protocol) loops
  stuck_loops protocol reason locks [] h = refl
  stuck_loops protocol reason locks (loop ∷ loops) h =
      ap₂ (λ (b : Bool) (n : ℕ). (if b then 1 else 0) + n)
        (stuck_loop protocol reason locks loop (h loop.collateral_protocol))
        (stuck_loops protocol reason locks loops h)

  only_new_lock :
      (now : ℕ) (role : SubagentRole) (floor : F) (position : ProtocolPositionSnapshot F)
      (locks : List (RiskLock F)) (q : LendingProtocol)
      → count is_active_critical locks ≡ 0
      → q ≢ position.protocol
      → any (guards q) (lock_of now role floor position ∷ locks) ≡ false
  unfolding lock_of
  only_new_lock now role floor position locks q h n =
      ground (arith, no_guard_of_no_critical q locks)

  -- A new critical lock on one protocol marks the active loops of every protocol as unwinding. When
  -- the lock is cleared again, each loop of another protocol that was active or unwinding is left
  -- unwinding, though no critical lock is active any more.
  pub unwinding_is_stuck :
      (now later : ℕ) (role : SubagentRole) (floor : F) (position : ProtocolPositionSnapshot F)
      (ledger : StrategyLedger F)
      → count is_active_critical ledger.risk_locks ≡ 0
      → let locked = (create_lock now role floor position ledger).0 in
        let cleared = (clear_locks later floor locked).0 in
        (count is_active_critical cleared.risk_locks ≡ 0)
        × (count (unwinding_elsewhere position.protocol) cleared.loop_positions
            ≡ count (running_elsewhere position.protocol) ledger.loop_positions)
  unfolding create_lock clear_locks
  unwinding_is_stuck now later role floor position ledger none_active = (
    clear_lock-inactive later floor (create_lock now role floor position ledger).0.risk_locks,
    stuck_loops position.protocol _ (create_lock now role floor position ledger).0.risk_locks
        ledger.loop_positions
        (λ q n. only_new_lock now role floor position ledger.risk_locks q none_active n),
  )
