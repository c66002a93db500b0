-- ===== src/Subagents/Fence.antt =====
-- The risk locks of `runUnwindGuard`, and what the coordinator and the executor do under them.
use looping_agent.Prelude.{
  ℕ, ◌≡◌, ◌≢◌, refl, ap, Bool, true, Option, none, some, List, [], ◌∷◌, map, arith, ltb, ◌∙◌, find,
  any, count, length, any-update_first, Bool-cases, inl, inr,
}
use looping_agent.Js.Number.{Number}
use looping_agent.Types.{SubagentRole, AppConfig, protocol_eq}
use looping_agent.StrategyLedger.Status.{loop_eq}
use looping_agent.StrategyLedger.{
  Message, PositionSnapshot, ProtocolPositionSnapshot, LoopStrategyProposal, AcceptedPlan, RiskLock,
  LoopPosition, StrategyLedger, latest_position_snapshot, update, active_loop_opening_plans,
}
use looping_agent.Subagents.Validate.{
  Verdict, allow, deny, validate_loop_proposal, validate_executor_gate,
}
use looping_agent.Subagents.UnwindGuard.{
  run_unwind_guard, guard_snapshot, guard_positions, fence, clear_locks, create_lock, refresh_lock,
  lock_of, clear_lock, mark_unwinding, guards, is_active_critical, is_active_loop,
  is_critical_position,
}
use looping_agent.Subagents.Acceptable.{locked-not-allow}
use looping_agent.Subagents.Reconcile.{reconcile_expired_executing_plans}
use looping_agent.Subagents.Claim.{ExecutorOptions}
use looping_agent.Subagents.Executor.{
  ExecutorRun, blocked, block_claim, execute_claimed, execute_gated,
}
use looping_agent.Subagents.Coordinator.{
  CoordinatorTimes, run_coordinator, coordinate_reconciled, decide_open, apply_verdict,
  reject_first_open, expire_proposals,
}

module _ {F : Type 0} where
  abbrev pub is_locked : StrategyLedger F → Bool
  is_locked ledger = any (λ lock. lock.active) ledger.risk_locks

  guards-lock_of :
      (now : ℕ) (role : SubagentRole) (floor : F) (position : ProtocolPositionSnapshot F)
      → guards position.protocol (lock_of now role floor position) ≡ true
  unfolding lock_of
  guards-lock_of now role floor position = ground arith

  fence-guards :
      (now : ℕ) (role : SubagentRole) (floor : F) (position : ProtocolPositionSnapshot F)
      (found : Option (RiskLock F)) (ledger : StrategyLedger F)
      → find (guards position.protocol) ledger.risk_locks ≡ found
      → any (guards position.protocol) (fence now role floor position found ledger).0.risk_locks
        ≡ true
  unfolding fence create_lock refresh_lock
  fence-guards now role floor position none ledger h =
      ground (arith, guards-lock_of now role floor position)
  fence-guards now role floor position (some existing) ledger h =
      any-update_first (guards position.protocol) (guards position.protocol) _ ledger.risk_locks h
        (λ x e. e)

  -- Clearing leaves no critical lock active.
  pub clear_lock-inactive :
      (now : ℕ) (floor : F) (locks : List (RiskLock F))
      → count is_active_critical (map (clear_lock now floor) locks) ≡ 0
  unfolding clear_lock
  clear_lock-inactive now floor [] = refl
  clear_lock-inactive now floor (lock ∷ locks) = ground (arith, clear_lock-inactive now floor locks)

  mark_unwinding-none_active :
      (reason : Message F) (loops : List (LoopPosition F))
      → count is_active_loop (map (mark_unwinding reason) loops) ≡ 0
  unfolding mark_unwinding
  mark_unwinding-none_active reason [] = refl
  mark_unwinding-none_active reason (loop ∷ loops) =
      ground (arith, mark_unwinding-none_active reason loops)

  expire_proposals-locked :
      (now : ℕ) (ledger : StrategyLedger F)
      → is_locked ledger ≡ true
      → is_locked (expire_proposals now ledger) ≡ true
  unfolding expire_proposals
  expire_proposals-locked now ledger h = h

module _ {F : Type 0} ⦃num : Number F⦄ where
  -- When the latest snapshot shows a borrowed position at or below the critical health factor, the
  -- guard leaves an active critical lock on the protocol of the first such position.
  pub critical_is_fenced :
      (config : AppConfig F) (role : SubagentRole) (now : ℕ) (ledger : StrategyLedger F)
      (snapshot : PositionSnapshot F) (position : ProtocolPositionSnapshot F)
      → latest_position_snapshot ledger ≡ some snapshot
      → find (is_critical_position config.loop_strategy.critical_health_factor) snapshot.protocols
        ≡ some position
      → any (guards position.protocol) (run_unwind_guard config role now ledger).0.risk_locks ≡ true
  unfolding run_unwind_guard guard_snapshot guard_positions
  critical_is_fenced config role now ledger snapshot position h k =
      rw (h, guard_snapshot, k, guard_positions)
        (fence-guards now role config.loop_strategy.critical_health_factor position _ ledger refl)

  -- When the protocol of the first critical position of the latest snapshot had no active critical
  -- lock, the guard leaves no loop active, on any protocol.
  pub new_lock_stops_loops :
      (config : AppConfig F) (role : SubagentRole) (now : ℕ) (ledger : StrategyLedger F)
      (snapshot : PositionSnapshot F) (position : ProtocolPositionSnapshot F)
      → latest_position_snapshot ledger ≡ some snapshot
      → find (is_critical_position config.loop_strategy.critical_health_factor) snapshot.protocols
        ≡ some position
      → find (guards position.protocol) ledger.risk_locks ≡ none
      → count is_active_loop (run_unwind_guard config role now ledger).0.loop_positions ≡ 0
  unfolding run_unwind_guard guard_snapshot guard_positions fence create_lock
  new_lock_stops_loops config role now ledger snapshot position h k e =
      rw (h, guard_snapshot, k, guard_positions, e, fence)
        (mark_unwinding-none_active _ ledger.loop_positions)

  -- When no protocol of the latest snapshot has a borrowed position at or below the critical
  -- health factor, the guard leaves no critical lock active.
  pub safe_is_cleared :
      (config : AppConfig F) (role : SubagentRole) (now : ℕ) (ledger : StrategyLedger F)
      (snapshot : PositionSnapshot F)
      → latest_position_snapshot ledger ≡ some snapshot
      → find (is_critical_position config.loop_strategy.critical_health_factor) snapshot.protocols
        ≡ none
      → count is_active_critical (run_unwind_guard config role now ledger).0.risk_locks ≡ 0
  unfolding run_unwind_guard guard_snapshot guard_positions clear_locks
  safe_is_cleared config role now ledger snapshot h k =
      rw (h, guard_snapshot, k, guard_positions)
        (clear_lock-inactive now config.loop_strategy.critical_health_factor ledger.risk_locks)

  deny_of_not_allow :
      (v : Verdict F) → ((m : Message F) → v ≢ allow m) → (r : Message F) × (v ≡ deny r)
  deny_of_not_allow (allow m) h = absurd (h m refl)
  deny_of_not_allow (deny r) h = (r, refl)

  pub locked_denies :
      (p : LoopStrategyProposal F) (ledger : StrategyLedger F) (config : AppConfig F) (now : ℕ)
      → is_locked ledger ≡ true
      → (r : Message F) × (validate_loop_proposal p ledger config now ≡ deny r)
  locked_denies p ledger config now h =
      deny_of_not_allow (validate_loop_proposal p ledger config now)
        (λ m. locked-not-allow p ledger config now h)

  -- With an active lock, the executor's gate denies.
  pub locked_gate :
      (p : LoopStrategyProposal F) (ledger : StrategyLedger F) (config : AppConfig F) (now : ℕ)
      {m : Message F}
      → is_locked ledger ≡ true
      → validate_executor_gate p ledger config now ≢ allow m
  unfolding validate_executor_gate
  locked_gate p ledger config now h =
      let (r, e) = locked_denies p (record ledger { accepted_plans = [] }) config now h in
      ground (arith, e)

  pub locked_gate_denies :
      (p : LoopStrategyProposal F) (ledger : StrategyLedger F) (config : AppConfig F) (now : ℕ)
      → is_locked ledger ≡ true
      → (r : Message F) × (validate_executor_gate p ledger config now ≡ deny r)
  locked_gate_denies p ledger config now h =
      deny_of_not_allow (validate_executor_gate p ledger config now)
        (λ m. locked_gate p ledger config now h)

  risk_locks-reconcile :
      (ledger : StrategyLedger F) (config : AppConfig F) (now : ℕ)
      → (reconcile_expired_executing_plans ledger config now).0.risk_locks ≡ ledger.risk_locks
  unfolding reconcile_expired_executing_plans
  risk_locks-reconcile ledger config now = elim (Bool-cases config.runtime.dry_run) [
    | inl e ↦ rw e
    | inr e ↦ rw e
  ]

  decide_open-locked :
      (config : AppConfig F) (times : CoordinatorTimes) (executed cancelled : ℕ)
      (p : Option (LoopStrategyProposal F)) (ledger : StrategyLedger F)
      → is_locked ledger ≡ true
      → (decide_open config times executed cancelled p ledger).0.accepted_plans
        ≡ ledger.accepted_plans
  unfolding decide_open apply_verdict reject_first_open
  decide_open-locked config times executed cancelled none ledger h = refl
  decide_open-locked config times executed cancelled (some p) ledger h =
      rw ((locked_denies p ledger config times.validated h).1, apply_verdict)

  coordinate_reconciled-locked :
      (config : AppConfig F) (times : CoordinatorTimes) (executed cancelled : ℕ)
      (ledger : StrategyLedger F)
      → is_locked ledger ≡ true
      → (coordinate_reconciled config times executed cancelled ledger).0.accepted_plans
        ≡ ledger.accepted_plans
  unfolding coordinate_reconciled
  coordinate_reconciled-locked config times executed cancelled ledger h =
      elim (Bool-cases (ltb 0 (length (active_loop_opening_plans ledger)))) [
        | inl e ↦ rw e
        | inr e ↦ rw e (decide_open-locked config times executed cancelled _ ledger h)
      ]

  -- With an active lock, the coordinator accepts no plan: after its tick the plans are those that
  -- its reconciliation leaves.
  pub locked_coordinator :
      (config : AppConfig F) (times : CoordinatorTimes) (ledger : StrategyLedger F)
      → is_locked ledger ≡ true
      → (run_coordinator config times ledger).0.accepted_plans
        ≡ (reconcile_expired_executing_plans
            (expire_proposals times.start ledger)
            config
            times.start).0.accepted_plans
  unfolding run_coordinator
  locked_coordinator config times ledger h = coordinate_reconciled-locked config times _ _ _ (
      ap (any (λ (lock : RiskLock F). lock.active))
        (risk_locks-reconcile (expire_proposals times.start ledger) config times.start)
      ∙ expire_proposals-locked times.start ledger h)

  -- While the ledger that the executor loads for its gate holds an active lock, the claimed plan is
  -- blocked: the call reports a reason, and its only further update is that of `block_claim`, so
  -- it records no receipt and no loop, whatever the lending calls would answer.
  pub locked_execution :
      (config : AppConfig F) (options : ExecutorOptions) (run : ExecutorRun F)
      (plan : AcceptedPlan F) (p : LoopStrategyProposal F) (saved : StrategyLedger F)
      → is_locked (run.before_gate saved) ≡ true
      → (reason : Message F) × (execute_claimed config options run (some (plan, p)) saved ≡ (
        update run.ended
            (block_claim options plan.id reason)
            (run.before_end (run.before_gate saved)),
        blocked reason,
      ))
  unfolding execute_claimed execute_gated
  locked_execution config options run plan p saved h =
      let (r, e) = locked_gate_denies p (run.before_gate saved) config run.gated h in
      (r, rw (e, execute_gated))
