-- ===== src/HealthGuard/Blind.antt =====
-- What the health guard does where no client answers.
use looping_agent.Prelude.{String, ◌≡◌, refl, Bool, true, false, not, List, [], ◌∷◌, if◌then◌else◌}
use looping_agent.Js.Number.{Number}
use looping_agent.Types.{LendingProtocol, AppConfig}
use looping_agent.AgentMemory.Records.{AgentState}
use looping_agent.AgentMemory.Ops.{clear_health_alert}
use looping_agent.Subagents.Live.{Call, returns, throws}
use looping_agent.HealthGuard.Repay.{GuardRun, Guarded}
use looping_agent.HealthGuard.Run.{
  Progress, no_active_borrows, guard_answer, guard_all, guarded_protocols, conclude, start,
  run_health_guard,
}

not_skipped : {A : Type 0} (b : Bool) (x y z : A) → b ≡ true → y ≡ z → (if not b then x else y) ≡ z
not_skipped true x y z e h = h
not_skipped false x y z e h = cc

module _ {O F : Type 0} ⦃num : Number F⦄ where
  -- The progress without borrows and repays.
  abbrev Untouched : Guarded O F → Call (Unit {0}) × Progress O F → Type 0
  Untouched guarded reached =
      (reached.0 ≡ returns tt) × (reached.1.any_borrows ≡ false) × (reached.1.guarded ≡ guarded)

  answer-Untouched :
      (run : GuardRun F) (config : AppConfig F) (failure : LendingProtocol → String)
      (guarded : Guarded O F) (protocol : LendingProtocol) (progress : Progress O F)
      → ((p : LendingProtocol) → run.get_positions p ≡ throws (failure p))
      → (progress.any_borrows ≡ false) × (progress.guarded ≡ guarded)
      → Untouched guarded (guard_answer run config protocol (run.get_positions protocol) progress)
  unfolding guard_answer
  answer-Untouched run config failure guarded protocol progress fails k =
      rw (fails protocol, guard_answer) (refl, k.0, k.1)

  guard_all-Untouched :
      (run : GuardRun F) (config : AppConfig F) (failure : LendingProtocol → String)
      (guarded : Guarded O F) (rest : List LendingProtocol)
      (reached : Call (Unit {0}) × Progress O F)
      → ((protocol : LendingProtocol) → run.get_positions protocol ≡ throws (failure protocol))
      → Untouched guarded reached
      → Untouched guarded (guard_all run config rest reached)
  unfolding guard_all
  guard_all-Untouched run config failure guarded [] reached fails h = h
  guard_all-Untouched run config failure guarded (protocol ∷ rest) (throws e, progress) fails h = h
  guard_all-Untouched run config failure guarded (protocol ∷ rest) (returns u, progress) fails h =
      guard_all-Untouched run config failure guarded rest _ fails
        (answer-Untouched run config failure guarded protocol progress fails (h.1, h.2))

  conclude-Untouched :
      (guarded : Guarded O F) (reached : Call (Unit {0}) × Progress O F)
      → Untouched guarded reached
      → conclude reached ≡ (
        returns (record { executed = false; reason = no_active_borrows }),
        record guarded { agent = clear_health_alert guarded.agent },
      )
  unfolding conclude
  conclude-Untouched guarded (throws e, progress) h = cc
  conclude-Untouched guarded (returns u, progress) h = rw (h.1, h.2, conclude) refl

  abbrev progress_of : AgentState O F → Progress O F
  progress_of state = record {
    any_borrows = false;
    executed = false;
    reasons = [];
    guarded = start state;
  }

  -- Where lending is enabled and no client answers, the health guard reports that there are no
  -- active borrows, and removes the health alerts that were pending.
  pub blind_guard_clears :
      (run : GuardRun F) (config : AppConfig F) (state : AgentState O F)
      (failure : LendingProtocol → String)
      → config.sui.enabled ≡ true
      → ((protocol : LendingProtocol) → run.get_positions protocol ≡ throws (failure protocol))
      → run_health_guard run config state ≡ (
        returns (record { executed = false; reason = no_active_borrows }),
        start (clear_health_alert state),
      )
  unfolding run_health_guard
  blind_guard_clears run config state failure enabled fails =
      not_skipped config.sui.enabled _ _ _ enabled (
        conclude-Untouched (start state)
          (guard_all run config (guarded_protocols config) (returns tt, progress_of state))
          (guard_all-Untouched run config failure (start state) (guarded_protocols config)
            (returns tt, progress_of state) fails (refl, refl, refl)))
