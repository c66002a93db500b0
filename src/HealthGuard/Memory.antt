-- ===== src/HealthGuard/Memory.antt =====
-- The health guard and the well-formedness of the agent's memory.
use looping_agent.Prelude.{
  String, ◌≡◌, ◌⊎◌, inl, inr, refl, true, not, Option, none, some, List, [], ◌∷◌, ◌++◌, three_ways,
  in_turn, two_ways,
}
use looping_agent.Js.Number.{Number}
use looping_agent.Types.{LendingProtocol, AppConfig}
use looping_agent.Policy.{evaluate_health_guard}
use looping_agent.AgentMemory.Records.{AgentState}
use looping_agent.AgentMemory.Session.{acts, alerts, clears, perform}
use looping_agent.AgentMemory.WellFormed.{WellFormed}
use looping_agent.AgentMemory.Invariant.{perform-WellFormed}
use looping_agent.Subagents.Live.{Call, returns, throws}
use looping_agent.Subagents.Observe.{NormalizedPosition, NormalizedPositions}
use looping_agent.HealthGuard.Repay.{
  GuardRun, Guarded, RepayReason, RepayResult, give_up, alert, plan_repay, confirm_repay,
  after_repay, live_repay, repay_leg, repay_largest, repay_critical,
}
use looping_agent.HealthGuard.Run.{
  Progress, GuardResult, is_empty, health_ok, after_critical, guard_read, guard_answer, guard_all,
  guarded_protocols, conclude, run_health_guard,
}

Call-cases :
    {A : Type 0} (c : Call A) → ((a : A) × (c ≡ returns a)) ⊎ ((e : String) × (c ≡ throws e))
Call-cases (returns a) = inl (a, refl)
Call-cases (throws e) = inr (e, refl)

module _ {O F : Type 0} where
  unfoldable Keeps : Guarded O F → Type 0
  Keeps guarded = WellFormed guarded.agent

  give_up-Keeps :
      (run : GuardRun F) (protocol : LendingProtocol) (positions : NormalizedPositions F)
      (reason : RepayReason F) (guarded : Guarded O F)
      → Keeps guarded
      → Keeps (give_up run protocol positions reason guarded).1
  unfolding Keeps give_up alert perform
  give_up-Keeps run protocol positions reason guarded w =
      perform-WellFormed (alerts _ _ _ _ _) guarded.agent w

  plan_repay-Keeps :
      (run : GuardRun F) (protocol : LendingProtocol) (positions : NormalizedPositions F)
      (leg : NormalizedPosition F) (guarded : Guarded O F)
      → Keeps guarded
      → Keeps (plan_repay run protocol positions leg guarded)
  unfolding Keeps plan_repay perform
  plan_repay-Keeps run protocol positions leg guarded w =
      perform-WellFormed (acts _ _ _) guarded.agent w

  confirm_repay-Keeps :
      (run : GuardRun F) (protocol : LendingProtocol) (positions : NormalizedPositions F)
      (leg : NormalizedPosition F) (digest : _) (guarded : Guarded O F)
      → Keeps guarded
      → Keeps (confirm_repay run protocol positions leg digest guarded)
  unfolding Keeps confirm_repay perform
  confirm_repay-Keeps run protocol positions leg digest guarded w =
      perform-WellFormed clears _ (perform-WellFormed (acts _ _ _) guarded.agent w)

  after_repay-Keeps :
      (run : GuardRun F) (protocol : LendingProtocol) (positions : NormalizedPositions F)
      (leg : NormalizedPosition F) (answer : Call _) (guarded : Guarded O F)
      → Keeps guarded
      → Keeps (after_repay run protocol positions leg answer guarded).1
  unfolding after_repay
  after_repay-Keeps run protocol positions leg (throws e) guarded w =
      give_up-Keeps run protocol positions _ guarded w
  after_repay-Keeps run protocol positions leg (returns digest) guarded w =
      let confirmed = confirm_repay-Keeps run protocol positions leg digest guarded w in
      elim (Call-cases (run.persist protocol true)) [
        | inl (u, e) ↦ rw (e, after_repay) confirmed
        | inr (m, e) ↦ rw (e, after_repay) (give_up-Keeps run protocol positions _ _ confirmed)
      ]

module _ {O F : Type 0} ⦃num : Number F⦄ where
  repay_leg-Keeps :
      (run : GuardRun F) (config : AppConfig F) (protocol : LendingProtocol)
      (positions : NormalizedPositions F) (leg : NormalizedPosition F) (guarded : Guarded O F)
      → Keeps guarded
      → Keeps (repay_leg run config protocol positions leg guarded).1
  unfolding Keeps repay_leg live_repay
  repay_leg-Keeps run config protocol positions leg guarded w =
      three_ways (λ (r : Call (RepayResult F) × Guarded O F). Keeps r.1) _ config.runtime.dry_run _
        _ _ (give_up-Keeps run protocol positions _ guarded w)
        (give_up-Keeps run protocol positions _ _
          (plan_repay-Keeps run protocol positions leg guarded w))
        (λ _ _. after_repay-Keeps run protocol positions leg _ _ w)

  repay_largest-Keeps :
      (run : GuardRun F) (config : AppConfig F) (protocol : LendingProtocol)
      (positions : NormalizedPositions F) (leg : Option (NormalizedPosition F))
      (guarded : Guarded O F)
      → Keeps guarded
      → Keeps (repay_largest run config protocol positions leg guarded).1
  unfolding repay_largest
  repay_largest-Keeps run config protocol positions none guarded w =
      give_up-Keeps run protocol positions _ guarded w
  repay_largest-Keeps run config protocol positions (some leg) guarded w =
      repay_leg-Keeps run config protocol positions leg guarded w

  after_critical-Keeps :
      (protocol : LendingProtocol) (progress : Progress O F)
      (repaid : Call (RepayResult F) × Guarded O F)
      → Keeps repaid.1
      → Keeps (after_critical protocol progress repaid).1.guarded
  unfolding Keeps after_critical
  after_critical-Keeps protocol progress (throws e, guarded) w = w
  after_critical-Keeps protocol progress (returns result, guarded) w = w

  repay_critical-Keeps :
      (run : GuardRun F) (config : AppConfig F) (protocol : LendingProtocol)
      (positions : NormalizedPositions F) (guarded : Guarded O F)
      → Keeps guarded
      → Keeps (repay_critical run config protocol positions guarded).1
  unfolding repay_critical
  repay_critical-Keeps run config protocol positions guarded w =
      repay_largest-Keeps run config protocol positions _ guarded w

  guard_read-Keeps :
      (run : GuardRun F) (config : AppConfig F) (protocol : LendingProtocol)
      (positions : NormalizedPositions F) (progress : Progress O F)
      → Keeps progress.guarded
      → Keeps (guard_read run config protocol positions progress).1.guarded
  unfolding guard_read
  guard_read-Keeps run config protocol positions progress w =
      in_turn (λ (r : Call (Unit {0}) × Progress O F). Keeps r.1.guarded)
        (is_empty positions.borrows)
        (evaluate_health_guard positions.borrows positions.health_factor config)
        (returns tt, progress)
        (after_critical protocol progress
          (repay_critical run config protocol positions progress.guarded))
        (
          returns tt,
          record progress {
            any_borrows = true;
            reasons = progress.reasons ++ (health_ok protocol ∷ []);
          },
        )
        w
        (λ _.
          after_critical-Keeps protocol progress _
            (repay_critical-Keeps run config protocol positions progress.guarded w))
        w

  guard_answer-Keeps :
      (run : GuardRun F) (config : AppConfig F) (protocol : LendingProtocol)
      (answer : Call (NormalizedPositions F)) (progress : Progress O F)
      → Keeps progress.guarded
      → Keeps (guard_answer run config protocol answer progress).1.guarded
  unfolding guard_answer
  guard_answer-Keeps run config protocol (throws e) progress w = w
  guard_answer-Keeps run config protocol (returns positions) progress w =
      guard_read-Keeps run config protocol positions progress w

  guard_all-Keeps :
      (run : GuardRun F) (config : AppConfig F) (rest : List LendingProtocol)
      (reached : Call (Unit {0}) × Progress O F)
      → Keeps reached.1.guarded
      → Keeps (guard_all run config rest reached).1.guarded
  unfolding guard_all
  guard_all-Keeps run config [] reached w = w
  guard_all-Keeps run config (protocol ∷ rest) (throws e, progress) w = w
  guard_all-Keeps run config (protocol ∷ rest) (returns u, progress) w =
      guard_all-Keeps run config rest _
        (guard_answer-Keeps run config protocol (run.get_positions protocol) progress w)

  conclude-Keeps :
      (reached : Call (Unit {0}) × Progress O F)
      → Keeps reached.1.guarded
      → Keeps (conclude reached).1
  unfolding Keeps conclude perform
  conclude-Keeps (throws e, progress) w = w
  conclude-Keeps (returns u, progress) w =
      two_ways (λ (r : Call (GuardResult F) × Guarded O F). Keeps r.1) progress.any_borrows _ _ w
        (perform-WellFormed clears progress.guarded.agent w)

  -- The health guard keeps the memory well-formed on every path, the failing calls of the clients
  -- and of the saves included: bounded lists, one record for an action and one health alert at most.
  pub run_health_guard-WellFormed :
      (run : GuardRun F) (config : AppConfig F) (state : AgentState O F)
      → WellFormed state
      → WellFormed (run_health_guard run config state).1.agent
  unfolding Keeps run_health_guard
  run_health_guard-WellFormed run config state w =
      two_ways (λ (r : Call (GuardResult F) × Guarded O F). Keeps r.1) (not config.sui.enabled) _ _
        w (conclude-Keeps _ (guard_all-Keeps run config (guarded_protocols config) _ w))
