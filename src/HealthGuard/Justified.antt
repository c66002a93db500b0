-- ===== src/HealthGuard/Justified.antt =====
-- Which repays the health guard sends.
use mathlib.Core.List.{Mem, mem-cons_self, mem-cons_of_mem}
use looping_agent.Prelude.{
  ◌≡◌, refl, Bool, true, false, not, Option, none, some, List, [], ◌∷◌, All, head?, arith,
  three_ways, in_turn, two_ways,
}
use looping_agent.Js.Sort.{sort, sort-All, head?-All}
use looping_agent.Js.Text.{lower, text_slice}
use looping_agent.Js.Number.{Number}
use looping_agent.Types.{LendingProtocol, suilend, navi, scallop, AppConfig, repay, protocol_text}
use looping_agent.Policy.{
  Details, Decision, allowed, evaluate_action_policy, action_kind, resolve_protocol, resolve_text,
  evaluate_health_guard,
}
use looping_agent.Policy.LendingWrite.{WriteAllowed, evaluate_lending_write_iff}
use looping_agent.AgentMemory.Records.{AgentState}
use looping_agent.Subagents.Live.{Call, returns, throws}
use looping_agent.Subagents.Observe.{NormalizedPosition, NormalizedPositions}
use looping_agent.HealthGuard.Repay.{
  RepayRequest, GuardRun, Guarded, RepayReason, RepayResult, repay_details, repay_request, give_up,
  alert, plan_repay, confirm_repay, after_repay, live_repay, is_allowed, smaller_borrow, repay_leg,
  repay_largest, repay_critical,
}
use looping_agent.HealthGuard.Run.{
  Progress, GuardResult, after_critical, guard_read, guard_answer, guard_all, guarded_protocols,
  conclude, run_health_guard,
}

is_allowed_inv : {F : Type 0} (d : Decision F) → is_allowed d ≡ true → d ≡ allowed
is_allowed_inv d h = ground arith

All-Mem : {A : Type 0} (xs zs : List A) → ((x : A) → Mem x xs → Mem x zs) → All (λ x. Mem x zs) xs
All-Mem [] zs within = tt
All-Mem (x ∷ xs) zs within =
    (within x mem-cons_self, All-Mem xs zs (λ y m. within y (mem-cons_of_mem x m)))

-- What is first after sorting was in the list.
first_Mem :
    {A : Type 0} (later : A → A → Bool) (xs : List A) (x : A)
    → head? (sort later xs) ≡ some x
    → Mem x xs
first_Mem later xs x e =
    head?-All (λ y. Mem y xs) (sort later xs) x e
      (sort-All (λ y. Mem y xs) later xs (All-Mem xs xs (λ y m. m)))

-- The details of a repay that was sent, as the policy reads them.
abbrev pub details_of : {F : Type 0} → LendingProtocol × RepayRequest F → Details F
details_of (protocol, request) = record {
  protocol = some (protocol_text protocol);
  asset = some request.asset;
  coin_type = some request.coin_type;
  raw_amount = some request.raw_amount;
  projected_health_factor = none;
}

module _ {F : Type 0} ⦃num : Number F⦄ where
  -- What makes a repay right.
  pub record Justified (run : GuardRun F) (config : AppConfig F)
      (sent : LendingProtocol × RepayRequest F) : Type 0 where
    pub live : config.runtime.dry_run ≡ false
    pub answered : run.get_positions sent.0 ≡ returns sent.1.positions
    pub critical :
        evaluate_health_guard sent.1.positions.borrows sent.1.positions.health_factor config ≡ true
    pub borrowed :
        (leg : NormalizedPosition F) × Mem leg sent.1.positions.borrows
        × (sent.1.coin_type ≡ leg.coin_type)
        × (sent.1.asset ≡ lower leg.symbol)
        × (sent.1.raw_amount ≡ leg.amount)
    pub permitted : WriteAllowed repay sent.0 (details_of sent) config

  -- What the policy is asked about is what is sent.
  repay_is_WriteAllowed :
      (config : AppConfig F) (protocol : LendingProtocol) (positions : NormalizedPositions F)
      (leg : NormalizedPosition F)
      → evaluate_action_policy "LENDING_REPAY" (repay_details protocol leg) config ≡ allowed
      → WriteAllowed repay protocol (details_of (protocol, repay_request positions leg)) config
  unfolding evaluate_action_policy action_kind resolve_protocol resolve_text repay_details
      repay_request protocol_text lower text_slice
  repay_is_WriteAllowed config suilend positions leg h =
      (evaluate_lending_write_iff repay suilend (details_of (suilend, repay_request positions leg))
          config).0
        h
  repay_is_WriteAllowed config navi positions leg h =
      (evaluate_lending_write_iff repay navi (details_of (navi, repay_request positions leg))
          config).0
        h
  repay_is_WriteAllowed config scallop positions leg h =
      (evaluate_lending_write_iff repay scallop (details_of (scallop, repay_request positions leg))
          config).0
        h

module _ {O F : Type 0} where
  give_up-sent :
      (run : GuardRun F) (protocol : LendingProtocol) (positions : NormalizedPositions F)
      (reason : RepayReason F) (guarded : Guarded O F)
      → (give_up run protocol positions reason guarded).1.sent ≡ guarded.sent
  unfolding give_up alert
  give_up-sent run protocol positions reason guarded = refl

  after_repay-sent :
      (run : GuardRun F) (protocol : LendingProtocol) (positions : NormalizedPositions F)
      (leg : NormalizedPosition F) (answer : Call _) (guarded : Guarded O F)
      → (after_repay run protocol positions leg answer guarded).1.sent ≡ guarded.sent
  unfolding after_repay confirm_repay give_up alert
  after_repay-sent run protocol positions leg (throws e) guarded = refl
  after_repay-sent run protocol positions leg (returns digest) guarded = ground arith

module _ {O F : Type 0} ⦃num : Number F⦄ where
  abbrev Sends : GuardRun F → AppConfig F → Guarded O F → Type 0
  Sends run config guarded = All (Justified run config) guarded.sent

  repay_leg-Sends :
      (run : GuardRun F) (config : AppConfig F) (protocol : LendingProtocol)
      (positions : NormalizedPositions F) (leg : NormalizedPosition F) (guarded : Guarded O F)
      → run.get_positions protocol ≡ returns positions
      → evaluate_health_guard positions.borrows positions.health_factor config ≡ true
      → Mem leg positions.borrows
      → Sends run config guarded
      → Sends run config (repay_leg run config protocol positions leg guarded).1
  unfolding repay_leg live_repay plan_repay repay_request
  repay_leg-Sends run config protocol positions leg guarded answered critical member h =
      three_ways (λ (r : Call (RepayResult F) × Guarded O F). Sends run config r.1) _
        config.runtime.dry_run _ _ _ (rw (give_up-sent run protocol positions _ guarded) h)
        (rw (give_up-sent run protocol positions _ _) h)
        (λ permitted live. rw (after_repay-sent run protocol positions leg _ _) (
          record {
            live = live;
            answered = answered;
            critical = critical;
            borrowed = (leg, member, refl, refl, refl);
            permitted =
                repay_is_WriteAllowed config protocol positions leg (is_allowed_inv _ permitted);
          },
          h,
        ))

  repay_largest-Sends :
      (run : GuardRun F) (config : AppConfig F) (protocol : LendingProtocol)
      (positions : NormalizedPositions F) (leg : Option (NormalizedPosition F))
      (guarded : Guarded O F)
      → run.get_positions protocol ≡ returns positions
      → evaluate_health_guard positions.borrows positions.health_factor config ≡ true
      → ((x : NormalizedPosition F) → leg ≡ some x → Mem x positions.borrows)
      → Sends run config guarded
      → Sends run config (repay_largest run config protocol positions leg guarded).1
  unfolding repay_largest
  repay_largest-Sends run config protocol positions none guarded answered critical member h =
      rw (give_up-sent run protocol positions _ guarded) h
  repay_largest-Sends run config protocol positions (some leg) guarded answered critical member h =
      repay_leg-Sends run config protocol positions leg guarded answered critical (member leg refl)
        h

  repay_critical-Sends :
      (run : GuardRun F) (config : AppConfig F) (protocol : LendingProtocol)
      (positions : NormalizedPositions F) (guarded : Guarded O F)
      → run.get_positions protocol ≡ returns positions
      → evaluate_health_guard positions.borrows positions.health_factor config ≡ true
      → Sends run config guarded
      → Sends run config (repay_critical run config protocol positions guarded).1
  unfolding repay_critical
  repay_critical-Sends run config protocol positions guarded answered critical h =
      repay_largest-Sends run config protocol positions _ guarded answered critical
        (first_Mem smaller_borrow positions.borrows) h

  after_critical-Sends :
      (run : GuardRun F) (config : AppConfig F) (protocol : LendingProtocol)
      (progress : Progress O F) (repaid : Call (RepayResult F) × Guarded O F)
      → Sends run config repaid.1
      → Sends run config (after_critical protocol progress repaid).1.guarded
  unfolding after_critical
  after_critical-Sends run config protocol progress (throws e, guarded) h = h
  after_critical-Sends run config protocol progress (returns result, guarded) h = h

  guard_read-Sends :
      (run : GuardRun F) (config : AppConfig F) (protocol : LendingProtocol)
      (positions : NormalizedPositions F) (progress : Progress O F)
      → run.get_positions protocol ≡ returns positions
      → Sends run config progress.guarded
      → Sends run config (guard_read run config protocol positions progress).1.guarded
  unfolding guard_read
  guard_read-Sends run config protocol positions progress answered h =
      in_turn (λ (r : Call (Unit {0}) × Progress O F). Sends run config r.1.guarded) _ _ _ _ _ h
        (λ critical.
          after_critical-Sends run config protocol progress _ (
            repay_critical-Sends run config protocol positions progress.guarded answered critical
              h))
        h

  guard_answer-Sends :
      (run : GuardRun F) (config : AppConfig F) (protocol : LendingProtocol)
      (answer : Call (NormalizedPositions F)) (progress : Progress O F)
      → run.get_positions protocol ≡ answer
      → Sends run config progress.guarded
      → Sends run config (guard_answer run config protocol answer progress).1.guarded
  unfolding guard_answer
  guard_answer-Sends run config protocol (throws e) progress answered h = h
  guard_answer-Sends run config protocol (returns positions) progress answered h =
      guard_read-Sends run config protocol positions progress answered h

  guard_all-Sends :
      (run : GuardRun F) (config : AppConfig F) (rest : List LendingProtocol)
      (reached : Call (Unit {0}) × Progress O F)
      → Sends run config reached.1.guarded
      → Sends run config (guard_all run config rest reached).1.guarded
  unfolding guard_all
  guard_all-Sends run config [] reached h = h
  guard_all-Sends run config (protocol ∷ rest) (throws e, progress) h = h
  guard_all-Sends run config (protocol ∷ rest) (returns u, progress) h =
      guard_all-Sends run config rest _
        (guard_answer-Sends run config protocol (run.get_positions protocol) progress refl h)

  conclude-Sends :
      (run : GuardRun F) (config : AppConfig F) (reached : Call (Unit {0}) × Progress O F)
      → Sends run config reached.1.guarded
      → Sends run config (conclude reached).1
  unfolding conclude
  conclude-Sends run config (throws e, progress) h = h
  conclude-Sends run config (returns u, progress) h =
      two_ways (λ (r : Call (GuardResult F) × Guarded O F). Sends run config r.1)
        progress.any_borrows _ _ h h

  -- Every repay that the health guard sends is sent in live mode, to a protocol whose client
  -- answered with the positions that are sent along and are critical; its coin type, asset (in
  -- lower case) and amount are those of one of their borrows; and the very coin type, asset and
  -- amount that are sent meet every condition of the policy for a repay on that protocol.
  pub run_health_guard-Justified :
      (run : GuardRun F) (config : AppConfig F) (state : AgentState O F)
      → All (Justified run config) (run_health_guard run config state).1.sent
  unfolding run_health_guard
  run_health_guard-Justified run config state =
      two_ways (λ (r : Call (GuardResult F) × Guarded O F). Sends run config r.1)
        (not config.sui.enabled) _ _ tt
        (conclude-Sends run config _ (guard_all-Sends run config (guarded_protocols config) _ tt))
