-- ===== src/HealthGuard/Repay.antt =====
-- `repayCritical`: the repay of one critical position.
use looping_agent.Prelude.{
  ℕ, String, Bool, true, false, not, ◌&&◌, Option, none, some, List, ◌∷◌, head?, if◌then◌else◌,
}
use looping_agent.Js.Number.{Number}
use looping_agent.Js.Sort.{sort}
use looping_agent.Js.Text.{lower}
use looping_agent.Types.{LendingProtocol, AppConfig, PositionActionKind, protocol_text, protocol_eq}
use looping_agent.Policy.{Details, Decision, allowed, evaluate_action_policy}
use looping_agent.AgentMemory.Records.{
  ActionStatus, AgentState, RecordPositionActionInput, SuggestedAction,
}
use looping_agent.AgentMemory.Ops.{record_position_action, clear_health_alert, queue_health_alert}
use looping_agent.Subagents.Live.{Call, returns, throws}
use looping_agent.Subagents.Observe.{NormalizedPosition, NormalizedPositions}

-- The arguments of `executeRepay`.
pub record RepayRequest (F : Type 0) : Type 0 where
  pub coin_type : String
  pub asset : String
  pub raw_amount : String
  pub positions : NormalizedPositions F

-- The run's id, and for each protocol the times of its record and of its alert, the answers of its
-- client, and the result of a save, durable or not.
pub record GuardRun (F : Type 0) : Type 0 where
  pub run_id : String
  pub recorded : LendingProtocol → ℕ
  pub alerted : LendingProtocol → ℕ
  pub get_positions : LendingProtocol → Call (NormalizedPositions F)
  pub execute_repay : LendingProtocol → RepayRequest F → Call String
  pub persist : LendingProtocol → Bool → Call (Unit {0})

-- The memory, and the repays that were sent, the last one first.
pub record Guarded (O F : Type 0) : Type 0 where
  pub agent : AgentState O F
  pub sent : List (LendingProtocol × RepayRequest F)

pub data RepayReason (F : Type 0) : Type 0 where
  no_repay_target planned_repay : RepayReason F
  denied : Decision F → RepayReason F
  auto_repaid : String → RepayReason F
  repay_failed : String → RepayReason F

pub record RepayResult (F : Type 0) : Type 0 where
  pub executed : Bool
  pub reason : RepayReason F

-- `await persist(...)`, and the result after it.
unfoldable pub after_persist : {A : Type 0} → Call (Unit {0}) → A → Call A
after_persist (throws e) a = throws e
after_persist (returns _) a = returns a

abbrev pub is_allowed : {F : Type 0} → Decision F → Bool
is_allowed allowed = true
is_allowed _ = false

module _ {F : Type 0} where
  unfoldable pub repay_record :
      GuardRun F
      → LendingProtocol
      → NormalizedPositions F
      → NormalizedPosition F
      → ActionStatus
      → Option String
      → Bool
      → RecordPositionActionInput
  repay_record run protocol positions leg status digest dry_run = record {
    run_id = run.run_id;
    protocol = protocol;
    action = PositionActionKind.repay;
    asset = leg.symbol;
    raw_amount = leg.amount;
    obligation_id = positions.obligation_id;
    status = status;
    digest = digest;
    dry_run = dry_run;
  }

  unfoldable pub repay_details : LendingProtocol → NormalizedPosition F → Details F
  repay_details protocol leg = record {
    protocol = some (protocol_text protocol);
    asset = some (lower leg.symbol);
    coin_type = some leg.coin_type;
    raw_amount = some leg.amount;
    projected_health_factor = none;
  }

  unfoldable pub repay_request : NormalizedPositions F → NormalizedPosition F → RepayRequest F
  repay_request positions leg = record {
    coin_type = leg.coin_type;
    asset = lower leg.symbol;
    raw_amount = leg.amount;
    positions = positions;
  }

module _ {O F : Type 0} where
  unfoldable pub alert :
      GuardRun F → LendingProtocol → NormalizedPositions F → Guarded O F → Guarded O F
  alert run protocol positions guarded = record guarded {
    agent =
        queue_health_alert (run.alerted protocol) none positions.obligation_id
          (some positions.health_factor) (some SuggestedAction.repay) guarded.agent;
  }

  -- An alert, a save, and a result that is not executed.
  unfoldable pub give_up :
      GuardRun F
      → LendingProtocol
      → NormalizedPositions F
      → RepayReason F
      → Guarded O F
      → Call (RepayResult F) × Guarded O F
  give_up run protocol positions reason guarded = (
    after_persist (run.persist protocol false) (record { executed = false; reason = reason }),
    alert run protocol positions guarded,
  )

  unfoldable pub plan_repay :
      GuardRun F
      → LendingProtocol
      → NormalizedPositions F
      → NormalizedPosition F
      → Guarded O F
      → Guarded O F
  plan_repay run protocol positions leg guarded = record guarded {
    agent =
        record_position_action (run.recorded protocol) true
          (repay_record run protocol positions leg ActionStatus.planned none true) guarded.agent;
  }

  -- What a confirmed repay leaves.
  unfoldable pub confirm_repay :
      GuardRun F
      → LendingProtocol
      → NormalizedPositions F
      → NormalizedPosition F
      → String
      → Guarded O F
      → Guarded O F
  confirm_repay run protocol positions leg digest guarded = record guarded {
    agent = clear_health_alert (
        record_position_action (run.recorded protocol) true
          (repay_record run protocol positions leg ActionStatus.confirmed (some digest) false)
          guarded.agent);
  }

  -- The `try` after the call of the client, with its `catch`.
  unfoldable pub after_repay :
      GuardRun F
      → LendingProtocol
      → NormalizedPositions F
      → NormalizedPosition F
      → Call String
      → Guarded O F
      → Call (RepayResult F) × Guarded O F
  after_repay run protocol positions leg (throws e) guarded =
      give_up run protocol positions (repay_failed e) guarded
  after_repay run protocol positions leg (returns digest) guarded =
      let confirmed = confirm_repay run protocol positions leg digest guarded in
      elim (run.persist protocol true) [
        | returns _ ↦ (returns (record { executed = true; reason = auto_repaid digest }), confirmed)
        | throws e ↦ give_up run protocol positions (repay_failed e) confirmed
      ]

  unfoldable pub live_repay :
      GuardRun F
      → LendingProtocol
      → NormalizedPositions F
      → NormalizedPosition F
      → Guarded O F
      → Call (RepayResult F) × Guarded O F
  live_repay run protocol positions leg guarded =
      let request = repay_request positions leg in
      after_repay run protocol positions leg (run.execute_repay protocol request)
        (record guarded { sent = (protocol, request) ∷ guarded.sent })

module _ {F : Type 0} ⦃num : Number F⦄ where
  abbrev pub smaller_borrow : NormalizedPosition F → NormalizedPosition F → Bool
  smaller_borrow a b = num.lt (num.of_ℕ 0) (num.sub b.amount_usd a.amount_usd)

module _ {O F : Type 0} ⦃num : Number F⦄ where
  unfoldable pub repay_leg :
      GuardRun F
      → AppConfig F
      → LendingProtocol
      → NormalizedPositions F
      → NormalizedPosition F
      → Guarded O F
      → Call (RepayResult F) × Guarded O F
  repay_leg run config protocol positions leg guarded =
      let decision = evaluate_action_policy "LENDING_REPAY" (repay_details protocol leg) config in
      if not (is_allowed decision) && not config.runtime.dry_run
      then give_up run protocol positions (denied decision) guarded
      else if config.runtime.dry_run
      then give_up run protocol positions planned_repay
          (plan_repay run protocol positions leg guarded)
      else live_repay run protocol positions leg guarded

  unfoldable pub repay_largest :
      GuardRun F
      → AppConfig F
      → LendingProtocol
      → NormalizedPositions F
      → Option (NormalizedPosition F)
      → Guarded O F
      → Call (RepayResult F) × Guarded O F
  repay_largest run config protocol positions none guarded =
      give_up run protocol positions no_repay_target guarded
  repay_largest run config protocol positions (some leg) guarded =
      repay_leg run config protocol positions leg guarded

  unfoldable pub repay_critical :
      GuardRun F
      → AppConfig F
      → LendingProtocol
      → NormalizedPositions F
      → Guarded O F
      → Call (RepayResult F) × Guarded O F
  repay_critical run config protocol positions guarded =
      repay_largest run config protocol positions (head? (sort smaller_borrow positions.borrows))
        guarded
