-- ===== src/Tests/HealthGuard.antt =====
-- The health guard on a sample: one critical position on NAVI.
use looping_agent.Prelude.{ℕ, false, ◌≡◌, refl, none, some, [], ◌∷◌, All}
use looping_agent.Js.Sort.{sort, insert_sorted}
use looping_agent.Js.Text.{lower, text_slice, big_int}
use looping_agent.Types.{LendingProtocol, suilend, navi, scallop, protocol_text}
use looping_agent.StrategyLedger.Status.{PositionSide}
use looping_agent.Policy.{
  evaluate_action_policy, evaluate_lending_write, check_switches, check_amount, check_live,
  action_kind, resolve_protocol, resolve_text, evaluate_health_guard,
}
use looping_agent.AgentMemory.WellFormed.{WellFormed}
use looping_agent.Subagents.Live.{Call, returns, throws}
use looping_agent.Subagents.Observe.{NormalizedPositions}
use looping_agent.HealthGuard.Repay.{
  GuardRun, repay_details, repay_request, repay_critical, repay_largest, repay_leg, live_repay,
  after_repay, confirm_repay,
}
use looping_agent.HealthGuard.Run.{
  run_health_guard, guarded_protocols, guard_all, guard_answer, guard_read, after_critical,
  conclude, start, no_active_borrows,
}
use looping_agent.HealthGuard.Blind.{blind_guard_clears}
use looping_agent.AgentMemory.Ops.{clear_health_alert, queue_health_alert}
use looping_agent.HealthGuard.Justified.{Justified, run_health_guard-Justified}
use looping_agent.HealthGuard.Memory.{run_health_guard-WellFormed}
use looping_agent.Tests.Sample.{hundredths, live_config}
use looping_agent.Tests.AgentMemory.{empty, empty-WellFormed}

abbrev owing : LendingProtocol → ℕ → NormalizedPositions ℕ
owing protocol health = record {
  protocol = protocol;
  health_factor = health;
  borrow_limit_usd = 100;
  weighted_borrows_usd = 90;
  deposited_amount_usd = 200;
  borrowed_amount_usd = 90;
  obligation_id = none;
  obligation_owner_cap_id = none;
  obligation_key_id = none;
  deposits = [];
  borrows =
      record {
        coin_type = "0x2::sui::SUI";
        symbol = "SUI";
        amount = "1000";
        amount_usd = 90;
        side = PositionSide.borrow;
      }
      ∷ [];
}

abbrev answers : LendingProtocol → Call (NormalizedPositions ℕ)
answers suilend = throws "timeout"
answers navi = returns (owing navi 110)
answers scallop = returns (owing scallop 300)

abbrev guard_run : GuardRun ℕ
guard_run = record {
  run_id = "run";
  recorded = λ _. 1000;
  alerted = λ _. 1001;
  get_positions = answers;
  execute_repay = λ _ _. returns "digest";
  persist = λ _ _. returns tt;
}

navi_is_repaid :
    (run_health_guard guard_run live_config empty).1.sent
    ≡ (
      navi,
      record {
        coin_type = "0x2::sui::SUI";
        asset = "sui";
        raw_amount = "1000";
        positions = owing navi 110;
      },
    )
      ∷ []
unfolding run_health_guard guarded_protocols guard_all guard_answer guard_read after_critical
    conclude repay_critical repay_largest repay_leg live_repay after_repay confirm_repay sort
    insert_sorted evaluate_health_guard evaluate_action_policy evaluate_lending_write check_switches
    check_amount check_live action_kind resolve_protocol resolve_text text_slice lower big_int
    repay_details repay_request protocol_text
navi_is_repaid = refl

run_health_guard-Justified_example :
    All (Justified guard_run live_config) (run_health_guard guard_run live_config empty).1.sent
run_health_guard-Justified_example = run_health_guard-Justified guard_run live_config empty

run_health_guard-WellFormed_example :
    WellFormed (run_health_guard guard_run live_config empty).1.agent
run_health_guard-WellFormed_example =
    run_health_guard-WellFormed guard_run live_config empty empty-WellFormed

-- No client answers, and an alert is pending.
abbrev blind_run : GuardRun ℕ
blind_run = record guard_run { get_positions = λ _. throws "timeout" }

blind_guard_clears_example :
    run_health_guard blind_run live_config (queue_health_alert 900 none none (some 110) none empty)
    ≡ (
      returns (record { executed = false; reason = no_active_borrows }),
      start (clear_health_alert (queue_health_alert 900 none none (some 110) none empty)),
    )
blind_guard_clears_example =
    blind_guard_clears blind_run live_config
      (queue_health_alert 900 none none (some 110) none empty) (λ _. "timeout") refl (λ _. refl)
