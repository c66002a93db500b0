-- ===== src/Tests/Observe.antt =====
-- Two orders of answers.
use mathlib.Core.List.{Permᴰ}
use looping_agent.Prelude.{ℕ, String, ◌≡◌, refl, Bool, true, false, none, List, [], ◌∷◌}
use looping_agent.Types.{LendingProtocol, suilend, navi, scallop}
use looping_agent.StrategyLedger.Status.{PositionSide}
use looping_agent.Subagents.Live.{Call, returns, throws}
use looping_agent.Subagents.Observe.{
  LendingMarket, NormalizedPositions, ReadClients, run_rate_scout,
}
use looping_agent.Subagents.Observe.Arrival.{run_rate_scout-Perm}
use looping_agent.Tests.Sample.{hundredths, live_config, empty_ledger}

abbrev market : String → LendingMarket ℕ
market symbol = record {
  coin_type = symbol;
  symbol = symbol;
  supply_apr = 3;
  borrow_apr = 5;
  price = 1;
}

abbrev holding : LendingProtocol → NormalizedPositions ℕ
holding protocol = record {
  protocol = protocol;
  health_factor = 300;
  borrow_limit_usd = 100;
  weighted_borrows_usd = 0;
  deposited_amount_usd = 200;
  borrowed_amount_usd = 0;
  obligation_id = none;
  obligation_owner_cap_id = none;
  obligation_key_id = none;
  deposits =
      record {
        coin_type = "0x2::usdc";
        symbol = "usdc";
        amount = "200";
        amount_usd = 2;
        side = PositionSide.deposit;
      }
      ∷ [];
  borrows = [];
}

-- The client of Scallop fails.
abbrev markets_of : LendingProtocol → Call (List (LendingMarket ℕ))
markets_of scallop = throws "timeout"
markets_of _ = returns (market "sui" ∷ market "Usdc" ∷ market "DEEP" ∷ [])

abbrev clients : ReadClients ℕ
clients = record {
  enabled = λ _. true;
  get_markets = markets_of;
  get_positions = λ protocol. returns (holding protocol);
}

abbrev one_order : List LendingProtocol
one_order = suilend ∷ navi ∷ scallop ∷ []

abbrev other_order : List LendingProtocol
other_order = navi ∷ suilend ∷ scallop ∷ []

abbrev unordered : String → String → Bool
unordered a b = false

run_rate_scout-Perm_example :
    run_rate_scout unordered live_config clients one_order "run" 1000 1001 empty_ledger
    ≡ run_rate_scout unordered live_config clients other_order "run" 1000 1001 empty_ledger
run_rate_scout-Perm_example =
    run_rate_scout-Perm unordered live_config clients one_order other_order "run" 1000 1001
      empty_ledger (Permᴰ.swap refl refl)
