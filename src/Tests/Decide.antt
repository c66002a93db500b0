-- ===== src/Tests/Decide.antt =====
-- A decision of the enclave over the two sample reserves, whose caps are below the deposit.
use looping_agent.Prelude.{ℕ, String, ◌≡◌, refl, none, List, [], ◌∷◌}
use looping_agent.Js.Int.{pos}
use looping_agent.Js.Sort.{sort, insert_sorted}
use looping_agent.Types.{suilend, navi}
use looping_agent.Subagents.Live.{Call, returns, throws}
use looping_agent.Allocation.Curve.{ReserveCurve, to_units, to_raw}
use looping_agent.Allocation.WaterFill.{water_fill}
use looping_agent.Allocation.Finalize.{
  finalize, repair, raw_amounts, sum, legs_of, leg_of, largest_index, largest_from, amount_at,
  set_amount,
}
use looping_agent.Allocation.Solve.{
  solve_allocation, solve_curves, solve_first, rounds, prune_loop, prune_choice, or_fallback,
  cap_for,
}
use looping_agent.Enclave.Bytes.{Bytes}
use looping_agent.Enclave.Envelopes.{ActionIntent}
use looping_agent.Enclave.Decide.{
  DecideInput, Decided, prepend, sign_all, intents_from, with_legs, allocate, sign_funded, decide,
}
use looping_agent.Enclave.Signing.{WithinAllocation, decide-WithinAllocation}
use looping_agent.Tests.Sample.{hundredths}
use looping_agent.Tests.Allocation.{reserve}

abbrev input : DecideInput ℕ
input = record {
  curves = reserve suilend ∷ reserve navi ∷ [];
  deposit_raw = pos 200;
  treasury_id = "0x1";
  agent_cap_id = "0x2";
  per_tx_cap_raw = 50;
  nonce = 7;
  expires_at_ms = 1000;
  asset_type = 85 ∷ [];
  chain_id = 4 ∷ [];
  timestamp_ms = 900;
}

abbrev hash : List (ReserveCurve ℕ) → Bytes
hash curves = 1 ∷ 2 ∷ []

abbrev sign : ActionIntent → ℕ → Call String
sign intent timestamp = returns "signature"

-- What is decided, or nothing.
abbrev decided_of : Call (Decided ℕ) → Decided ℕ
decided_of (returns decided) = decided
decided_of (throws e) = record {
  legs = [];
  allocation = solve_allocation (record {
    curves = [];
    budget_raw = pos 0;
    per_protocol_cap_raw = none;
    min_position_raw = none;
  });
}

sample_is_decided : decide hash sign input ≡ returns (decided_of (decide hash sign input))
unfolding decide sign_funded with_legs sign_all prepend intents_from allocate solve_allocation
    solve_curves solve_first rounds prune_loop prune_choice or_fallback cap_for water_fill finalize
    repair raw_amounts to_raw to_units sum legs_of leg_of largest_index largest_from amount_at
    set_amount sort insert_sorted
sample_is_decided = refl

decide-WithinAllocation_example : WithinAllocation input (decided_of (decide hash sign input))
decide-WithinAllocation_example =
    decide-WithinAllocation hash sign input (decided_of (decide hash sign input)) sample_is_decided
