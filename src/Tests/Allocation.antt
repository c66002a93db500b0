-- ===== src/Tests/Allocation.antt =====
-- Splits of a budget over two sample reserves.
use looping_agent.Prelude.{ℕ, ◌+◌, ◌≤◌, ◌≡◌, refl, none, some, [], ◌∷◌, arith}
use looping_agent.Js.Int.{pos}
use looping_agent.Types.{LendingProtocol, suilend, navi}
use looping_agent.Allocation.Curve.{ReserveCurve, to_raw}
use looping_agent.Allocation.WaterFill.{WaterFillResult}
use looping_agent.Allocation.Finalize.{
  AllocationResult, finalize, sum, raw_amounts, repair, largest_index, largest_from, amount_at,
  set_amount,
}
use looping_agent.Allocation.Solve.{SolveAllocationInput, settled, rounds, solve_allocation}
use looping_agent.Allocation.Balance.{Split, finalize-bounds_iff, x_raws}
use looping_agent.Allocation.Pruning.{rounds_settle}
use looping_agent.Allocation.Solved.{solve_allocation-Split}
use looping_agent.Tests.Sample.{hundredths}

abbrev pub reserve : LendingProtocol → ReserveCurve ℕ
reserve protocol = record {
  protocol = protocol;
  asset = "USDC";
  coin_type = "0x2::usdc";
  borrow_apr_points = record { util = 0; apr = 0 } ∷ record { util = 1; apr = 8 } ∷ [];
  reserve_factor_pct = 20;
  borrowed_raw = 500;
  available_liquidity_raw = 500;
  deposit_cap_raw = some 60;
  decimals = 0;
  price = 1;
  reward_supply_apr = 1;
}

abbrev input : SolveAllocationInput ℕ
input = record {
  curves = reserve suilend ∷ reserve navi ∷ [];
  budget_raw = pos 100;
  per_protocol_cap_raw = none;
  min_position_raw = some 5;
}

solve_allocation-Split_example : Split (solve_allocation input)
solve_allocation-Split_example = solve_allocation-Split input

rounds_settle_example :
    (result : AllocationResult ℕ) × (rounds input (reserve suilend) 100 100 ≡ settled result)
rounds_settle_example = rounds_settle input (reserve suilend) 100 100

-- Two amounts, one above the budget of 100.
abbrev overfilled : WaterFillResult ℕ
overfilled = record { x_units = 60 ∷ 50 ∷ []; marginal = 3; iterations = 80 }

overfilled_amounts : raw_amounts overfilled 0 ≡ 60 ∷ 50 ∷ []
unfolding raw_amounts to_raw
overfilled_amounts = refl

overfilled_is_cut : (repair 100 2 (60 ∷ 50 ∷ [])).amounts ≡ 50 ∷ 50 ∷ []
unfolding repair sum largest_index largest_from amount_at set_amount
overfilled_is_cut = refl

overshoot_is_small : sum (raw_amounts overfilled 0) ≤ 100 + amount_at 0 (raw_amounts overfilled 0)
unfolding raw_amounts to_raw sum amount_at
overshoot_is_small = omega arith

finalize-bounds_iff_example :
    sum (x_raws (finalize (reserve suilend ∷ reserve navi ∷ []) overfilled 0 100 80).allocations)
    ≤ 100
finalize-bounds_iff_example =
    (finalize-bounds_iff (reserve suilend ∷ reserve navi ∷ []) overfilled 0 100 80 refl).1
      (0, overshoot_is_small)

-- Three amounts of the whole budget: one is cut to nothing, and twice the budget is allocated.
twice_the_budget : (repair 100 3 (100 ∷ 100 ∷ 100 ∷ [])).allocated ≡ 200
unfolding repair sum largest_index largest_from amount_at set_amount
twice_the_budget = refl
