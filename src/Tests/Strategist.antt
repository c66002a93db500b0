-- ===== src/Tests/Strategist.antt =====
-- The strategist's choices on sample markets.
use looping_agent.Prelude.{ℕ, String, ◌≡◌, refl, true, false, none, some, [], ◌∷◌, arith}
use looping_agent.Js.Int.{pos, ◌≤ℤ◌}
use looping_agent.Js.Sort.{sort, insert_sorted}
use looping_agent.Js.Text.{upper, decimal}
use looping_agent.Types.{LendingProtocol, suilend, navi}
use looping_agent.StrategyLedger.{
  MarketRate, MarketSnapshot, LoopStrategyProposal, StrategyLedger, create_empty_strategy_ledger,
  proposal_satisfies,
}
use looping_agent.Subagents.Live.{Call, returns}
use looping_agent.Subagents.Validate.{validate_loop_proposal, allow}
use looping_agent.Subagents.Strategist.Sizing.{
  capped_sui_borrow_raw, capped_sui_borrow_raw-bounds, requested_raw, at_most,
  max_fresh_collateral_usd, raw_to_units, price_or_one,
}
use looping_agent.Subagents.Strategist.Build.{
  BuildInput, Built, proposal_of, or_null, with_amount, or_fresh, best_target, build_fresh,
  build_existing, build_loop_proposal, usdc_deposits,
}
use looping_agent.Subagents.Strategist.Llm.{
  LlmReply, or_throw, with_raw, to_lending_protocol, check_amounts, parse_llm_loop_decision,
  build_llm_loop_proposal, llm_terms,
}
use looping_agent.Subagents.Strategist.Run.{
  StrategistRun, Strategy, proposed, input_of, follow, after_open, ask_llm, choose_strategy,
}
use looping_agent.Subagents.Strategist.Shape.{WellShaped, build_loop_proposal-WellShaped}
use looping_agent.Subagents.Strategist.Bounded.{Bounded, chosen, choose_strategy-Bounded}
use looping_agent.Subagents.Strategist.Fallback.{ByLlmOr, LlmOpened, choose_strategy-without_llm}
use looping_agent.Subagents.Strategist.ZeroBorrow.{zero_borrow_is_allowed}
use looping_agent.Tests.Sample.{
  hundredths, live_config, market, positions, proposal, empty_ledger, proposed as proposed_ledger,
}
use looping_agent.Tests.Subagents.{proposal_is_allowed}

abbrev rate : LendingProtocol → String → ℕ → ℕ → MarketRate ℕ
rate protocol asset supply_apr borrow_apr = record {
  protocol = protocol;
  asset = asset;
  coin_type = asset;
  supply_apr = supply_apr;
  borrow_apr = borrow_apr;
  price_usd = 1;
  liquidity_usd = none;
}

abbrev three_rates : MarketSnapshot ℕ
three_rates = record market {
  rates = rate suilend "USDC" 3 5 ∷ rate suilend "sui" 1 2 ∷ rate navi "SUI" 4 6 ∷ [];
}

abbrev input : BuildInput ℕ
input = record {
  run_id = "run";
  count = 1;
  now = 2000;
  usdc_raw = some 9000000;
  market = three_rates;
  positions = positions 300;
}

-- The proposal that was built, or the sample.
abbrev result_of : Built ℕ → LoopStrategyProposal ℕ
result_of (returns (some p)) = p
result_of _ = proposal

fresh_loop_is_built :
    build_loop_proposal input live_config
    ≡ returns (some (result_of (build_loop_proposal input live_config)))
unfolding build_loop_proposal build_fresh build_existing or_null or_fresh with_amount best_target
    usdc_deposits sort insert_sorted upper capped_sui_borrow_raw requested_raw at_most
    max_fresh_collateral_usd raw_to_units price_or_one
fresh_loop_is_built = refl

build_loop_proposal-WellShaped_example :
    WellShaped (result_of (build_loop_proposal input live_config)) live_config 2000
build_loop_proposal-WellShaped_example =
    build_loop_proposal-WellShaped input live_config
      (result_of (build_loop_proposal input live_config)) fresh_loop_is_built

half_of_maximum : capped_sui_borrow_raw 5000 1 live_config ≡ returns 5000000
unfolding capped_sui_borrow_raw requested_raw at_most
half_of_maximum = refl

capped_sui_borrow_raw-bounds_example : pos 5000000 ≤ℤ live_config.sui.max_borrow_raw
capped_sui_borrow_raw-bounds_example =
    capped_sui_borrow_raw-bounds 5000 1 live_config 5000000 half_of_maximum (omega arith)

abbrev reply : LlmReply ℕ
reply = record {
  open_loop_is_true = true;
  collateral_protocol = some "suilend";
  supply_target_protocol = some "navi";
  collateral_usd = 9;
  borrow_usd = 0;
  rationale = none;
}

abbrev greedy : LlmReply ℕ
greedy = record reply { borrow_usd = 999999 }

abbrev run_with : Call (LlmReply ℕ) → StrategistRun ℕ
run_with reply = record {
  run_id = "run";
  now = 2000;
  usdc_raw = some 9000000;
  llm_enabled = true;
  reply = reply;
}

abbrev observed : StrategyLedger ℕ
observed = record empty_ledger {
  market_snapshots = three_rates ∷ [];
  position_snapshots = positions 300 ∷ [];
}

abbrev proposal_in : Strategy ℕ → LoopStrategyProposal ℕ
proposal_in (proposed who p) = p
proposal_in _ = proposal

abbrev greedy_choice : Strategy ℕ
greedy_choice = choose_strategy live_config (run_with (returns greedy)) observed

greedy_is_capped : (proposal_in greedy_choice).raw_borrow_amount ≡ "5000000"
unfolding choose_strategy input_of ask_llm follow parse_llm_loop_decision to_lending_protocol
    check_amounts build_llm_loop_proposal after_open or_throw with_raw upper capped_sui_borrow_raw
    requested_raw at_most max_fresh_collateral_usd raw_to_units price_or_one
    create_empty_strategy_ledger proposal_of llm_terms decimal
greedy_is_capped = refl

greedy_is_chosen : chosen greedy_choice ≡ some (proposal_in greedy_choice)
unfolding choose_strategy input_of ask_llm follow parse_llm_loop_decision to_lending_protocol
    check_amounts build_llm_loop_proposal after_open or_throw with_raw upper capped_sui_borrow_raw
    requested_raw at_most max_fresh_collateral_usd raw_to_units price_or_one
    create_empty_strategy_ledger
greedy_is_chosen = refl

choose_strategy-Bounded_example : Bounded (proposal_in greedy_choice) live_config
choose_strategy-Bounded_example =
    choose_strategy-Bounded live_config (run_with (returns greedy)) observed
      (proposal_in greedy_choice) greedy_is_chosen

abbrev unasked_run : StrategistRun ℕ
unasked_run = record (run_with (returns greedy)) { llm_enabled = false }

choose_strategy-without_llm_example :
    ByLlmOr
      (LlmOpened live_config (run_with (returns greedy)) observed)
      (chosen (choose_strategy live_config unasked_run observed))
      (choose_strategy live_config (run_with (returns greedy)) observed)
choose_strategy-without_llm_example =
    choose_strategy-without_llm live_config (run_with (returns greedy)) observed

zero_borrow_is_allowed_example :
    validate_loop_proposal
      (record proposal { raw_borrow_amount = decimal 0 })
      proposed_ledger
      live_config
      2000
    ≡ allow proposal_satisfies
zero_borrow_is_allowed_example =
    zero_borrow_is_allowed proposal proposed_ledger live_config 2000 (omega arith)
      proposal_is_allowed
