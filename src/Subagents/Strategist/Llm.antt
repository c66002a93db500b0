-- ===== src/Subagents/Strategist/Llm.antt =====
-- The LLM's part: `parseLlmLoopDecision` from the parsed JSON on, and `buildLlmLoopProposal`, of
-- agent/src/core/subagents.ts. The call of the model and the parsing of its JSON are given.
use looping_agent.Prelude.{
  ℕ, String, Bool, ◌&&◌, ◌||◌, not, Option, none, some, [], ◌∷◌, ◌==◌, string_eq, if◌then◌else◌,
  find,
}
use looping_agent.Js.Number.{Number}
use looping_agent.Js.Text.{template}
use looping_agent.Types.{
  LendingProtocol, suilend, navi, scallop, AppConfig, protocol_eq, protocol_text,
}
use looping_agent.StrategyLedger.Status.{open_loop}
use looping_agent.StrategyLedger.{MarketRate, LoopStrategyProposal, or_else}
use looping_agent.Subagents.Live.{Call, returns, throws}
use looping_agent.Subagents.Strategist.Sizing.{
  is_nonpositive, max_fresh_collateral_usd, capped_sui_borrow_raw, sui_raw_to_usd, raw_collateral,
  price_or_one,
}
use looping_agent.Subagents.Strategist.Build.{
  BuildInput, LoopTerms, proposal_of, fresh_health, net_apr_bps, position_on, on_protocol,
  has_asset, withdraw_step,
}

-- The parsed object: texts where the entries are texts, and `Number(entry)` for the amounts.
pub record LlmReply (F : Type 0) : Type 0 where
  pub open_loop_is_true : Bool
  pub collateral_protocol : Option String
  pub supply_target_protocol : Option String
  pub collateral_usd : F
  pub borrow_usd : F
  pub rationale : Option String

pub data LlmDecision (F : Type 0) : Type 0 where
  declines : Option String → LlmDecision F
  opens : LendingProtocol → LendingProtocol → F → F → Option String → LlmDecision F

-- `toLendingProtocol`
unfoldable pub to_lending_protocol : Option String → Option LendingProtocol
to_lending_protocol none = none
to_lending_protocol (some s) =
    if s == "suilend"
    then some suilend
    else if s == "navi"
    then some navi
    else if s == "scallop"
    then some scallop
    else none

-- `if (!a) throw`, and what follows.
unfoldable pub or_throw : {A B : Type 0} → Option A → String → (A → Call B) → Call B
or_throw none e k = throws e
or_throw (some a) e k = k a

-- The proposal for an amount that may throw.
unfoldable pub with_raw :
    {F : Type 0} → Call ℕ → (ℕ → LoopStrategyProposal F) → Call (LoopStrategyProposal F)
with_raw (throws e) k = throws e
with_raw (returns raw) k = returns (k raw)

abbrev missing_protocols : String
missing_protocols = "LLM decision is missing valid collateral/supply-target protocols"

abbrev no_market : LendingProtocol → String → String
no_market protocol what =
    template ("LLM chose " ∷ protocol_text protocol ∷ " but it has no " ∷ what ∷ [])

module _ {F : Type 0} ⦃num : Number F⦄ where
  abbrev pub is_bad_amount : F → Bool
  is_bad_amount x = not (num.is_finite x) || is_nonpositive x

  unfoldable pub check_amounts :
      LlmReply F → LendingProtocol → LendingProtocol → Call (LlmDecision F)
  check_amounts reply collateral target =
      if is_bad_amount reply.collateral_usd
      then throws "LLM decision has an invalid collateralUsd"
      else if is_bad_amount reply.borrow_usd
      then throws "LLM decision has an invalid borrowUsd"
      else returns (opens collateral target reply.collateral_usd reply.borrow_usd reply.rationale)

  unfoldable pub parse_llm_loop_decision : LlmReply F → Call (LlmDecision F)
  parse_llm_loop_decision reply =
      if not reply.open_loop_is_true
      then returns (declines reply.rationale)
      else or_throw (to_lending_protocol reply.collateral_protocol) missing_protocols λ collateral.
        or_throw (to_lending_protocol reply.supply_target_protocol) missing_protocols
          λ target. check_amounts reply collateral target

  unfoldable pub llm_terms :
      BuildInput F
      → LendingProtocol
      → LendingProtocol
      → MarketRate F
      → MarketRate F
      → F
      → Option String
      → ℕ
      → LoopTerms F
  llm_terms input collateral target borrow_market target_market collateral_usd rationale raw =
      let borrow_usd = sui_raw_to_usd raw (price_or_one borrow_market.price_usd) in
      record {
        kind = open_loop;
        protocol = collateral;
        target = target;
        raw_collateral = raw_collateral collateral_usd;
        raw_borrow = raw;
        collateral_usd = collateral_usd;
        borrow_usd = borrow_usd;
        health = fresh_health (position_on collateral input.positions) collateral_usd borrow_usd;
        apr = net_apr_bps target_market borrow_market;
        source = none;
        last_step = withdraw_step collateral;
        rationale = or_else rationale (
            template (
              "LLM loop: "
              ∷ protocol_text collateral
              ∷ " USDC collateral, borrow SUI, supply SUI to "
              ∷ protocol_text target
              ∷ "."
              ∷ []));
      }

  unfoldable pub build_llm_loop_proposal :
      BuildInput F
      → AppConfig F
      → LendingProtocol
      → LendingProtocol
      → F
      → F
      → Option String
      → Call (LoopStrategyProposal F)
  build_llm_loop_proposal input config collateral target wanted_collateral wanted_borrow rationale =
      or_throw
        (find (λ rate. on_protocol collateral rate && has_asset "USDC" rate) input.market.rates)
        (no_market collateral "USDC market")
        λ collateral_market.
          or_throw
            (find (λ rate. on_protocol collateral rate && has_asset "SUI" rate) input.market.rates)
            (no_market collateral "SUI borrow market")
            λ borrow_market.
              or_throw
                (find (λ rate. on_protocol target rate && has_asset "SUI" rate) input.market.rates)
                (no_market target "SUI supply market")
                λ target_market.
                  with_raw
                    (capped_sui_borrow_raw wanted_borrow (price_or_one borrow_market.price_usd)
                      config)
                    λ raw. proposal_of input config (
                      llm_terms input collateral target borrow_market target_market
                        (num.min wanted_collateral (max_fresh_collateral_usd config input.usdc_raw))
                        rationale raw)
