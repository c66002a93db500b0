-- ===== src/Subagents/Strategist/Build.antt =====
-- `buildLoopProposal` and `buildExistingCollateralProposal` of agent/src/core/subagents.ts. `none` is
-- the source's null; `Math.floor` of an amount that is not finite makes `BigInt` throw.
use looping_agent.Prelude.{
  ℕ, ◌+◌, String, Bool, ◌&&◌, ◌||◌, not, Option, none, some, List, [], ◌∷◌, ◌++◌, map, ◌==◌,
  string_eq, if◌then◌else◌, find, filter, head?, ltb,
}
use looping_agent.Js.Number.{Number}
use looping_agent.Js.Sort.{sort}
use looping_agent.Js.Text.{template, decimal, upper}
use looping_agent.Types.{LendingProtocol, SubagentRole, role, AppConfig, protocol_eq, protocol_text}
use looping_agent.StrategyLedger.Status.{
  ProposalStatus, StrategyProposalType, open_loop, borrow_against_existing_collateral,
}
use looping_agent.StrategyLedger.{
  MarketRate, MarketSnapshot, PositionLeg, ProtocolPositionSnapshot, PositionSnapshot,
  LoopStrategyProposal,
}
use looping_agent.Subagents.Live.{Call, returns, throws}
use looping_agent.Subagents.Strategist.Sizing.{
  is_positive, is_nonpositive, effective_borrow_limit_usd, planned_borrow_usd,
  max_fresh_collateral_usd, capped_sui_borrow_raw, sui_raw_to_usd, raw_collateral, price_or_one,
}

-- What a builder is given. The wallet's USDC is a raw amount, `none` where the balances could not
-- be read.
pub record BuildInput (F : Type 0) : Type 0 where
  pub run_id : String
  pub count : ℕ
  pub now : ℕ
  pub usdc_raw : Option ℕ
  pub market : MarketSnapshot F
  pub positions : PositionSnapshot F

-- What a builder decides.
pub record LoopTerms (F : Type 0) : Type 0 where
  pub kind : StrategyProposalType
  pub protocol : LendingProtocol
  pub target : LendingProtocol
  pub raw_collateral : String
  pub raw_borrow : ℕ
  pub collateral_usd : F
  pub borrow_usd : F
  pub health : F
  pub apr : F
  pub source : Option String
  pub last_step : String
  pub rationale : String

abbrev pub Built : Type 0 → Type 0
Built F = Call (Option (LoopStrategyProposal F))

-- `if (!a) return null`, and what follows.
unfoldable pub or_null : {A F : Type 0} → Option A → (A → Built F) → Built F
or_null none k = returns none
or_null (some a) k = k a

-- What follows an amount that may throw, unless it is 0n.
unfoldable pub with_amount : {F : Type 0} → Call ℕ → (ℕ → Built F) → Built F
with_amount (throws e) k = throws e
with_amount (returns raw) k = if ltb 0 raw then k raw else returns none

-- `if (existing) return existing`
unfoldable pub or_fresh : {F : Type 0} → Built F → Built F → Built F
or_fresh (throws e) fresh = throws e
or_fresh (returns (some p)) fresh = returns (some p)
or_fresh (returns none) fresh = fresh

abbrev pub withdraw_step : LendingProtocol → String
withdraw_step protocol = template ("withdraw USDC from " ∷ protocol_text protocol ∷ [])

module _ {F : Type 0} where
  abbrev pub has_asset : String → MarketRate F → Bool
  has_asset asset rate = upper rate.asset == asset

  abbrev pub on_protocol : LendingProtocol → MarketRate F → Bool
  on_protocol protocol rate = rate.protocol == protocol

  abbrev pub off_protocol : LendingProtocol → MarketRate F → Bool
  off_protocol protocol rate = not (rate.protocol == protocol)

  abbrev pub position_on :
      LendingProtocol → PositionSnapshot F → Option (ProtocolPositionSnapshot F)
  position_on protocol positions = find (λ e. e.protocol == protocol) positions.protocols

  -- The proposal of a strategist, and its entries that every builder computes in the same way.
  unfoldable pub proposal_of : BuildInput F → AppConfig F → LoopTerms F → LoopStrategyProposal F
  proposal_of input config terms = record {
    id = template ("proposal-" ∷ input.run_id ∷ "-" ∷ decimal input.count ∷ []);
    run_id = input.run_id;
    proposer_role = SubagentRole.loop_strategist;
    proposal_type = terms.kind;
    created_by = some (role SubagentRole.loop_strategist);
    created_at = some input.now;
    expires_at = some (input.now + config.loop_strategy.proposal_ttl_ms);
    status = ProposalStatus.open_;
    collateral_asset = "USDC";
    borrow_asset = "SUI";
    collateral_protocol = terms.protocol;
    borrow_protocol = terms.protocol;
    supply_target_protocol = terms.target;
    raw_collateral_amount = terms.raw_collateral;
    raw_borrow_amount = decimal terms.raw_borrow;
    collateral_usd = terms.collateral_usd;
    borrow_usd = terms.borrow_usd;
    projected_health_factor = terms.health;
    projected_net_apr_bps = terms.apr;
    unwind_path =
        template ("withdraw SUI from " ∷ protocol_text terms.target ∷ [])
        ∷ template ("repay SUI on " ∷ protocol_text terms.protocol ∷ [])
        ∷ terms.last_step
        ∷ [];
    market_snapshot_id = input.market.id;
    position_snapshot_id = input.positions.id;
    source_position_id = terms.source;
    target_supply_asset = some "SUI";
    net_apr_bps = some terms.apr;
    rationale = some terms.rationale;
    rejection_reason = none;
  }

module _ {F : Type 0} ⦃num : Number F⦄ where
  -- Descending by `supplyApr`.
  abbrev pub lower_apr : MarketRate F → MarketRate F → Bool
  lower_apr a b = is_positive (num.sub b.supply_apr a.supply_apr)

  abbrev pub lower_amount :
      ProtocolPositionSnapshot F × PositionLeg F → ProtocolPositionSnapshot F × PositionLeg F → Bool
  lower_amount a b = is_positive (num.sub b.1.amount_usd a.1.amount_usd)

  -- The best market to supply the borrowed SUI, on another protocol.
  unfoldable pub best_target : LendingProtocol → List (MarketRate F) → Option (MarketRate F)
  best_target protocol rates = head? (sort lower_apr (filter (off_protocol protocol) rates))

  unfoldable pub net_apr_bps : MarketRate F → MarketRate F → F
  net_apr_bps target borrow_market =
      num.round (num.mul (num.sub target.supply_apr borrow_market.borrow_apr) (num.of_ℕ 100))

  -- `weighted > 0 ? limit / weighted : Infinity`
  unfoldable pub health_of : F → F → F
  health_of limit weighted = if is_positive weighted then num.div limit weighted else num.infinity

  -- `projectedHealthFactor` of a fresh loop, where the position may be missing.
  unfoldable pub fresh_health : Option (ProtocolPositionSnapshot F) → F → F → F
  fresh_health none collateral_usd borrow_usd =
      health_of (num.add (num.of_ℕ 0) (num.mul collateral_usd (num.div (num.of_ℕ 7) (num.of_ℕ 10))))
        (num.add (num.of_ℕ 0) borrow_usd)
  fresh_health (some current) collateral_usd borrow_usd =
      health_of
        (num.add current.borrow_limit_usd
          (num.mul collateral_usd (num.div (num.of_ℕ 7) (num.of_ℕ 10))))
        (num.add current.weighted_borrows_usd borrow_usd)

  unfoldable pub fresh_terms :
      BuildInput F → LendingProtocol → MarketRate F → MarketRate F → F → ℕ → LoopTerms F
  fresh_terms input protocol borrow_market target collateral_usd raw =
      let borrow_usd = sui_raw_to_usd raw (price_or_one borrow_market.price_usd) in
      record {
        kind = open_loop;
        protocol = protocol;
        target = target.protocol;
        raw_collateral = raw_collateral collateral_usd;
        raw_borrow = raw;
        collateral_usd = collateral_usd;
        borrow_usd = borrow_usd;
        health = fresh_health (position_on protocol input.positions) collateral_usd borrow_usd;
        apr = net_apr_bps target borrow_market;
        source = none;
        last_step = withdraw_step protocol;
        rationale = template (
            "Open a fresh USDC collateral loop, borrow SUI, and supply SUI to "
            ∷ protocol_text target.protocol
            ∷ "."
            ∷ []);
      }

  -- A fresh loop, from the markets of its assets on.
  unfoldable pub build_fresh : BuildInput F → AppConfig F → Built F
  build_fresh input config =
      let sui_rates = filter (has_asset "SUI") input.market.rates in
      let collateral_usd = max_fresh_collateral_usd config input.usdc_raw in
      or_null (head? (filter (has_asset "USDC") input.market.rates)) λ collateral_market.
        or_null (find (on_protocol collateral_market.protocol) sui_rates) λ borrow_market.
          or_null (best_target collateral_market.protocol sui_rates) λ target.
            if is_nonpositive collateral_usd
            then returns none
            else with_amount
                (capped_sui_borrow_raw config.loop_strategy.max_borrow_usd
                  (price_or_one borrow_market.price_usd) config)
                λ raw. returns (
                  some (
                    proposal_of input config (
                      fresh_terms input collateral_market.protocol borrow_market target
                        collateral_usd raw)))

  -- The USDC deposits, each with its protocol.
  unfoldable pub usdc_deposits :
      List (ProtocolPositionSnapshot F) → List (ProtocolPositionSnapshot F × PositionLeg F)
  usdc_deposits [] = []
  usdc_deposits (protocol ∷ protocols) =
      map (λ deposit. (protocol, deposit))
        (filter (λ (d : PositionLeg F). upper d.asset == "USDC" && is_positive d.amount_usd)
          protocol.deposits)
      ++ usdc_deposits protocols

  unfoldable pub existing_terms :
      ProtocolPositionSnapshot F → PositionLeg F → MarketRate F → MarketRate F → ℕ → LoopTerms F
  existing_terms position deposit borrow_market target raw =
      let borrow_usd = sui_raw_to_usd raw (price_or_one borrow_market.price_usd) in
      record {
        kind = borrow_against_existing_collateral;
        protocol = position.protocol;
        target = target.protocol;
        raw_collateral = deposit.raw_amount;
        raw_borrow = raw;
        collateral_usd = deposit.amount_usd;
        borrow_usd = borrow_usd;
        health =
            health_of (effective_borrow_limit_usd position)
              (num.add position.weighted_borrows_usd borrow_usd);
        apr = net_apr_bps target borrow_market;
        source = some (
            template (
              protocol_text position.protocol
              ∷ ":"
              ∷ deposit.coin_type
              ∷ ":"
              ∷ deposit.raw_amount
              ∷ []));
        last_step =
            template ("leave existing USDC collateral on " ∷ protocol_text position.protocol ∷ []);
        rationale = template (
            "Use existing "
            ∷ num.to_fixed 2 deposit.amount_usd
            ∷ " USDC collateral on "
            ∷ protocol_text position.protocol
            ∷ ", borrow SUI, and supply SUI to "
            ∷ protocol_text target.protocol
            ∷ "."
            ∷ []);
      }

  unfoldable pub build_existing : BuildInput F → AppConfig F → Built F
  build_existing input config =
      or_null (head? (sort lower_amount (usdc_deposits input.positions.protocols))) λ collateral.
        or_null
          (find (λ rate. on_protocol collateral.0.protocol rate && has_asset "SUI" rate)
            input.market.rates)
          λ borrow_market.
            or_null
              (best_target collateral.0.protocol (filter (has_asset "SUI") input.market.rates))
              λ target.
                with_amount
                  (capped_sui_borrow_raw (planned_borrow_usd collateral.0 config)
                    (price_or_one borrow_market.price_usd) config)
                  λ raw. returns (
                    some (
                      proposal_of input config
                        (existing_terms collateral.0 collateral.1 borrow_market target raw)))

  unfoldable pub build_loop_proposal : BuildInput F → AppConfig F → Built F
  build_loop_proposal input config =
      if not (upper config.loop_strategy.collateral_asset == "USDC")
        || not (upper config.loop_strategy.borrow_asset == "SUI")
      then returns none
      else if config.loop_strategy.use_existing_collateral
      then or_fresh (build_existing input config) (build_fresh input config)
      else build_fresh input config
