-- ===== src/Subagents/Observe.antt =====
-- `runRateScout`, `runPositionRisk` and the normalizers of agent/src/core/subagents.ts: what they
-- collect from the clients, whose answers are given, in the order in which the answers arrive.
-- `localeCompare` on asset names is a parameter.
pub mod Arrival
use looping_agent.Prelude.{
  ℕ, String, Bool, not, ◌&&◌, ◌||◌, Option, some, List, [], ◌∷◌, map, flat_map, ◌==◌, string_eq,
  nat_eq, ltb, if◌then◌else◌,
}
use looping_agent.Js.Sort.{sort}
use looping_agent.Js.Text.{lower, upper, template}
use looping_agent.Types.{LendingProtocol, suilend, navi, scallop, AppConfig}
use looping_agent.StrategyLedger.Status.{PositionSide}
use looping_agent.StrategyLedger.{
  MarketRate, MarketSnapshot, PositionLeg, ProtocolPositionSnapshot, PositionSnapshot,
  StrategyLedger, update,
}
use looping_agent.Subagents.Live.{Call, returns, throws}
use looping_agent.Subagents.Produce.{add_market_snapshot, add_position_snapshot}

-- A market, as far as it is read.
pub record LendingMarket (F : Type 0) : Type 0 where
  pub coin_type : String
  pub symbol : String
  pub supply_apr : F
  pub borrow_apr : F
  pub price : F

pub record NormalizedPosition (F : Type 0) : Type 0 where
  pub coin_type : String
  pub symbol : String
  pub amount : String
  pub amount_usd : F
  pub side : PositionSide

pub record NormalizedPositions (F : Type 0) : Type 0 where
  pub protocol : LendingProtocol
  pub health_factor : F
  pub borrow_limit_usd : F
  pub weighted_borrows_usd : F
  pub deposited_amount_usd : F
  pub borrowed_amount_usd : F
  pub deposits : List (NormalizedPosition F)
  pub borrows : List (NormalizedPosition F)
  pub obligation_id : Option String
  pub obligation_owner_cap_id : Option String
  pub obligation_key_id : Option String

-- The clients: which are enabled, and what they answer.
pub record ReadClients (F : Type 0) : Type 0 where
  pub enabled : LendingProtocol → Bool
  pub get_markets : LendingProtocol → Call (List (LendingMarket F))
  pub get_positions : LendingProtocol → Call (NormalizedPositions F)

-- The place of a protocol's name in the order of `localeCompare`.
abbrev pub protocol_rank : LendingProtocol → ℕ
protocol_rank navi = 0
protocol_rank scallop = 1
protocol_rank suilend = 2

module _ {F : Type 0} where
  abbrev pub is_skipped : AppConfig F → ReadClients F → LendingProtocol → Bool
  is_skipped config clients protocol =
      not (clients.enabled protocol) || not (config.sui.protocols protocol).enabled

  abbrev pub is_strategy_asset : AppConfig F → String → Bool
  is_strategy_asset config asset =
      asset == config.loop_strategy.collateral_asset || asset == config.loop_strategy.borrow_asset

  unfoldable pub rate_of : LendingProtocol → LendingMarket F → MarketRate F
  rate_of protocol market = record {
    protocol = protocol;
    asset = upper market.symbol;
    coin_type = market.coin_type;
    supply_apr = market.supply_apr;
    borrow_apr = market.borrow_apr;
    price_usd = market.price;
    liquidity_usd = Option.none;
  }

  -- The rates pushed for one client's markets.
  unfoldable pub rates_of_markets :
      AppConfig F → LendingProtocol → List (LendingMarket F) → List (MarketRate F)
  rates_of_markets config protocol [] = []
  rates_of_markets config protocol (market ∷ markets) =
      let rest = rates_of_markets config protocol markets in
      if is_strategy_asset config (lower market.symbol)
      then rate_of protocol market ∷ rest
      else rest

  -- The same for what the client answers; a failing read is logged.
  unfoldable pub rates_of_answer :
      AppConfig F → LendingProtocol → Call (List (LendingMarket F)) → List (MarketRate F)
  rates_of_answer config protocol (throws e) = []
  rates_of_answer config protocol (returns markets) = rates_of_markets config protocol markets

  unfoldable pub read_rates : AppConfig F → ReadClients F → LendingProtocol → List (MarketRate F)
  read_rates config clients protocol =
      if is_skipped config clients protocol
      then []
      else rates_of_answer config protocol (clients.get_markets protocol)

  unfoldable pub later_rate : (String → String → Bool) → MarketRate F → MarketRate F → Bool
  later_rate later_asset a b =
      ltb (protocol_rank b.protocol) (protocol_rank a.protocol)
      || (protocol_rank a.protocol == protocol_rank b.protocol && later_asset a.asset b.asset)

  -- The snapshot's rates, for the order in which the clients answer.
  unfoldable pub capture_rates :
      (String → String → Bool)
      → AppConfig F
      → ReadClients F
      → List LendingProtocol
      → List (MarketRate F)
  capture_rates later_asset config clients arrivals =
      sort (later_rate later_asset) (flat_map (read_rates config clients) arrivals)

  unfoldable pub run_rate_scout :
      (String → String → Bool)
      → AppConfig F
      → ReadClients F
      → List LendingProtocol
      → String
      → ℕ
      → ℕ
      → StrategyLedger F
      → StrategyLedger F
  run_rate_scout later_asset config clients arrivals run_id captured saved ledger =
      update saved
        (add_market_snapshot (record {
          id = template ("market-" ∷ run_id ∷ []);
          run_id = run_id;
          captured_at = some captured;
          rates = capture_rates later_asset config clients arrivals;
        }))
        ledger

  unfoldable pub normalize_position_leg : LendingProtocol → NormalizedPosition F → PositionLeg F
  normalize_position_leg protocol leg = record {
    protocol = protocol;
    asset = upper leg.symbol;
    coin_type = leg.coin_type;
    raw_amount = leg.amount;
    amount_usd = leg.amount_usd;
    side = leg.side;
  }

  unfoldable pub normalize_protocol_positions : NormalizedPositions F → ProtocolPositionSnapshot F
  normalize_protocol_positions positions = record {
    protocol = positions.protocol;
    health_factor = positions.health_factor;
    borrow_limit_usd = positions.borrow_limit_usd;
    weighted_borrows_usd = positions.weighted_borrows_usd;
    deposited_amount_usd = positions.deposited_amount_usd;
    borrowed_amount_usd = positions.borrowed_amount_usd;
    obligation_id = positions.obligation_id;
    obligation_owner_cap_id = positions.obligation_owner_cap_id;
    obligation_key_id = positions.obligation_key_id;
    deposits = map (normalize_position_leg positions.protocol) positions.deposits;
    borrows = map (normalize_position_leg positions.protocol) positions.borrows;
  }

  unfoldable pub positions_of_answer :
      Call (NormalizedPositions F) → List (ProtocolPositionSnapshot F)
  positions_of_answer (throws e) = []
  positions_of_answer (returns positions) = normalize_protocol_positions positions ∷ []

  unfoldable pub read_positions :
      AppConfig F → ReadClients F → LendingProtocol → List (ProtocolPositionSnapshot F)
  read_positions config clients protocol =
      if is_skipped config clients protocol
      then []
      else positions_of_answer (clients.get_positions protocol)

  unfoldable pub later_position : ProtocolPositionSnapshot F → ProtocolPositionSnapshot F → Bool
  later_position a b = ltb (protocol_rank b.protocol) (protocol_rank a.protocol)

  unfoldable pub capture_positions :
      AppConfig F → ReadClients F → List LendingProtocol → List (ProtocolPositionSnapshot F)
  capture_positions config clients arrivals =
      sort later_position (flat_map (read_positions config clients) arrivals)

  unfoldable pub run_position_risk :
      AppConfig F
      → ReadClients F
      → List LendingProtocol
      → String
      → ℕ
      → ℕ
      → StrategyLedger F
      → StrategyLedger F
  run_position_risk config clients arrivals run_id captured saved ledger =
      update saved
        (add_position_snapshot (record {
          id = template ("positions-" ∷ run_id ∷ []);
          run_id = run_id;
          wallet_address = lower config.agent.wallet_address;
          captured_at = some captured;
          protocols = capture_positions config clients arrivals;
        }))
        ledger
