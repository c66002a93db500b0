-- ===== src/Subagents/Observe/Arrival.antt =====
-- The order in which the clients answer, and what the rate scout records.
use mathlib.Core.List.{Permᴰ}
use looping_agent.Prelude.{
  ℕ, String, ◌≡◌, refl, ap, Bool, true, false, List, [], ◌∷◌, if◌then◌else◌, All, arith, nat_eq,
}
use looping_agent.Js.Sort.Batches.{RankedBy, sort-Perm}
use looping_agent.Types.{LendingProtocol, AppConfig}
use looping_agent.StrategyLedger.{MarketRate, ProtocolPositionSnapshot, StrategyLedger}
use looping_agent.Subagents.Live.{Call, returns, throws}
use looping_agent.Subagents.Observe.{
  ReadClients, LendingMarket, NormalizedPositions, protocol_rank, rate_of, rates_of_markets,
  rates_of_answer, read_rates, later_rate, capture_rates, run_rate_scout, positions_of_answer,
  normalize_protocol_positions, read_positions, later_position, capture_positions,
  run_position_risk,
}

protocol_rank_injective : (a b : LendingProtocol) → protocol_rank a ≡ protocol_rank b → a ≡ b
protocol_rank_injective a b h = ground arith

if_none :
    {A : Type 0} (P : A → Type 0) (b : Bool) (xs : List A) → All P xs → All P (if b then [] else xs)
if_none P true xs h = tt
if_none P false xs h = h

if_kept :
    {A : Type 0} (P : A → Type 0) (b : Bool) (x : A) (xs : List A)
    → P x
    → All P xs
    → All P (if b then x ∷ xs else xs)
if_kept P true x xs p h = (p, h)
if_kept P false x xs p h = h

module _ {F : Type 0} where
  abbrev rate_rank : MarketRate F → ℕ
  rate_rank rate = protocol_rank rate.protocol

  abbrev position_rank : ProtocolPositionSnapshot F → ℕ
  position_rank positions = protocol_rank positions.protocol

  later_rate-RankedBy :
      (later_asset : String → String → Bool) → RankedBy (later_rate later_asset) rate_rank
  unfolding later_rate
  later_rate-RankedBy later_asset = record {
    above = λ x y h. ground arith;
    below = λ x y h. ground arith;
  }

  later_position-RankedBy : RankedBy later_position position_rank
  unfolding later_position
  later_position-RankedBy = record { above = λ x y h. ground arith; below = λ x y h. ground arith }

  rates_of_markets-rank :
      (config : AppConfig F) (protocol : LendingProtocol) (markets : List (LendingMarket F))
      → All (λ r. rate_rank r ≡ protocol_rank protocol) (rates_of_markets config protocol markets)
  unfolding rates_of_markets rate_of
  rates_of_markets-rank config protocol [] = tt
  rates_of_markets-rank config protocol (market ∷ markets) =
      if_kept _ _ (rate_of protocol market) (rates_of_markets config protocol markets) refl
        (rates_of_markets-rank config protocol markets)

  rates_of_answer-rank :
      (config : AppConfig F) (protocol : LendingProtocol) (answer : Call (List (LendingMarket F)))
      → All (λ r. rate_rank r ≡ protocol_rank protocol) (rates_of_answer config protocol answer)
  unfolding rates_of_answer
  rates_of_answer-rank config protocol (throws e) = tt
  rates_of_answer-rank config protocol (returns markets) =
      rates_of_markets-rank config protocol markets

  read_rates-rank :
      (config : AppConfig F) (clients : ReadClients F) (protocol : LendingProtocol)
      → All (λ r. rate_rank r ≡ protocol_rank protocol) (read_rates config clients protocol)
  unfolding read_rates
  read_rates-rank config clients protocol =
      if_none _ _ _ (rates_of_answer-rank config protocol (clients.get_markets protocol))

  -- The ledger after a rate scout's run does not depend on the order in which the clients answer,
  -- whatever the order of the asset names, and whichever reads fail.
  pub run_rate_scout-Perm :
      (later_asset : String → String → Bool) (config : AppConfig F) (clients : ReadClients F)
      (arrivals others : List LendingProtocol) (run_id : String) (captured saved : ℕ)
      (ledger : StrategyLedger F)
      → Permᴰ arrivals others
      → run_rate_scout later_asset config clients arrivals run_id captured saved ledger
        ≡ run_rate_scout later_asset config clients others run_id captured saved ledger
  unfolding run_rate_scout capture_rates
  run_rate_scout-Perm later_asset config clients arrivals others run_id captured saved ledger d =
      rw
        (sort-Perm (later_rate later_asset) rate_rank (later_rate-RankedBy later_asset)
          (read_rates config clients) protocol_rank (read_rates-rank config clients)
          protocol_rank_injective arrivals others d)
        refl

  -- A client answers with positions of its own protocol.
  abbrev pub Answers : Call (NormalizedPositions F) → LendingProtocol → Type 0
  Answers (throws e) protocol = Unit
  Answers (returns positions) protocol = positions.protocol ≡ protocol

  positions_of_answer-rank :
      (protocol : LendingProtocol) (answer : Call (NormalizedPositions F))
      → Answers answer protocol
      → All (λ p. position_rank p ≡ protocol_rank protocol) (positions_of_answer answer)
  unfolding positions_of_answer normalize_protocol_positions
  positions_of_answer-rank protocol (throws e) h = tt
  positions_of_answer-rank protocol (returns positions) h = (ap protocol_rank h, tt)

  read_positions-rank :
      (config : AppConfig F) (clients : ReadClients F)
      → ((protocol : LendingProtocol) → Answers (clients.get_positions protocol) protocol)
      → (protocol : LendingProtocol)
      → All (λ p. position_rank p ≡ protocol_rank protocol) (read_positions config clients protocol)
  unfolding read_positions
  read_positions-rank config clients h protocol =
      if_none _ _ _
        (positions_of_answer-rank protocol (clients.get_positions protocol) (h protocol))

  -- Where each client answers with positions of its own protocol, the ledger after a position risk
  -- run does not depend on the order in which the clients answer.
  run_position_risk-Perm :
      (config : AppConfig F) (clients : ReadClients F) (arrivals others : List LendingProtocol)
      (run_id : String) (captured saved : ℕ) (ledger : StrategyLedger F)
      → ((protocol : LendingProtocol) → Answers (clients.get_positions protocol) protocol)
      → Permᴰ arrivals others
      → run_position_risk config clients arrivals run_id captured saved ledger
        ≡ run_position_risk config clients others run_id captured saved ledger
  unfolding run_position_risk capture_positions
  run_position_risk-Perm config clients arrivals others run_id captured saved ledger h d =
      rw
        (sort-Perm later_position position_rank later_position-RankedBy
          (read_positions config clients) protocol_rank (read_positions-rank config clients h)
          protocol_rank_injective arrivals others d)
        refl
