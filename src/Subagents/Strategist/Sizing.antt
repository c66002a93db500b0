-- ===== src/Subagents/Strategist/Sizing.antt =====
-- The amounts of a loop: `effectiveBorrowLimitUsd`, `plannedBorrowUsd`, `maxFreshCollateralUsd`,
-- `cappedSuiBorrowRaw` and `suiRawToUsd` of agent/src/core/subagents.ts.
use looping_agent.Prelude.{
  ℕ, String, Bool, ◌||◌, ◌<◌, ◌≡◌, Option, none, some, ltb, if◌then◌else◌, arith,
}
use looping_agent.Js.Int.{ℤ, pos, pos_part, leb_ℤ, ◌≤ℤ◌}
use looping_agent.Js.Number.{Number}
use looping_agent.Js.Text.{decimal}
use looping_agent.Types.{AppConfig}
use looping_agent.StrategyLedger.{ProtocolPositionSnapshot}
use looping_agent.Subagents.Live.{Call, returns, throws}

-- `requestedRaw < maxBorrowRaw ? requestedRaw : maxBorrowRaw`, for a positive maximum.
unfoldable pub at_most : ℕ → ℤ → ℕ
at_most requested max = if ltb requested (pos_part max) then requested else pos_part max

pub at_most-bounds :
    (requested : ℕ) (max : ℤ) → leb_ℤ max (pos 0) ≡ Bool.false → pos (at_most requested max) ≤ℤ max
unfolding at_most
at_most-bounds requested max h = ground arith

-- The smaller of two natural numbers, or 1.
abbrev at_least_one : ℕ → ℕ
at_least_one n = if ltb n 1 then 1 else n

module _ {F : Type 0} ⦃num : Number F⦄ where
  -- x > 0, and x <= 0
  abbrev pub is_positive : F → Bool
  is_positive x = num.lt (num.of_ℕ 0) x

  abbrev pub is_nonpositive : F → Bool
  is_nonpositive x = num.le x (num.of_ℕ 0)

  unfoldable pub effective_borrow_limit_usd : ProtocolPositionSnapshot F → F
  effective_borrow_limit_usd positions =
      if is_positive positions.borrow_limit_usd
      then positions.borrow_limit_usd
      else if is_nonpositive positions.deposited_amount_usd
          || is_positive positions.borrowed_amount_usd
      then num.of_ℕ 0
      else num.mul positions.deposited_amount_usd (num.div (num.of_ℕ 1) (num.of_ℕ 2))

  -- `plannedBorrowUsd`, for the borrow limit that it reads.
  unfoldable pub planned_of_limit : ProtocolPositionSnapshot F → AppConfig F → F → F
  planned_of_limit positions config limit =
      if is_nonpositive limit
      then num.of_ℕ 0
      else num.max (num.of_ℕ 0) (
          num.min
            (num.min config.loop_strategy.max_borrow_usd (
              num.max (num.of_ℕ 0) (
                num.mul (num.sub limit positions.weighted_borrows_usd)
                  config.loop_strategy.borrow_capacity_fraction)))
            (num.sub (num.div limit config.loop_strategy.min_health_factor)
              positions.weighted_borrows_usd))

  unfoldable pub planned_borrow_usd : ProtocolPositionSnapshot F → AppConfig F → F
  planned_borrow_usd positions config =
      planned_of_limit positions config (effective_borrow_limit_usd positions)

  -- `rawToUnits(raw, decimals)`, for a raw amount and 10 ** decimals.
  unfoldable pub raw_to_units : ℕ → ℕ → F
  raw_to_units raw scale = num.div (num.of_ℕ raw) (num.of_ℕ scale)

  -- The wallet's USDC is its raw amount, if the balances could be read.
  unfoldable pub max_fresh_collateral_usd : AppConfig F → Option ℕ → F
  max_fresh_collateral_usd config none =
      num.max (num.of_ℕ 0) config.loop_strategy.max_collateral_usd
  max_fresh_collateral_usd config (some usdc_raw) =
      num.max (num.of_ℕ 0)
        (num.min config.loop_strategy.max_collateral_usd (raw_to_units usdc_raw 1000000))

  -- `BigInt(Math.max(0, Math.floor(x)))` throws where `x` is not finite.
  unfoldable pub requested_raw : F → AppConfig F → Call ℕ
  requested_raw x config =
      if num.is_finite x
      then returns (at_most (num.floor x) config.sui.max_borrow_raw)
      else throws "RangeError"

  unfoldable pub capped_sui_borrow_raw : F → F → AppConfig F → Call ℕ
  capped_sui_borrow_raw max_borrow_usd price config =
      if is_nonpositive max_borrow_usd
        || is_nonpositive price
        || leb_ℤ config.sui.max_borrow_raw (pos 0)
      then returns 0
      else requested_raw (num.mul (num.div max_borrow_usd price) (num.of_ℕ 1000000000)) config

  unfoldable pub sui_raw_to_usd : ℕ → F → F
  sui_raw_to_usd raw price = num.mul (raw_to_units raw 1000000000) price

  -- `Math.max(1, Math.floor(collateralUsd * 1_000_000)).toString()`, below 1e21.
  unfoldable pub raw_collateral : F → String
  raw_collateral collateral_usd =
      decimal (at_least_one (num.floor (num.mul collateral_usd (num.of_ℕ 1000000))))

  -- `priceUsd > 0 ? priceUsd : 1`
  unfoldable pub price_or_one : F → F
  price_or_one price = if is_positive price then price else num.of_ℕ 1

  -- Whatever is asked for, a borrow is never above the configured maximum: it is zero, or within it.
  pub capped_sui_borrow_raw-bounds :
      (max_borrow_usd price : F) (config : AppConfig F) (raw : ℕ)
      → capped_sui_borrow_raw max_borrow_usd price config ≡ returns raw
      → 0 < raw
      → pos raw ≤ℤ config.sui.max_borrow_raw
  unfolding capped_sui_borrow_raw requested_raw
  capped_sui_borrow_raw-bounds max_borrow_usd price config raw h k = ground (
    arith,
    at_most-bounds (num.floor (num.mul (num.div max_borrow_usd price) (num.of_ℕ 1000000000)))
        config.sui.max_borrow_raw,
  )
