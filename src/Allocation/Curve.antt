-- ===== src/Allocation/Curve.antt =====
-- The rate curves. Raw amounts are the numbers that their texts are read as, and the product of a
-- finite amount of units and a power of ten is taken to be finite, as in the source.
use looping_agent.Prelude.{
  ℕ, ◌^◌, String, Bool, not, ◌&&◌, ◌||◌, Option, List, [], ◌∷◌, length, leb, if◌then◌else◌,
}
use looping_agent.Js.Number.{Number}
use looping_agent.Js.Sort.{sort}
use looping_agent.Types.{LendingProtocol}

pub record BorrowAprPoint (F : Type 0) : Type 0 where
  pub util : F
  pub apr : F

pub record ReserveCurve (F : Type 0) : Type 0 where
  pub protocol : LendingProtocol
  pub asset : String
  pub coin_type : String
  pub borrow_apr_points : List (BorrowAprPoint F)
  pub reserve_factor_pct : F
  pub borrowed_raw : ℕ
  pub available_liquidity_raw : ℕ
  pub deposit_cap_raw : Option ℕ
  pub decimals : ℕ
  pub price : F
  pub reward_supply_apr : F

abbrev last_or {ℓ} : {A : Type ℓ} → A → List A → A
last_or a [] = a
last_or a (b ∷ bs) = last_or b bs

module _ {F : Type 0} ⦃num : Number F⦄ where
  abbrev pub zero_f : F
  zero_f = num.of_ℕ 0

  abbrev pub one_f : F
  one_f = num.of_ℕ 1

  unfoldable pub clamp : F → F → F → F
  clamp value min max = num.min max (num.max min value)

  unfoldable pub to_units : ℕ → ℕ → F
  to_units raw decimals = num.div (num.of_ℕ raw) (num.of_ℕ (10 ^ decimals))

  unfoldable pub to_raw : F → ℕ → ℕ
  to_raw units decimals =
      if not (num.is_finite units) || num.le units zero_f
      then 0
      else num.floor (num.mul units (num.of_ℕ (10 ^ decimals)))

  -- `Math.round(value * 10 ** places) / 10 ** places`
  unfoldable pub round_to : F → ℕ → F
  round_to value places =
      num.div (num.round (num.mul value (num.of_ℕ (10 ^ places)))) (num.of_ℕ (10 ^ places))

  abbrev pub later_util : BorrowAprPoint F → BorrowAprPoint F → Bool
  later_util a b = num.lt zero_f (num.sub a.util b.util)

  -- The value between two control points.
  unfoldable pub between : F → BorrowAprPoint F → BorrowAprPoint F → F
  between util prev next =
      let span = num.sub next.util prev.util in
      if num.le span zero_f
      then next.apr
      else num.add prev.apr
          (num.mul (num.div (num.sub util prev.util) span) (num.sub next.apr prev.apr))

  -- The loop, from the point `prev` on; `last` is the last point.
  unfoldable pub interpolate : F → BorrowAprPoint F → BorrowAprPoint F → List (BorrowAprPoint F) → F
  interpolate util last prev [] = last.apr
  interpolate util last prev (next ∷ points) =
      let rest = interpolate util last next points in
      if num.le util next.util then between util prev next else rest

  unfoldable pub borrow_apr_sorted : F → List (BorrowAprPoint F) → F
  borrow_apr_sorted util [] = zero_f
  borrow_apr_sorted util (first ∷ points) =
      let last = last_or first points in
      if num.le util first.util
      then first.apr
      else if num.le last.util util
      then last.apr
      else interpolate util last first points

  unfoldable pub borrow_apr : List (BorrowAprPoint F) → F → F
  borrow_apr points u = borrow_apr_sorted (clamp u zero_f one_f) (sort later_util points)

  unfoldable pub supply_apr : ReserveCurve F → F → F
  supply_apr curve u =
      let util = clamp u zero_f one_f in
      num.mul (num.mul (borrow_apr curve.borrow_apr_points util) util)
        (num.sub one_f (num.div curve.reserve_factor_pct (num.of_ℕ 100)))

  unfoldable pub utilization_after_deposit : ReserveCurve F → ℕ → F
  utilization_after_deposit curve x_raw =
      let borrowed = to_units curve.borrowed_raw curve.decimals in
      let denom =
        num.add (num.add borrowed (to_units curve.available_liquidity_raw curve.decimals))
          (to_units x_raw curve.decimals) in
      if num.le denom zero_f then zero_f else clamp (num.div borrowed denom) zero_f one_f

  unfoldable pub net_supply_apr : ReserveCurve F → ℕ → F
  net_supply_apr curve x_raw =
      num.add (supply_apr curve (utilization_after_deposit curve x_raw)) curve.reward_supply_apr

  unfoldable pub derive_reserve_factor_pct : F → F → F → F
  derive_reserve_factor_pct spot_borrow spot_supply utilization =
      let denom = num.mul spot_borrow utilization in
      if num.le denom zero_f
      then zero_f
      else num.mul
          (clamp (num.sub one_f (num.div spot_supply denom)) zero_f
            (num.div (num.of_ℕ 95) (num.of_ℕ 100)))
          (num.of_ℕ 100)

  -- A line through the origin.
  abbrev pub line_to : F → List (BorrowAprPoint F)
  line_to apr = record { util = zero_f; apr = zero_f } ∷ record { util = one_f; apr = apr } ∷ []

  unfoldable pub fallback_borrow_apr_points : F → F → List (BorrowAprPoint F)
  fallback_borrow_apr_points utilization spot_borrow =
      if num.le utilization zero_f || not (num.is_finite spot_borrow)
      then line_to (num.max zero_f spot_borrow)
      else line_to (num.div spot_borrow utilization)

  -- Whether the candidate reproduces the observed rate.
  unfoldable pub reproduces : List (BorrowAprPoint F) → F → F → Bool
  reproduces candidate utilization spot_borrow =
      let reproduced = borrow_apr candidate utilization in
      num.is_finite reproduced
      && num.le (num.abs (num.sub reproduced spot_borrow)) (
          num.max (num.div one_f (num.of_ℕ 2))
            (num.mul (num.abs spot_borrow) (num.div (num.of_ℕ 15) (num.of_ℕ 100))))

  unfoldable pub validated_borrow_apr_points :
      List (BorrowAprPoint F) → F → F → List (BorrowAprPoint F)
  validated_borrow_apr_points candidate utilization spot_borrow =
      if leb 2 (length candidate)
        && num.is_finite spot_borrow
        && reproduces candidate utilization spot_borrow
      then candidate
      else fallback_borrow_apr_points utilization spot_borrow
