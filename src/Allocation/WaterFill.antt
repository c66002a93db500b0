-- ===== src/Allocation/WaterFill.antt =====
-- `waterFill`, `solveMarginalEquals`, `marginalYield` and `bestSingle`. The two bisections run the
-- source's fixed numbers of rounds.
use looping_agent.Prelude.{ℕ, zero, suc, Bool, List, [], ◌∷◌, map, if◌then◌else◌}
use looping_agent.Js.Number.{Number}
use looping_agent.Allocation.Curve.{ReserveCurve, zero_f, to_raw, net_supply_apr}

-- `LAMBDA_ITERATIONS`
abbrev pub lambda_iterations : ℕ
lambda_iterations = 80

-- `X_ITERATIONS`
abbrev pub x_iterations : ℕ
x_iterations = 60

pub record WaterFillResult (F : Type 0) : Type 0 where
  pub x_units : List F
  pub marginal : F
  pub iterations : ℕ

-- The single best curve and its amount.
pub record BestSingle (F : Type 0) : Type 0 where
  pub curve : ReserveCurve F
  pub apr : F

module _ {F : Type 0} ⦃num : Number F⦄ where
  abbrev pub half : F → F → F
  half lo hi = num.div (num.add lo hi) (num.of_ℕ 2)

  -- `xs.reduce((sum, x) => sum + x, start)`
  abbrev pub sum_from : F → List F → F
  sum_from start [] = start
  sum_from start (x ∷ xs) = sum_from (num.add start x) xs

  -- `interest(x)`
  unfoldable pub interest : ReserveCurve F → F → F
  interest curve x =
      let safe = num.max zero_f x in
      num.mul safe (net_supply_apr curve (to_raw safe curve.decimals))

  unfoldable pub marginal_yield : ReserveCurve F → F → F
  marginal_yield curve x_units =
      let tiny = num.div (num.of_ℕ 1) (num.of_ℕ 1000000) in
      let h = num.max (num.mul x_units tiny) tiny in
      let lo = num.max zero_f (num.sub x_units h) in
      let hi = num.add x_units h in
      num.div (num.sub (interest curve hi) (interest curve lo)) (num.sub hi lo)

  -- The rounds of a bisection that goes up where `goes_up` holds of the middle.
  unfoldable pub bisect : (F → Bool) → ℕ → F → F → F
  bisect goes_up zero lo hi = half lo hi
  bisect goes_up (suc n) lo hi =
      let mid = half lo hi in
      let up = goes_up mid in bisect goes_up n (if up then mid else lo) (if up then hi else mid)

  unfoldable pub solve_marginal_equals : F → ReserveCurve F → F → F
  solve_marginal_equals lambda curve cap =
      if num.le cap zero_f
      then zero_f
      else if num.le (marginal_yield curve zero_f) lambda
      then zero_f
      else if num.le lambda (marginal_yield curve cap)
      then cap
      else bisect (λ mid. num.lt lambda (marginal_yield curve mid)) x_iterations zero_f cap

  -- `allocAt(lambda)`
  unfoldable pub alloc_at : List (ReserveCurve F) → (ReserveCurve F → F) → F → List F
  alloc_at curves cap_for lambda = map (λ c. solve_marginal_equals lambda c (cap_for c)) curves

  -- `total > budgetUnits`
  unfoldable pub overshoots : List (ReserveCurve F) → F → (ReserveCurve F → F) → F → Bool
  overshoots curves budget_units cap_for lambda =
      num.lt budget_units (sum_from zero_f (alloc_at curves cap_for lambda))

  -- The highest yield of the first unit, and 0.
  unfoldable pub lambda_high : F → List (ReserveCurve F) → F
  lambda_high high [] = high
  lambda_high high (c ∷ curves) = lambda_high (num.max high (marginal_yield c zero_f)) curves

  unfoldable pub water_fill : List (ReserveCurve F) → F → (ReserveCurve F → F) → WaterFillResult F
  water_fill curves budget_units cap_for =
      let caps = map cap_for curves in
      let lambda =
        bisect (overshoots curves budget_units cap_for) lambda_iterations zero_f
          (lambda_high zero_f curves) in
      if num.le (sum_from zero_f caps) budget_units
      then record { x_units = caps; marginal = zero_f; iterations = 0 }
      else record {
        x_units = alloc_at curves cap_for lambda;
        marginal = lambda;
        iterations = lambda_iterations;
      }

  abbrev pub single_units : F → (ReserveCurve F → F) → ReserveCurve F → F
  single_units budget_units cap_for curve = num.min budget_units (cap_for curve)

  -- The loop of `bestSingle`.
  unfoldable pub best_of :
      F → (ReserveCurve F → F) → BestSingle F → List (ReserveCurve F) → BestSingle F
  best_of budget_units cap_for best [] = best
  best_of budget_units cap_for best (c ∷ curves) =
      let apr = net_supply_apr c (to_raw (single_units budget_units cap_for c) c.decimals) in
      best_of budget_units cap_for
        (if num.lt best.apr apr then record { curve = c; apr = apr } else best) curves

  unfoldable pub best_single :
      ReserveCurve F → List (ReserveCurve F) → F → (ReserveCurve F → F) → ReserveCurve F
  best_single first curves budget_units cap_for =
      (best_of budget_units cap_for (record { curve = first; apr = num.neg_infinity }) curves).curve
