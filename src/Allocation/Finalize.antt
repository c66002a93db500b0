-- ===== src/Allocation/Finalize.antt =====
-- `finalize` and `largestIndex`: from amounts in units to raw amounts, and the repair of the rounding.
use looping_agent.Prelude.{
  ℕ, zero, suc, ◌+◌, ◌-◌, String, Bool, ◌&&◌, List, [], ◌∷◌, map, length, ltb, leb, if◌then◌else◌,
}
use looping_agent.Js.Int.{ℤ, pos, minus}
use looping_agent.Js.Number.{Number}
use looping_agent.Js.Sort.{sort}
use looping_agent.Types.{LendingProtocol}
use looping_agent.Allocation.Curve.{ReserveCurve, zero_f, to_raw, round_to, net_supply_apr}
use looping_agent.Allocation.WaterFill.{WaterFillResult}

-- The amounts are the bigints whose texts the source keeps.
pub record AllocationLeg (F : Type 0) : Type 0 where
  pub protocol : LendingProtocol
  pub asset : String
  pub coin_type : String
  pub x_raw : ℕ
  pub net_supply_apr : F
  pub share : F

pub record AllocationResult (F : Type 0) : Type 0 where
  pub allocations : List (AllocationLeg F)
  pub blended_net_apr : F
  pub marginal_apr : F
  pub budget_raw : ℤ
  pub allocated_raw : ℕ
  pub unallocated_raw : ℤ
  pub iterations : ℕ

-- The raw amounts after the repair, and what is allocated.
pub record Repaired : Type 0 where
  pub amounts : List ℕ
  pub allocated : ℕ

-- `amounts.reduce((sum, r) => sum + r, 0n)`
unfoldable pub sum : List ℕ → ℕ
sum [] = 0
sum (x ∷ xs) = x + sum xs

-- `amounts[i] ?? 0n`
unfoldable pub amount_at : ℕ → List ℕ → ℕ
amount_at i [] = 0
amount_at zero (x ∷ xs) = x
amount_at (suc i) (x ∷ xs) = amount_at i xs

-- `amounts[i] = value`, for an index in range.
unfoldable pub set_amount : ℕ → ℕ → List ℕ → List ℕ
set_amount i value [] = []
set_amount zero value (x ∷ xs) = value ∷ xs
set_amount (suc i) value (x ∷ xs) = x ∷ set_amount i value xs

-- The loop of `largestIndex` at `i`, where the largest so far is `current`, at `idx`.
unfoldable pub largest_from : ℕ → ℕ → ℕ → List ℕ → ℕ
largest_from idx current i [] = idx
largest_from idx current i (value ∷ values) =
    let larger = ltb current value in
    largest_from (if larger then i else idx) (if larger then value else current) (suc i) values

unfoldable pub largest_index : List ℕ → ℕ
largest_index [] = 0
largest_index (x ∷ xs) = largest_from 0 x 1 xs

-- The repair of the rounding, with at most `slack` units to give away.
unfoldable pub repair : ℕ → ℕ → List ℕ → Repaired
repair budget slack amounts =
    let idx = largest_index amounts in
    let cur = amount_at idx amounts in
    let allocated = sum amounts in
    let overflow = allocated - budget in
    let cut = set_amount idx (if ltb overflow cur then cur - overflow else 0) amounts in
    if ltb budget allocated
    then record { amounts = cut; allocated = sum cut }
    else if ltb allocated budget && leb (budget - allocated) slack && ltb 0 cur
    then record {
      amounts = set_amount idx (cur + (budget - allocated)) amounts;
      allocated = budget;
    }
    else record { amounts = amounts; allocated = allocated }

module _ {F : Type 0} where
  -- Descending by amount.
  abbrev pub smaller_leg : AllocationLeg F → AllocationLeg F → Bool
  smaller_leg a b = ltb a.x_raw b.x_raw

module _ {F : Type 0} ⦃num : Number F⦄ where
  unfoldable pub raw_amounts : WaterFillResult F → ℕ → List ℕ
  raw_amounts solved decimals = map (λ x. to_raw (num.max zero_f x) decimals) solved.x_units

  unfoldable pub leg_of : ReserveCurve F → ℕ → ℕ → AllocationLeg F
  leg_of curve x_raw allocated = record {
    protocol = curve.protocol;
    asset = curve.asset;
    coin_type = curve.coin_type;
    x_raw = x_raw;
    net_supply_apr = round_to (net_supply_apr curve x_raw) 4;
    share = if ltb 0 allocated then num.div (num.of_ℕ x_raw) (num.of_ℕ allocated) else zero_f;
  }

  -- The legs that get something.
  unfoldable pub legs_of : List (ReserveCurve F) → List ℕ → ℕ → List (AllocationLeg F)
  legs_of [] amounts allocated = []
  legs_of (curve ∷ curves) [] allocated = []
  legs_of (curve ∷ curves) (x_raw ∷ amounts) allocated =
      let rest = legs_of curves amounts allocated in
      if ltb 0 x_raw then leg_of curve x_raw allocated ∷ rest else rest

  abbrev pub blend_from : F → List (AllocationLeg F) → F
  blend_from start [] = start
  blend_from start (leg ∷ legs) =
      blend_from (num.add start (num.mul leg.net_supply_apr leg.share)) legs

  unfoldable pub finalize :
      List (ReserveCurve F) → WaterFillResult F → ℕ → ℕ → ℕ → AllocationResult F
  finalize curves solved decimals budget iterations =
      let repaired = repair budget (length curves) (raw_amounts solved decimals) in
      let allocations = sort smaller_leg (legs_of curves repaired.amounts repaired.allocated) in
      record {
        allocations = allocations;
        blended_net_apr = round_to (blend_from zero_f allocations) 4;
        marginal_apr = round_to solved.marginal 4;
        budget_raw = pos budget;
        allocated_raw = repaired.allocated;
        unallocated_raw = minus budget repaired.allocated;
        iterations = iterations;
      }
