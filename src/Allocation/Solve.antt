-- ===== src/Allocation/Solve.antt =====
-- `solveAllocation`: water-filling, and the pruning of legs below the least position.
use looping_agent.Prelude.{
  ℕ, zero, suc, ◌+◌, ◌&&◌, ◌||◌, Option, none, some, List, [], ◌∷◌, length, leb, if◌then◌else◌,
}
use looping_agent.Js.Int.{ℤ, pos, pos_part, leb_ℤ}
use looping_agent.Js.Number.{Number}
use looping_agent.Allocation.Curve.{ReserveCurve, zero_f, to_units, to_raw, net_supply_apr}
use looping_agent.Allocation.WaterFill.{WaterFillResult, water_fill, best_single, single_units}
use looping_agent.Allocation.Finalize.{AllocationResult, finalize}

pub record SolveAllocationInput (F : Type 0) : Type 0 where
  pub curves : List (ReserveCurve F)
  pub budget_raw : ℤ
  pub per_protocol_cap_raw : Option ℕ
  pub min_position_raw : Option ℕ

-- The rounds: a final split, or the iterations of all rounds where these are used up.
pub data Pruned (F : Type 0) : Type 0 where
  settled : AllocationResult F → Pruned F
  exhausted : ℕ → Pruned F

-- `candidates.filter((_, i) => i !== pruneIndex)`
unfoldable pub remove_at {ℓ} : {A : Type ℓ} → ℕ → List A → List A
remove_at i [] = []
remove_at zero (x ∷ xs) = xs
remove_at (suc i) (x ∷ xs) = x ∷ remove_at i xs

module _ {F : Type 0} ⦃num : Number F⦄ where
  -- `empty()`
  unfoldable pub empty_result : ℤ → AllocationResult F
  empty_result budget = record {
    allocations = [];
    blended_net_apr = zero_f;
    marginal_apr = zero_f;
    budget_raw = budget;
    allocated_raw = 0;
    unallocated_raw = budget;
    iterations = 0;
  }

  -- An amount in units, or what an absent one stands for.
  abbrev pub units_or : F → ℕ → Option ℕ → F
  units_or absent decimals none = absent
  units_or absent decimals (some raw) = to_units raw decimals

  unfoldable pub cap_for : SolveAllocationInput F → ℕ → F → ReserveCurve F → F
  cap_for input decimals budget_units curve = num.max zero_f (
      num.min
        (num.min (units_or num.infinity decimals input.per_protocol_cap_raw)
          (units_or num.infinity decimals curve.deposit_cap_raw))
        budget_units)

  abbrev pub positive_legs : List F → ℕ
  positive_legs [] = 0
  positive_legs (x ∷ xs) = let rest = positive_legs xs in if num.lt zero_f x then suc rest else rest

  -- The loop for `pruneIndex`, at the candidate `i`.
  unfoldable pub prune_from : F → F → Option ℕ → ℕ → List (ReserveCurve F) → List F → Option ℕ
  prune_from least smallest found i [] xs = found
  prune_from least smallest found i (c ∷ curves) [] = found
  prune_from least smallest found i (c ∷ curves) (x ∷ xs) =
      let chosen = num.lt zero_f x && num.lt x least && num.lt x smallest in
      prune_from least (if chosen then x else smallest) (if chosen then some i else found) (suc i)
        curves xs

  -- The candidate to prune, or `none` where the split is final.
  unfoldable pub prune_choice : F → List (ReserveCurve F) → List F → Option ℕ
  prune_choice least candidates xs =
      if num.le least zero_f || leb (length candidates) 1 || leb (positive_legs xs) 1
      then none
      else prune_from least num.infinity none 0 candidates xs

  -- The loop with `guard` rounds left. `fill` is the water-filling and `finish` the finalization of
  -- the candidates.
  unfoldable pub prune_loop :
      (List (ReserveCurve F) → WaterFillResult F)
      → (List (ReserveCurve F) → WaterFillResult F → ℕ → AllocationResult F)
      → F
      → ℕ
      → List (ReserveCurve F)
      → ℕ
      → Pruned F
  prune_loop fill finish least zero candidates total = exhausted total
  prune_loop fill finish least (suc guard) candidates total =
      let solved = fill candidates in
      elim (prune_choice least candidates solved.x_units) [
        | none ↦ settled (finish candidates solved (total + solved.iterations))
        | some i ↦
            prune_loop fill finish least guard (remove_at i candidates) (total + solved.iterations)
      ]

  -- The whole budget on the single best curve; the iterations of the rounds before are given.
  unfoldable pub fallback : SolveAllocationInput F → ReserveCurve F → F → ℕ → ℕ → AllocationResult F
  fallback input first budget_units budget total =
      let cap = cap_for input first.decimals budget_units in
      let best = best_single first input.curves budget_units cap in
      let x = single_units budget_units cap best in
      finalize (best ∷ [])
        (record {
          x_units = x ∷ [];
          marginal = net_supply_apr best (to_raw x first.decimals);
          iterations = 0;
        })
        first.decimals budget total

  -- The rounds for a first curve and a positive budget.
  unfoldable pub rounds : SolveAllocationInput F → ReserveCurve F → F → ℕ → Pruned F
  rounds input first budget_units budget =
      prune_loop
        (λ candidates.
          water_fill candidates budget_units (cap_for input first.decimals budget_units))
        (λ candidates solved total. finalize candidates solved first.decimals budget total)
        (units_or zero_f first.decimals input.min_position_raw) (suc (length input.curves))
        input.curves 0

  unfoldable pub or_fallback :
      SolveAllocationInput F → ReserveCurve F → F → ℕ → Pruned F → AllocationResult F
  or_fallback input first budget_units budget (settled result) = result
  or_fallback input first budget_units budget (exhausted total) =
      fallback input first budget_units budget total

  unfoldable pub solve_first : SolveAllocationInput F → ReserveCurve F → ℕ → AllocationResult F
  solve_first input first budget =
      let budget_units = to_units budget first.decimals in
      or_fallback input first budget_units budget (rounds input first budget_units budget)

  -- The start, for the input's curves.
  unfoldable pub solve_curves : SolveAllocationInput F → List (ReserveCurve F) → AllocationResult F
  solve_curves input [] = empty_result input.budget_raw
  solve_curves input (first ∷ _) =
      if leb_ℤ input.budget_raw (pos 0)
      then empty_result input.budget_raw
      else solve_first input first (pos_part input.budget_raw)

  unfoldable pub solve_allocation : SolveAllocationInput F → AllocationResult F
  solve_allocation input = solve_curves input input.curves
