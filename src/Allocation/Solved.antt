-- ===== src/Allocation/Solved.antt =====
-- What `solveAllocation` returns.
use looping_agent.Prelude.{
  ℕ, zero, suc, ◌≡◌, refl, sym, ◌∙◌, false, Bool-cases, List, [], ◌∷◌, length, two_ways,
  Option-cases, inl, inr, arith,
}
use looping_agent.Js.Int.{ℤ, pos, negsuc, pos_part, leb_ℤ}
use looping_agent.Js.Number.{Number}
use looping_agent.Allocation.Curve.{ReserveCurve}
use looping_agent.Allocation.WaterFill.{WaterFillResult, water_fill, alloc_at}
use looping_agent.Allocation.Finalize.{AllocationResult, sum, finalize}
use looping_agent.Allocation.Solve.{
  SolveAllocationInput, Pruned, settled, exhausted, prune_choice, prune_loop, remove_at, rounds,
  fallback, or_fallback, solve_first, solve_curves, solve_allocation, empty_result,
}
use looping_agent.Allocation.Balance.{Split, finalize-Split, map-length}

positive_part : (n : ℤ) → leb_ℤ n (pos 0) ≡ false → pos (pos_part n) ≡ n
positive_part (pos n) h = refl
positive_part (negsuc n) h = absurd (ground arith)

module _ {F : Type 0} ⦃num : Number F⦄ where
  water_fill-length :
      (curves : List (ReserveCurve F)) (budget_units : F) (cap_of : ReserveCurve F → F)
      → length curves ≡ length (water_fill curves budget_units cap_of).x_units
  unfolding water_fill alloc_at
  water_fill-length curves budget_units cap_of =
      two_ways (λ (r : WaterFillResult F). length curves ≡ length r.x_units) _ _ _
        (sym (map-length cap_of curves)) (sym (map-length _ curves))

  abbrev Holds : (AllocationResult F → Type 0) → Pruned F → Type 0
  Holds P (settled result) = P result
  Holds P (exhausted total) = Unit

  prune_loop-Holds :
      (P : AllocationResult F → Type 0) (fill : List (ReserveCurve F) → WaterFillResult F)
      (finish : List (ReserveCurve F) → WaterFillResult F → ℕ → AllocationResult F)
      → ((candidates : List (ReserveCurve F)) (total : ℕ)
          → P (finish candidates (fill candidates) total))
      → (least : F) (guard : ℕ) (candidates : List (ReserveCurve F)) (total : ℕ)
      → Holds P (prune_loop fill finish least guard candidates total)
  unfolding prune_loop
  prune_loop-Holds P fill finish h least zero candidates total = tt
  prune_loop-Holds P fill finish h least (suc guard) candidates total =
      elim (Option-cases (prune_choice least candidates (fill candidates).x_units)) [
        | inl e ↦ rw (e, prune_loop) (h candidates _)
        | inr (i, e) ↦
            rw (e, prune_loop)
              (prune_loop-Holds P fill finish h least guard (remove_at i candidates) _)
      ]

  -- The budget that is asked for.
  abbrev Asks : ℤ → AllocationResult F → Type 0
  Asks budget result = result.budget_raw ≡ budget

  or_fallback-Asks :
      (input : SolveAllocationInput F) (first : ReserveCurve F) (budget_units : F) (budget : ℕ)
      (pruned : Pruned F)
      → Holds (Asks (pos budget)) pruned
      → Asks (pos budget) (or_fallback input first budget_units budget pruned)
  unfolding or_fallback fallback finalize
  or_fallback-Asks input first budget_units budget (settled result) h = h
  or_fallback-Asks input first budget_units budget (exhausted total) h = refl

  solve_first-Asks :
      (input : SolveAllocationInput F) (first : ReserveCurve F) (budget : ℕ)
      → Asks (pos budget) (solve_first input first budget)
  unfolding solve_first rounds finalize
  solve_first-Asks input first budget =
      or_fallback-Asks input first _ budget _
        (prune_loop-Holds (Asks (pos budget)) _ _ (λ candidates total. refl) _ _ input.curves 0)

  solve_curves-Asks :
      (input : SolveAllocationInput F) (curves : List (ReserveCurve F))
      → Asks input.budget_raw (solve_curves input curves)
  unfolding solve_curves empty_result
  solve_curves-Asks input [] = refl
  solve_curves-Asks input (first ∷ _) = elim (Bool-cases (leb_ℤ input.budget_raw (pos 0))) [
    | inl e ↦ rw e refl
    | inr e ↦ rw e (solve_first-Asks input first _ ∙ positive_part input.budget_raw e)
  ]

  pub solve_allocation-budget_raw :
      (input : SolveAllocationInput F) → (solve_allocation input).budget_raw ≡ input.budget_raw
  unfolding solve_allocation
  solve_allocation-budget_raw input = solve_curves-Asks input input.curves

  fallback-Split :
      (input : SolveAllocationInput F) (first : ReserveCurve F) (budget_units : F)
      (budget total : ℕ)
      → Split (fallback input first budget_units budget total)
  unfolding fallback
  fallback-Split input first budget_units budget total =
      finalize-Split _ _ first.decimals budget total refl

  or_fallback-Split :
      (input : SolveAllocationInput F) (first : ReserveCurve F) (budget_units : F) (budget : ℕ)
      (pruned : Pruned F)
      → Holds Split pruned
      → Split (or_fallback input first budget_units budget pruned)
  unfolding or_fallback
  or_fallback-Split input first budget_units budget (settled result) h = h
  or_fallback-Split input first budget_units budget (exhausted total) h =
      fallback-Split input first budget_units budget total

  solve_first-Split :
      (input : SolveAllocationInput F) (first : ReserveCurve F) (budget : ℕ)
      → Split (solve_first input first budget)
  unfolding solve_first rounds
  solve_first-Split input first budget = or_fallback-Split input first _ budget _ (
      prune_loop-Holds Split _ _
        (λ candidates total.
          finalize-Split candidates _ first.decimals budget total
            (water_fill-length candidates _ _))
        _ _ input.curves 0)

  empty-Split : (budget : ℤ) → Split (empty_result {F = F} budget)
  unfolding empty_result sum
  empty-Split budget = record { positive = tt; adds_up = refl; conserves = omega arith }

  solve_curves-Split :
      (input : SolveAllocationInput F) (curves : List (ReserveCurve F))
      → Split (solve_curves input curves)
  unfolding solve_curves
  solve_curves-Split input [] = empty-Split input.budget_raw
  solve_curves-Split input (first ∷ _) =
      two_ways Split _ _ _ (empty-Split input.budget_raw) (solve_first-Split input first _)

  -- Whatever the rates, the rounding of the numbers, the caps and the least position, the split that
  -- `solveAllocation` returns has only positive legs, which add up to the allocated amount, and the
  -- allocated and the unallocated amount add up to the budget.
  pub solve_allocation-Split : (input : SolveAllocationInput F) → Split (solve_allocation input)
  unfolding solve_allocation
  solve_allocation-Split input = solve_curves-Split input input.curves
