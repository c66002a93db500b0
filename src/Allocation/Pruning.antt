-- ===== src/Allocation/Pruning.antt =====
-- The end of the rounds of `solveAllocation`.
use looping_agent.Prelude.{
  ℕ, zero, suc, ◌+◌, ◌≤◌, ◌<◌, ◌≡◌, inl, inr, refl, ap, Bool, true, false, ◌||◌, Option, none, some,
  List, [], ◌∷◌, length, Option-cases, arith, leb, if◌then◌else◌,
}
use looping_agent.Js.Number.{Number}
use looping_agent.Allocation.Curve.{ReserveCurve}
use looping_agent.Allocation.WaterFill.{WaterFillResult}
use looping_agent.Allocation.Finalize.{AllocationResult}
use looping_agent.Allocation.Solve.{
  SolveAllocationInput, settled, remove_at, prune_from, prune_choice, prune_loop, rounds,
}

remove_at-length :
    {A : Type 0} (i : ℕ) (xs : List A) → i < length xs → suc (length (remove_at i xs)) ≡ length xs
unfolding remove_at
remove_at-length i [] h = absurd (omega arith)
remove_at-length zero (x ∷ xs) h = refl
remove_at-length (suc i) (x ∷ xs) h = ap suc (remove_at-length i xs (omega arith))

-- An index below `n`, if any.
abbrev Below : Option ℕ → ℕ → Type 0
Below none n = Unit
Below (some i) n = i < n

Below-if :
    (b : Bool) (i n : ℕ) (found : Option ℕ)
    → i < n
    → Below found n
    → Below (if b then some i else found) n
Below-if true i n found h k = h
Below-if false i n found h k = k

chosen_at :
    (a b : Bool) (n : ℕ) (found : Option ℕ) (m i : ℕ)
    → (if a || leb n 1 || b then none else found) ≡ some i
    → Below found m
    → (i < m) × (1 < n)
chosen_at a b n none m i h k = ground arith
chosen_at a b n (some j) m i h k = ground arith

module _ {F : Type 0} ⦃num : Number F⦄ where
  prune_from-Below :
      (curves : List (ReserveCurve F)) (xs : List F) (least smallest : F) (found : Option ℕ)
      (i n : ℕ)
      → i + length curves ≤ n
      → Below found n
      → Below (prune_from least smallest found i curves xs) n
  unfolding prune_from
  prune_from-Below [] xs least smallest found i n h k = k
  prune_from-Below (c ∷ curves) [] least smallest found i n h k = k
  prune_from-Below (c ∷ curves) (x ∷ xs) least smallest found i n h k =
      prune_from-Below curves xs least _ _ (suc i) n (omega arith)
        (Below-if _ i n found (omega arith) k)

  -- A candidate is pruned only among at least two.
  prunes :
      (least : F) (candidates : List (ReserveCurve F)) (xs : List F) (i : ℕ)
      → prune_choice least candidates xs ≡ some i
      → (i < length candidates) × (1 < length candidates)
  unfolding prune_choice
  prunes least candidates xs i h =
      let below =
        prune_from-Below candidates xs least num.infinity none 0 (length candidates) (omega arith)
          tt in
      chosen_at _ _ _ _ (length candidates) i h below

  prune_loop_settles :
      (fill : List (ReserveCurve F) → WaterFillResult F)
      (finish : List (ReserveCurve F) → WaterFillResult F → ℕ → AllocationResult F) (least : F)
      (guard : ℕ) (candidates : List (ReserveCurve F)) (total : ℕ)
      → length candidates < guard
      → (result : AllocationResult F) × (prune_loop fill finish least guard candidates total
          ≡ settled result)
  unfolding prune_loop
  prune_loop_settles fill finish least zero candidates total h = absurd (omega arith)
  prune_loop_settles fill finish least (suc guard) candidates total h =
      elim (Option-cases (prune_choice least candidates (fill candidates).x_units)) [
        | inl e ↦ rw (e, prune_loop) (_, refl)
        | inr (i, e) ↦
            let (below, two) = prunes least candidates (fill candidates).x_units i e in
            let fewer = remove_at-length i candidates below in
            rw (e, prune_loop)
              (prune_loop_settles fill finish least guard (remove_at i candidates) _ (omega arith))
      ]

  -- For every first curve and budget, and whatever the rates and the rounding, `solveAllocation`
  -- settles on a split within one round more than it has curves: its fallback is not reached.
  pub rounds_settle :
      (input : SolveAllocationInput F) (first : ReserveCurve F) (budget_units : F) (budget : ℕ)
      → (result : AllocationResult F) × (rounds input first budget_units budget ≡ settled result)
  unfolding rounds
  rounds_settle input first budget_units budget =
      prune_loop_settles _ _ _ (suc (length input.curves)) input.curves 0 (omega arith)
