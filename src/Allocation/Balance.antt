-- ===== src/Allocation/Balance.antt =====
-- `finalize`: what its legs add up to, and when they stay within the budget.
use looping_agent.Prelude.{
  ℕ, zero, suc, ◌+◌, ◌-◌, ◌≤◌, ◌<◌, ◌≡◌, ◌↔◌, inl, inr, refl, sym, ap, ◌∙◌, Bool, true, false,
  Bool-cases, All, List, [], ◌∷◌, map, length, ltb, arith, if◌then◌else◌,
}
use looping_agent.Js.Int.{minus, pos_part, neg_part}
use looping_agent.Js.Number.{Number}
use looping_agent.Js.Sort.{sort, insert_sorted, sort-All}
use looping_agent.Allocation.Curve.{ReserveCurve}
use looping_agent.Allocation.WaterFill.{WaterFillResult}
use looping_agent.Allocation.Largest.{largest_index-is_largest}
use looping_agent.Allocation.Finalize.{
  AllocationLeg, AllocationResult, sum, amount_at, set_amount, largest_index, repair, smaller_leg,
  raw_amounts, leg_of, legs_of, finalize,
}

set_amount-sum :
    (i value : ℕ) (xs : List ℕ)
    → 0 < amount_at i xs
    → sum (set_amount i value xs) + amount_at i xs ≡ sum xs + value
unfolding set_amount amount_at sum
set_amount-sum i value [] h = absurd (omega arith)
set_amount-sum zero value (x ∷ xs) h = omega arith
set_amount-sum (suc i) value (x ∷ xs) h = omega (arith, set_amount-sum i value xs h)

set_amount-length : (i value : ℕ) (xs : List ℕ) → length (set_amount i value xs) ≡ length xs
unfolding set_amount
set_amount-length i value [] = refl
set_amount-length zero value (x ∷ xs) = refl
set_amount-length (suc i) value (x ∷ xs) = ap suc (set_amount-length i value xs)

set_zero-sum : (i : ℕ) (xs : List ℕ) → sum (set_amount i 0 xs) + amount_at i xs ≡ sum xs
unfolding set_amount amount_at sum
set_zero-sum i [] = omega arith
set_zero-sum zero (x ∷ xs) = omega arith
set_zero-sum (suc i) (x ∷ xs) = omega (arith, set_zero-sum i xs)

-- The repaired amounts add up to what is allocated.
repair-sum :
    (budget slack : ℕ) (amounts : List ℕ)
    → sum (repair budget slack amounts).amounts ≡ (repair budget slack amounts).allocated
unfolding repair
repair-sum budget slack amounts =
    let set =
      set_amount-sum (largest_index amounts)
        (amount_at (largest_index amounts) amounts + (budget - sum amounts)) amounts in
    ground arith

-- The budget is respected exactly where the overshoot is at most the largest amount.
repair-largest_iff :
    (budget slack : ℕ) (amounts : List ℕ)
    → ((repair budget slack amounts).allocated ≤ budget)
      ↔ (sum amounts ≤ budget + amount_at (largest_index amounts) amounts)
unfolding repair
repair-largest_iff budget slack amounts =
    let set =
      set_amount-sum (largest_index amounts)
        (amount_at (largest_index amounts) amounts - (sum amounts - budget)) amounts in
    let none_left = set_zero-sum (largest_index amounts) amounts in ground arith

-- The budget is respected exactly where the overshoot is at most some amount.
repair-bounds_iff :
    (budget slack : ℕ) (amounts : List ℕ)
    → ((repair budget slack amounts).allocated ≤ budget)
      ↔ ((i : ℕ) × (sum amounts ≤ budget + amount_at i amounts))
repair-bounds_iff budget slack amounts =
    let at_largest = repair-largest_iff budget slack amounts in
    (
      λ h. (largest_index amounts, at_largest.0 h),
      λ (i, h). at_largest.1 (omega (arith, h, largest_index-is_largest amounts i)),
    )

repair-length :
    (budget slack : ℕ) (amounts : List ℕ)
    → length (repair budget slack amounts).amounts ≡ length amounts
unfolding repair
repair-length budget slack amounts = ground (
  arith,
  set_amount-length (largest_index amounts)
      (amount_at (largest_index amounts) amounts + (budget - sum amounts)) amounts,
  set_amount-length (largest_index amounts)
      (amount_at (largest_index amounts) amounts - (sum amounts - budget)) amounts,
  set_amount-length (largest_index amounts) 0 amounts,
)

insert_sorted-sum :
    {A : Type 0} (later : A → A → Bool) (size : A → ℕ) (x : A) (xs : List A)
    → sum (map size (insert_sorted later x xs)) ≡ size x + sum (map size xs)
unfolding insert_sorted sum
insert_sorted-sum later size x [] = refl
insert_sorted-sum later size x (y ∷ ys) = elim (Bool-cases (later x y)) [
  | inl e ↦ rw (e, insert_sorted) (omega (arith, insert_sorted-sum later size x ys))
  | inr e ↦ rw (e, insert_sorted) refl
]

sort-sum :
    {A : Type 0} (later : A → A → Bool) (size : A → ℕ) (xs : List A)
    → sum (map size (sort later xs)) ≡ sum (map size xs)
unfolding sort sum
sort-sum later size [] = refl
sort-sum later size (x ∷ xs) =
    insert_sorted-sum later size x (sort later xs) ∙ ap (λ n. size x + n) (sort-sum later size xs)

pub map-length : {A B : Type 0} (f : A → B) (xs : List A) → length (map f xs) ≡ length xs
map-length f [] = refl
map-length f (x ∷ xs) = ap suc (map-length f xs)

minus-balance : (a b : ℕ) → pos_part (minus a b) + b + 0 ≡ a + neg_part (minus a b)
unfolding minus
minus-balance a b = ground arith

module _ {F : Type 0} ⦃num : Number F⦄ where
  abbrev pub x_raws : List (AllocationLeg F) → List ℕ
  x_raws legs = map (λ leg. leg.x_raw) legs

  skipped-sum :
      (b : Bool) (leg : AllocationLeg F) (legs : List (AllocationLeg F)) (x : ℕ)
      → leg.x_raw ≡ x
      → (b ≡ false → x ≡ 0)
      → sum (x_raws (if b then leg ∷ legs else legs)) ≡ x + sum (x_raws legs)
  unfolding sum
  skipped-sum true leg legs x h k = ap (λ n. n + sum (x_raws legs)) h
  skipped-sum false leg legs x h k = omega (arith, k refl)

  legs_of-sum :
      (curves : List (ReserveCurve F)) (amounts : List ℕ) (allocated : ℕ)
      → length curves ≡ length amounts
      → sum (x_raws (legs_of curves amounts allocated)) ≡ sum amounts
  unfolding legs_of leg_of sum
  legs_of-sum [] [] allocated h = refl
  legs_of-sum [] (x ∷ amounts) allocated h = absurd (omega arith)
  legs_of-sum (c ∷ curves) [] allocated h = absurd (omega arith)
  legs_of-sum (c ∷ curves) (x ∷ amounts) allocated h =
      skipped-sum (ltb 0 x) (leg_of c x allocated) (legs_of curves amounts allocated) x refl
        (λ e. ground arith)
      ∙ ap (λ n. x + n) (legs_of-sum curves amounts allocated (omega arith))

  raw_amounts-length :
      (solved : WaterFillResult F) (decimals : ℕ)
      → length solved.x_units ≡ length (raw_amounts solved decimals)
  unfolding raw_amounts
  raw_amounts-length solved decimals = sym (map-length _ solved.x_units)

  legs_of-positive :
      (curves : List (ReserveCurve F)) (amounts : List ℕ) (allocated : ℕ)
      → All (λ (leg : AllocationLeg F). 0 < leg.x_raw) (legs_of curves amounts allocated)
  unfolding legs_of leg_of
  legs_of-positive [] amounts allocated = tt
  legs_of-positive (c ∷ curves) [] allocated = tt
  legs_of-positive (c ∷ curves) (x ∷ amounts) allocated = elim (Bool-cases (ltb 0 x)) [
    | inl e ↦ rw (e, legs_of) ((ground arith), legs_of-positive curves amounts allocated)
    | inr e ↦ rw (e, legs_of) (legs_of-positive curves amounts allocated)
  ]

  -- A split of a budget: every leg gets something, the legs add up to what is allocated, and with
  -- what is not allocated to the budget.
  pub record Split (result : AllocationResult F) : Type 0 where
    pub positive : All (λ (leg : AllocationLeg F). 0 < leg.x_raw) result.allocations
    pub adds_up : sum (x_raws result.allocations) ≡ result.allocated_raw
    pub conserves :
        pos_part result.unallocated_raw + result.allocated_raw + neg_part result.budget_raw
        ≡ pos_part result.budget_raw + neg_part result.unallocated_raw

  finalize-sum :
      (curves : List (ReserveCurve F)) (solved : WaterFillResult F) (decimals budget iterations : ℕ)
      → length curves ≡ length solved.x_units
      → sum (x_raws (finalize curves solved decimals budget iterations).allocations)
        ≡ (finalize curves solved decimals budget iterations).allocated_raw
  unfolding finalize
  finalize-sum curves solved decimals budget iterations h =
      let amounts = raw_amounts solved decimals in
      let repaired = repair budget (length curves) amounts in
      sort-sum smaller_leg (λ leg. leg.x_raw) (legs_of curves repaired.amounts repaired.allocated)
      ∙ legs_of-sum curves repaired.amounts repaired.allocated (
          h
          ∙ raw_amounts-length solved decimals
          ∙ sym (repair-length budget (length curves) amounts))
      ∙ repair-sum budget (length curves) amounts

  finalize-positive :
      (curves : List (ReserveCurve F)) (solved : WaterFillResult F) (decimals budget iterations : ℕ)
      → All
          (λ (leg : AllocationLeg F). 0 < leg.x_raw)
          (finalize curves solved decimals budget iterations).allocations
  unfolding finalize
  finalize-positive curves solved decimals budget iterations =
      sort-All _ smaller_leg _ (legs_of-positive curves _ _)

  finalize-conserves :
      (curves : List (ReserveCurve F)) (solved : WaterFillResult F) (decimals budget iterations : ℕ)
      → (let result = finalize curves solved decimals budget iterations in
          pos_part result.unallocated_raw + result.allocated_raw + neg_part result.budget_raw
          ≡ pos_part result.budget_raw + neg_part result.unallocated_raw)
  unfolding finalize
  finalize-conserves curves solved decimals budget iterations = minus-balance budget _

  -- The legs together stay within the budget exactly when the raw amounts of the water-filling
  -- overshoot it by no more than one of them, whichever: only one amount is cut. With a larger
  -- overshoot more than the budget is allocated.
  pub finalize-bounds_iff :
      (curves : List (ReserveCurve F)) (solved : WaterFillResult F) (decimals budget iterations : ℕ)
      → length curves ≡ length solved.x_units
      → (sum (x_raws (finalize curves solved decimals budget iterations).allocations) ≤ budget) ↔ (
          (i : ℕ) × (sum (raw_amounts solved decimals)
            ≤ budget + amount_at i (raw_amounts solved decimals)))
  unfolding finalize
  finalize-bounds_iff curves solved decimals budget iterations same =
      rw (finalize-sum curves solved decimals budget iterations same)
        (repair-bounds_iff budget (length curves) (raw_amounts solved decimals))

  pub finalize-Split :
      (curves : List (ReserveCurve F)) (solved : WaterFillResult F) (decimals budget iterations : ℕ)
      → length curves ≡ length solved.x_units
      → Split (finalize curves solved decimals budget iterations)
  finalize-Split curves solved decimals budget iterations h = record {
    positive = finalize-positive curves solved decimals budget iterations;
    adds_up = finalize-sum curves solved decimals budget iterations h;
    conserves = finalize-conserves curves solved decimals budget iterations;
  }
