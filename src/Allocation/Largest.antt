-- ===== src/Allocation/Largest.antt =====
-- `largestIndex`: the amount at its index is the largest.
use looping_agent.Prelude.{
  ℕ, zero, suc, ◌+◌, ◌≤◌, ◌≡◌, inl, inr, refl, ap, ◌∙◌, Bool-cases, List, [], ◌∷◌, ltb, arith,
}
use looping_agent.Allocation.Finalize.{amount_at, largest_from, largest_index}

-- Where the loop stands: the largest so far, and `values` as what is left of the amounts `xs`.
record Searching (xs : List ℕ) (idx current i : ℕ) (values : List ℕ) : Type 0 where
  found : amount_at idx xs ≡ current
  left : (j : ℕ) → amount_at (i + j) xs ≡ amount_at j values

next_index : (i j : ℕ) → suc i + j ≡ i + suc j
next_index i j = omega arith

one_more : (k : ℕ) → 1 + k ≡ suc k
one_more k = omega arith

pass :
    {xs : List ℕ} {idx current i value : ℕ} {values : List ℕ}
    → Searching xs idx current i (value ∷ values)
    → Searching xs idx current (suc i) values
unfolding amount_at
pass {xs} {i = i} s = record {
  found = s.found;
  left = λ j. ap (λ k. amount_at k xs) (next_index i j) ∙ s.left (suc j);
}

replace :
    {xs : List ℕ} {idx current i value : ℕ} {values : List ℕ}
    → Searching xs idx current i (value ∷ values)
    → Searching xs i value (suc i) values
unfolding amount_at
replace {xs} {i = i} s = record {
  found = ap (λ k. amount_at k xs) (omega arith) ∙ s.left zero;
  left = λ j. ap (λ k. amount_at k xs) (next_index i j) ∙ s.left (suc j);
}

covers :
    (m value : ℕ) (values : List ℕ)
    → value ≤ m
    → ((j : ℕ) → amount_at j values ≤ m)
    → (j : ℕ) → amount_at j (value ∷ values) ≤ m
unfolding amount_at
covers m value values h k zero = h
covers m value values h k (suc j) = k j

largest_from-covers :
    (xs : List ℕ) (idx current i : ℕ) (values : List ℕ)
    → Searching xs idx current i values
    → (current ≤ amount_at (largest_from idx current i values) xs)
      × ((j : ℕ) → amount_at j values ≤ amount_at (largest_from idx current i values) xs)
unfolding largest_from amount_at
largest_from-covers xs idx current i [] s = (omega (arith, s.found), λ j. omega arith)
largest_from-covers xs idx current i (value ∷ values) s = elim (Bool-cases (ltb current value)) [
  | inl e ↦
      let rest = largest_from-covers xs i value (suc i) values (replace s) in
      rw (e, largest_from) ((ground (arith, rest.0)), covers _ value values rest.0 rest.1)
  | inr e ↦
      let rest = largest_from-covers xs idx current (suc i) values (pass s) in
      rw (e, largest_from) (rest.0, covers _ value values (ground (arith, rest.0)) rest.1)
]

pub largest_index-is_largest :
    (xs : List ℕ) (j : ℕ) → amount_at j xs ≤ amount_at (largest_index xs) xs
unfolding largest_index amount_at
largest_index-is_largest [] j = omega arith
largest_index-is_largest (x ∷ xs) j =
    let searched =
      largest_from-covers (x ∷ xs) 0 x 1 xs
        (record { found = refl; left = λ k. ap (λ n. amount_at n (x ∷ xs)) (one_more k) }) in
    covers _ x xs searched.0 searched.1 j
