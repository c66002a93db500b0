-- ===== src/Js/Sort.antt =====
-- `xs.sort(compare)`: stable, by insertion. `later x y` is `compare(x, y) > 0`.
pub mod Batches
use looping_agent.Prelude.{
  Bool, List, [], ◌∷◌, if◌then◌else◌, All, ◌≡◌, true, false, Bool-cases, inl, inr, arith, Option,
  none, some, head?, filter, find,
}

module _ {ℓ} {A : Type ℓ} where
  unfoldable pub insert_sorted : (A → A → Bool) → A → List A → List A
  insert_sorted later x [] = x ∷ []
  insert_sorted later x (y ∷ ys) =
      let rest = insert_sorted later x ys in if later x y then y ∷ rest else x ∷ y ∷ ys

  unfoldable pub sort : (A → A → Bool) → List A → List A
  sort later [] = []
  sort later (x ∷ xs) = insert_sorted later x (sort later xs)

module _ {ℓ κ} {A : Type ℓ} (P : A → Type κ) where
  insert_sorted-All :
      (later : A → A → Bool) (x : A) (xs : List A)
      → P x
      → All P xs
      → All P (insert_sorted later x xs)
  unfolding insert_sorted
  insert_sorted-All later x [] p h = (p, h)
  insert_sorted-All later x (y ∷ ys) p h = elim (Bool-cases (later x y)) [
    | inl e ↦ rw e (h.0, insert_sorted-All later x ys p h.1)
    | inr e ↦ rw e (p, h)
  ]

  -- Sorting keeps what holds of every item.
  pub sort-All : (later : A → A → Bool) (xs : List A) → All P xs → All P (sort later xs)
  unfolding sort
  sort-All later [] h = h
  sort-All later (x ∷ xs) h = insert_sorted-All later x (sort later xs) h.0 (sort-All later xs h.1)

  pub head?-All : (xs : List A) (x : A) → head? xs ≡ some x → All P xs → P x
  head?-All [] x e h = cc
  head?-All (y ∷ ys) x e h = ground (arith, e, h)

module _ {ℓ} {A : Type ℓ} where
  pub filter-All : (p : A → Bool) (xs : List A) → All (λ x. p x ≡ true) (filter p xs)
  filter-All p [] = tt
  filter-All p (x ∷ xs) = elim (Bool-cases (p x)) [
    | inl e ↦ rw e (e, filter-All p xs)
    | inr e ↦ rw e (filter-All p xs)
  ]
