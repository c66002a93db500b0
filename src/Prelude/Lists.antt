-- ===== src/Prelude/Lists.antt =====
-- Lists measured by native numbers, and the list methods of the program: `find`, `some`, `slice`,
-- and a write through the object that `find` returns.
use Prim.Native.Nat.{ℕ, zero, suc, ◌+◌, ◌≤◌, ◌<◌}
use mathlib.Core.Path.{◌≡◌, refl, ap}
use mathlib.Core.Logic.{◌↔◌}
use mathlib.Core.Bool.{Bool, true, false, ◌||◌}
use mathlib.Core.Option.{Option, none, some}
use mathlib.Core.List.{List, [], ◌∷◌, ◌++◌, map}
use native.Mathlib.Omega.{arith}
use looping_agent.Prelude.Tests.{if◌then◌else◌}

module _ {ℓ} {A : Type ℓ} where
  abbrev pub length : List A → ℕ
  length [] = 0
  length (x ∷ xs) = suc (length xs)

  -- `xs.slice(0, n)`
  abbrev pub take : ℕ → List A → List A
  take zero xs = []
  take (suc n) [] = []
  take (suc n) (x ∷ xs) = x ∷ take n xs

  -- `xs[0]`
  abbrev pub head? : List A → Option A
  head? [] = none
  head? (x ∷ xs) = some x

  -- `xs.find(p)`
  abbrev pub find : (A → Bool) → List A → Option A
  find p [] = none
  find p (x ∷ xs) = if p x then some x else find p xs

  -- `xs.some(p)`
  abbrev pub any : (A → Bool) → List A → Bool
  any p [] = false
  any p (x ∷ xs) = p x || any p xs

  -- `xs.filter(p)`
  abbrev pub filter : (A → Bool) → List A → List A
  filter p [] = []
  filter p (x ∷ xs) = let rest = filter p xs in if p x then x ∷ rest else rest

  -- A write through the reference that `xs.find(p)` returns.
  abbrev pub update_first : (A → Bool) → (A → A) → List A → List A
  update_first p f [] = []
  update_first p f (x ∷ xs) = if p x then f x ∷ xs else x ∷ update_first p f xs

  -- `xs.filter(p).length`
  abbrev pub count : (A → Bool) → List A → ℕ
  count p [] = 0
  count p (x ∷ xs) = (if p x then 1 else 0) + count p xs

module _ {ℓ} {A : Type ℓ} where
  pub length-take-le : (n : ℕ) (xs : List A) → length (take n xs) ≤ n
  length-take-le zero xs = omega arith
  length-take-le (suc n) [] = omega arith
  length-take-le (suc n) (x ∷ xs) = omega (arith, length-take-le n xs)

  pub count-take-le : (p : A → Bool) (n : ℕ) (xs : List A) → count p (take n xs) ≤ count p xs
  count-take-le p zero xs = omega arith
  count-take-le p (suc n) [] = omega arith
  count-take-le p (suc n) (x ∷ xs) = omega (arith, count-take-le p n xs)

  pub any-eq-false_of_count : (p : A → Bool) (xs : List A) → count p xs ≡ 0 → any p xs ≡ false
  any-eq-false_of_count p [] h = refl
  any-eq-false_of_count p (x ∷ xs) h = ground (arith, any-eq-false_of_count p xs)

  -- A write to an item that passes no new test counts no more.
  pub count-update_first-le :
      (q p : A → Bool) (f : A → A) (xs : List A)
      → ((x : A) → p x ≡ true → q (f x) ≡ true → q x ≡ true)
      → count q (update_first p f xs) ≤ count q xs
  count-update_first-le q p f [] h = omega arith
  count-update_first-le q p f (x ∷ xs) h = ground (arith, h x, count-update_first-le q p f xs h)

  pub length-update_first :
      (p : A → Bool) (f : A → A) (xs : List A) → length (update_first p f xs) ≡ length xs
  length-update_first p f [] = refl
  length-update_first p f (x ∷ xs) = ground (arith, length-update_first p f xs)

  pub count-map-le :
      (q : A → Bool) (f : A → A) (xs : List A)
      → ((x : A) → q (f x) ≡ true → q x ≡ true)
      → count q (map f xs) ≤ count q xs
  count-map-le q f [] h = omega arith
  count-map-le q f (x ∷ xs) h = ground (arith, h x, count-map-le q f xs h)

module _ {ℓ} where
  abbrev pub All {κ} : {A : Type ℓ} → (A → Type κ) → List A → Type κ
  All P [] = Unit
  All P (x ∷ xs) = P x × All P xs

module _ {ℓ} {A : Type ℓ} where
  pub length-filter : (p : A → Bool) (xs : List A) → length (filter p xs) ≡ count p xs
  length-filter p [] = refl
  length-filter p (x ∷ xs) = ground (arith, length-filter p xs)

  -- A write through what `find` returns, where only that item is known.
  pub count-update_first_found :
      (q p : A → Bool) (f : A → A) (xs : List A) {c : A}
      → find p xs ≡ some c
      → (q (f c) ≡ true → q c ≡ true)
      → count q (update_first p f xs) ≤ count q xs
  count-update_first_found q p f [] h k = cc
  count-update_first_found q p f (x ∷ xs) {c} h k =
      ground (arith, count-update_first_found q p f xs {c = c})

  pub find_sound : (p : A → Bool) (xs : List A) {c : A} → find p xs ≡ some c → p c ≡ true
  find_sound p [] h = cc
  find_sound p (x ∷ xs) {c} h = ground (arith, find_sound p xs {c = c})

  pub count-pos_of_find :
      (q p : A → Bool) (xs : List A) {c : A} → find p xs ≡ some c → q c ≡ true → 0 < count q xs
  count-pos_of_find q p [] h k = cc
  count-pos_of_find q p (x ∷ xs) {c} h k = ground (arith, count-pos_of_find q p xs {c = c})

  pub any_iff_count : (p : A → Bool) (xs : List A) → (any p xs ≡ true) ↔ (0 < count p xs)
  any_iff_count p [] = ground arith
  any_iff_count p (x ∷ xs) = ground (arith, any_iff_count p xs)

  pub take-eq_self : (n : ℕ) (xs : List A) → length xs ≤ n → take n xs ≡ xs
  take-eq_self zero [] h = refl
  take-eq_self zero (x ∷ xs) h = absurd (omega arith)
  take-eq_self (suc n) [] h = refl
  take-eq_self (suc n) (x ∷ xs) h = ap (λ r. x ∷ r) (take-eq_self n xs (omega arith))

  -- A write through `find` that makes an item pass a test, or leaves one that passes.
  pub any-update_first :
      (q p : A → Bool) (f : A → A) (xs : List A) {c : A}
      → find p xs ≡ some c
      → ((x : A) → p x ≡ true → q (f x) ≡ true)
      → any q (update_first p f xs) ≡ true
  any-update_first q p f [] h k = cc
  any-update_first q p f (x ∷ xs) {c} h k = ground (arith, k x, any-update_first q p f xs {c = c})

  -- A write through `find` that ends a test for its item.
  pub count-update_first_ends :
      (q p : A → Bool) (f : A → A) (xs : List A) {c : A}
      → find p xs ≡ some c
      → q c ≡ true
      → q (f c) ≡ false
      → suc (count q (update_first p f xs)) ≡ count q xs
  count-update_first_ends q p f [] h k e = cc
  count-update_first_ends q p f (x ∷ xs) {c} h k e =
      ground (arith, count-update_first_ends q p f xs {c = c})

  pub count_mono :
      (q r : A → Bool) (xs : List A) → ((x : A) → q x ≡ true → r x ≡ true) → count q xs ≤ count r xs
  count_mono q r [] h = omega arith
  count_mono q r (x ∷ xs) h = ground (arith, h x, count_mono q r xs h)

-- `xs.flatMap(f)`
abbrev pub flat_map {ℓ κ} : {A : Type ℓ} {B : Type κ} → (A → List B) → List A → List B
flat_map f [] = []
flat_map f (x ∷ xs) = f x ++ flat_map f xs
