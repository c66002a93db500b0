-- ===== src/Js/Sort/Batches.antt =====
-- A stable sort of batches, each of one rank: the order in which the batches come does not matter.
use mathlib.Core.List.{Permᴰ}
use looping_agent.Prelude.{
  ℕ, ◌<◌, ◌≡◌, ◌≢◌, ◌⊎◌, inl, inr, refl, sym, ap, ◌∙◌, Bool, true, false, List, [], ◌∷◌, ◌++◌, All,
  Bool-cases, arith, ◌==◌, nat_eq, flat_map,
}
use looping_agent.Js.Sort.{insert_sorted, sort}

lower_or_greater : (m n : ℕ) → m ≢ n → (m < n) ⊎ (n < m)
lower_or_greater m n h = ground arith

-- An item of a greater rank is later, whatever decides among items of one rank.
pub record RankedBy {ℓ} {A : Type ℓ} (later : A → A → Bool) (rank : A → ℕ) : Type ℓ where
  pub above : (x y : A) → rank y < rank x → later x y ≡ true
  pub below : (x y : A) → rank x < rank y → later x y ≡ false

module _ {ℓ} {A : Type ℓ} (later : A → A → Bool) (rank : A → ℕ) (ranked : RankedBy later rank) where
  insert_all : List A → List A → List A
  insert_all [] s = s
  insert_all (x ∷ xs) s = insert_sorted later x (insert_all xs s)

  sort_append : (xs ys : List A) → sort later (xs ++ ys) ≡ insert_all xs (sort later ys)
  unfolding sort insert_all
  sort_append [] ys = refl
  sort_append (x ∷ xs) ys = ap (insert_sorted later x) (sort_append xs ys)

  -- What follows an item of a lower rank follows one of a greater rank.
  follows : (x y z : A) → rank y < rank x → later y z ≡ true → later x z ≡ true
  follows x y z h e = ranked.above x z (ground (arith, ranked.below y z))

  insert_lower :
      (x y : A) (l : List A)
      → rank y < rank x
      → insert_sorted later x (insert_sorted later y l)
        ≡ insert_sorted later y (insert_sorted later x l)
  unfolding insert_sorted
  insert_lower x y [] h = ground (arith, ranked.above x y h, ranked.below y x h)
  insert_lower x y (z ∷ l) h = elim (Bool-cases (later y z)) [
    | inl e ↦ rw e (rw (follows x y z h e) (rw e (ap (λ r. z ∷ r) (insert_lower x y l h))))
    | inr e ↦ ground (arith, e, ranked.above x y h, ranked.below y x h)
  ]

  insert_apart :
      (x y : A) (l : List A)
      → rank x ≢ rank y
      → insert_sorted later x (insert_sorted later y l)
        ≡ insert_sorted later y (insert_sorted later x l)
  insert_apart x y l h = elim (lower_or_greater (rank y) (rank x) (λ e. h (sym e))) [
    | inl e ↦ insert_lower x y l e
    | inr e ↦ sym (insert_lower y x l e)
  ]

  insert-insert_all :
      (x : A) (ys s : List A)
      → All (λ y. rank x ≢ rank y) ys
      → insert_sorted later x (insert_all ys s) ≡ insert_all ys (insert_sorted later x s)
  unfolding insert_all
  insert-insert_all x [] s h = refl
  insert-insert_all x (y ∷ ys) s h =
      insert_apart x y (insert_all ys s) h.0
      ∙ ap (insert_sorted later y) (insert-insert_all x ys s h.1)

  insert_all_twice :
      (xs ys s : List A)
      → All (λ x. All (λ y. rank x ≢ rank y) ys) xs
      → insert_all xs (insert_all ys s) ≡ insert_all ys (insert_all xs s)
  unfolding insert_all
  insert_all_twice [] ys s h = refl
  insert_all_twice (x ∷ xs) ys s h =
      ap (insert_sorted later x) (insert_all_twice xs ys s h.1)
      ∙ insert-insert_all x ys (insert_all xs s) h.0

  module _ {κ} {B : Type κ} (batch : B → List A) (rank_of : B → ℕ)
      (of_rank : (b : B) → All (λ x. rank x ≡ rank_of b) (batch b))
      (same_rank : (a b : B) → rank_of a ≡ rank_of b → a ≡ b) where
    apart_one :
        (x : A) (n : ℕ) (ys : List A)
        → rank x ≢ n
        → All (λ y. rank y ≡ n) ys
        → All (λ y. rank x ≢ rank y) ys
    apart_one x n [] k h = tt
    apart_one x n (y ∷ ys) k h = (λ e. k (e ∙ h.0), apart_one x n ys k h.1)

    apart :
        (m n : ℕ) (xs ys : List A)
        → m ≢ n
        → All (λ x. rank x ≡ m) xs
        → All (λ y. rank y ≡ n) ys
        → All (λ x. All (λ y. rank x ≢ rank y) ys) xs
    apart m n [] ys k h j = tt
    apart m n (x ∷ xs) ys k h j =
        (apart_one x n ys (λ e. k (sym h.0 ∙ e)) j, apart m n xs ys k h.1 j)

    swapped :
        (a b : B) (s : List A)
        → insert_all (batch a) (insert_all (batch b) s)
          ≡ insert_all (batch b) (insert_all (batch a) s)
    swapped a b s = elim (Bool-cases (rank_of a == rank_of b)) [
      | inl e ↦ rw (same_rank a b (ground (arith, e))) refl
      | inr e ↦ insert_all_twice (batch a) (batch b) s (
          apart (rank_of a) (rank_of b) (batch a) (batch b) (ground (arith, e)) (of_rank a)
            (of_rank b))
    ]

    sorted_cons :
        (b : B) (bs : List B)
        → sort later (flat_map batch (b ∷ bs))
          ≡ insert_all (batch b) (sort later (flat_map batch bs))
    sorted_cons b bs = sort_append (batch b) (flat_map batch bs)

    sorted_twice :
        (a b : B) (bs : List B)
        → sort later (flat_map batch (a ∷ b ∷ bs))
          ≡ insert_all (batch a) (insert_all (batch b) (sort later (flat_map batch bs)))
    sorted_twice a b bs = sorted_cons a (b ∷ bs) ∙ ap (insert_all (batch a)) (sorted_cons b bs)

    -- Sorted batches of distinct ranks are the same in every order of the batches.
    pub sort-Perm :
        (bs cs : List B)
        → Permᴰ bs cs
        → sort later (flat_map batch bs) ≡ sort later (flat_map batch cs)
    sort-Perm _ _ Permᴰ.nil = refl
    sort-Perm (a ∷ bs) (b ∷ cs) (Permᴰ.cons e d) =
        sorted_cons a bs
        ∙ ap (insert_all (batch a)) (sort-Perm bs cs d)
        ∙ sym (sorted_cons a cs)
        ∙ ap (λ c. sort later (flat_map batch (c ∷ cs))) e
    sort-Perm (a ∷ b ∷ l) (a' ∷ b' ∷ _) (Permᴰ.swap e e') =
        sorted_twice a b l
        ∙ swapped a b (sort later (flat_map batch l))
        ∙ sym (sorted_twice b a l)
        ∙ ap (λ c. sort later (flat_map batch (b ∷ c ∷ l))) e
        ∙ ap (λ c. sort later (flat_map batch (c ∷ b' ∷ l))) e'
    sort-Perm bs cs (Permᴰ.trans d d') = sort-Perm bs _ d ∙ sort-Perm _ cs d'
