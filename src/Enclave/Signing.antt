-- ===== src/Enclave/Signing.antt =====
-- What the enclave signs: intents in order, within the cap and within what is allocated.
use looping_agent.Prelude.{
  ℕ, zero, suc, ◌+◌, ◌≤◌, ◌<◌, ◌≡◌, refl, sym, ap, ◌∙◌, String, List, [], ◌∷◌, map, filter, length,
  All, ltb, arith, Bool-cases, inl, inr,
}
use looping_agent.Js.Int.{pos_part, neg_part}
use looping_agent.Js.Number.{Number}
use looping_agent.Subagents.Live.{Call, returns, throws}
use looping_agent.Allocation.Curve.{ReserveCurve}
use looping_agent.Allocation.Finalize.{AllocationLeg, AllocationResult, sum}
use looping_agent.Allocation.Balance.{Split, x_raws}
use looping_agent.Allocation.Solved.{solve_allocation-Split, solve_allocation-budget_raw}
use looping_agent.Enclave.Bytes.{Bytes}
use looping_agent.Enclave.Envelopes.{ActionIntent}
use looping_agent.Enclave.Decide.{
  DecideInput, SignedLeg, Decided, smaller_of, prepend, sign_all, intent_of, intents_from,
  funded_legs, with_legs, allocate, sign_funded, decide,
}

-- `n`, `n + 1` and so on.
unfoldable pub count_from : ℕ → ℕ → List ℕ
count_from n zero = []
count_from n (suc k) = n ∷ count_from (suc n) k

smaller_of-le : (a b : ℕ) → (smaller_of a b ≤ a) × (smaller_of a b ≤ b)
smaller_of-le a b = (ground arith, ground arith)

-- What is asked of intents, from the nonce `n` on.
pub record Orderly (cap budget n : ℕ) (intents : List ActionIntent) : Type 0 where
  pub capped : All (λ (intent : ActionIntent). intent.amount ≤ cap) intents
  pub total : sum (map (λ (intent : ActionIntent). intent.amount) intents) ≤ budget
  pub sequential :
      map (λ (intent : ActionIntent). intent.nonce) intents ≡ count_from n (length intents)

abbrev intents_in : Call (List SignedLeg) → List ActionIntent
intents_in (throws e) = []
intents_in (returns legs) = map (λ (leg : SignedLeg). leg.intent) legs

prepend-inv :
    (intent : ActionIntent) (signature : Call String) (rest : Call (List SignedLeg))
    (legs : List SignedLeg)
    → prepend intent signature rest ≡ returns legs
    → (others : List SignedLeg) × (rest ≡ returns others)
      × (intents_in (returns legs) ≡ intent ∷ intents_in (returns others))
unfolding prepend
prepend-inv intent (throws e) rest legs h = cc
prepend-inv intent (returns signature) (throws e) legs h = cc
prepend-inv intent (returns signature) (returns others) legs h =
    (others, refl, ap intents_in (sym h))

sign_all-intents :
    (sign : ActionIntent → ℕ → Call String) (timestamp : ℕ) (intents : List ActionIntent)
    (legs : List SignedLeg)
    → sign_all sign timestamp intents ≡ returns legs
    → intents_in (returns legs) ≡ intents
unfolding sign_all
sign_all-intents sign timestamp [] legs h = ap intents_in (sym h)
sign_all-intents sign timestamp (intent ∷ intents) legs h =
    let (others, e, same) = prepend-inv intent _ _ legs h in
    same ∙ ap (λ rest. intent ∷ rest) (sign_all-intents sign timestamp intents others e)

weaken-Orderly :
    (cap budget allocated n : ℕ) (intents : List ActionIntent)
    → budget ≤ allocated
    → Orderly cap budget (n + 0) intents
    → Orderly cap allocated n intents
weaken-Orderly cap budget allocated n intents h o = record {
  capped = o.capped;
  total = omega (arith, h, o.total);
  sequential = o.sequential ∙ ap (λ k. count_from k (length intents)) (omega arith);
}

next_nonce : (n i : ℕ) → n + suc i ≡ suc (n + i)
next_nonce n i = omega arith

module _ {F : Type 0} ⦃num : Number F⦄ where
  intents_from-Orderly :
      (input : DecideInput F) (hash : Bytes) (i : ℕ) (legs : List (AllocationLeg F))
      → Orderly input.per_tx_cap_raw
          (sum (x_raws legs))
          (input.nonce + i)
          (intents_from input hash i legs)
  unfolding intents_from intent_of sum count_from
  intents_from-Orderly input hash i [] = record {
    capped = tt;
    total = omega arith;
    sequential = refl;
  }
  intents_from-Orderly input hash i (leg ∷ legs) =
      let rest = intents_from-Orderly input hash (suc i) legs in
      let small = smaller_of-le leg.x_raw input.per_tx_cap_raw in
      record {
        capped = (small.1, rest.capped);
        total = omega (arith, rest.total, small.0);
        sequential =
            ap (λ ns. (input.nonce + i) ∷ ns)
              (rest.sequential
                ∙ ap (λ n. count_from n (length (intents_from input hash (suc i) legs)))
                    (next_nonce input.nonce i));
      }

  funded-sum :
      (legs : List (AllocationLeg F))
      → sum (x_raws (filter (λ (leg : AllocationLeg F). ltb 0 leg.x_raw) legs)) ≤ sum (x_raws legs)
  unfolding sum
  funded-sum [] = omega arith
  funded-sum (leg ∷ legs) = elim (Bool-cases (ltb 0 leg.x_raw)) [
    | inl e ↦ rw e (omega (arith, funded-sum legs))
    | inr e ↦ rw e (omega (arith, funded-sum legs))
  ]

  -- A decision: some leg, and intents in order within the cap and the allocated amount, of an
  -- allocation of the deposit.
  pub record WithinAllocation (input : DecideInput F) (decided : Decided F) : Type 0 where
    pub orderly :
        Orderly input.per_tx_cap_raw decided.allocation.allocated_raw input.nonce
          (intents_in (returns decided.legs))
    pub split : Split decided.allocation
    pub of_deposit : decided.allocation.budget_raw ≡ input.deposit_raw
    pub of_deposit_total :
        sum (map (λ (intent : ActionIntent). intent.amount) (intents_in (returns decided.legs)))
        ≤ pos_part input.deposit_raw + neg_part decided.allocation.unallocated_raw
    pub some_leg : 0 < length (intents_in (returns decided.legs))

  with_legs-inv :
      (result : AllocationResult F) (signed : Call (List SignedLeg)) (decided : Decided F)
      → with_legs result signed ≡ returns decided
      → (legs : List SignedLeg) × (signed ≡ returns legs)
        × (decided ≡ record { legs = legs; allocation = result })
  unfolding with_legs
  with_legs-inv result (throws e) decided h = cc
  with_legs-inv result (returns legs) decided h = (legs, refl, cc)

  module _ (hash : List (ReserveCurve F) → Bytes) (sign : ActionIntent → ℕ → Call String) where
    signed-WithinAllocation :
        (input : DecideInput F) (result : AllocationResult F) (legs : List (AllocationLeg F))
        (decided : Decided F)
        → Split result
        → result.budget_raw ≡ input.deposit_raw
        → sum (x_raws legs) ≤ result.allocated_raw
        → sign_funded hash sign input result legs ≡ returns decided
        → WithinAllocation input decided
    unfolding sign_funded intents_from
    signed-WithinAllocation input result [] decided split of_deposit h e = cc
    signed-WithinAllocation input result (leg ∷ legs) decided split of_deposit h e =
        let (signed, ok, same) = with_legs-inv result _ decided e in
        let intents = sign_all-intents sign input.timestamp_ms _ signed ok in
        let orderly = intents_from-Orderly input (hash input.curves) 0 (leg ∷ legs) in
        rw same (record {
          orderly = rw intents (weaken-Orderly _ _ _ _ _ h orderly);
          split = split;
          of_deposit = of_deposit;
          of_deposit_total =
              rw intents (omega (arith, orderly.total, h, split.conserves, ap pos_part of_deposit));
          some_leg = rw intents (omega arith);
        })

    allocate-Split : (input : DecideInput F) → Split (allocate input)
    unfolding allocate
    allocate-Split input = solve_allocation-Split _

    allocate-of_deposit : (input : DecideInput F) → (allocate input).budget_raw ≡ input.deposit_raw
    unfolding allocate
    allocate-of_deposit input = solve_allocation-budget_raw _

    -- When `decide` returns, there is an intent; the intents' amounts are each within the cap of a
    -- transaction and together within the allocated amount; their nonces count up from the given
    -- one; and the allocation is a split of the deposit. The amounts together are therefore within
    -- the deposit unless the allocation overshoots it, which its `unallocated_raw` shows by being
    -- negative, and then they exceed it by no more than that.
    pub decide-WithinAllocation :
        (input : DecideInput F) (decided : Decided F)
        → decide hash sign input ≡ returns decided
        → WithinAllocation input decided
    unfolding decide
    decide-WithinAllocation input decided e =
        signed-WithinAllocation input (allocate input) (funded_legs (allocate input)) decided
          (allocate-Split input) (allocate-of_deposit input)
          (omega (arith, funded-sum (allocate input).allocations, (allocate-Split input).adds_up)) e
