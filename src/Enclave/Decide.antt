-- ===== src/Enclave/Decide.antt =====
-- `decide` of enclave/app/decide.ts: a signed intent for each leg of the allocation. The hash of the
-- curves and the signature are parameters; both are computed by a library.
use looping_agent.Prelude.{
  ℕ, zero, suc, ◌+◌, String, none, some, List, [], ◌∷◌, filter, ltb, if◌then◌else◌,
}
use looping_agent.Js.Int.{ℤ}
use looping_agent.Js.Number.{Number}
use looping_agent.Types.{LendingProtocol, suilend, navi, scallop}
use looping_agent.Subagents.Live.{Call, returns, throws}
use looping_agent.Allocation.Curve.{ReserveCurve}
use looping_agent.Allocation.Finalize.{AllocationLeg, AllocationResult}
use looping_agent.Allocation.Solve.{solve_allocation}
use looping_agent.Enclave.Bytes.{Bytes}
use looping_agent.Enclave.Envelopes.{ActionIntent}

pub record DecideInput (F : Type 0) : Type 0 where
  pub curves : List (ReserveCurve F)
  pub deposit_raw : ℤ
  pub treasury_id : String
  pub agent_cap_id : String
  pub per_tx_cap_raw : ℕ
  pub nonce : ℕ
  pub expires_at_ms : ℕ
  pub asset_type : Bytes
  pub chain_id : Bytes
  pub timestamp_ms : ℕ

pub record SignedLeg : Type 0 where
  pub intent : ActionIntent
  pub signature : String

pub record Decided (F : Type 0) : Type 0 where
  pub legs : List SignedLeg
  pub allocation : AllocationResult F

-- `PROTOCOL_ID[protocol]`
unfoldable pub protocol_id : LendingProtocol → ℕ
protocol_id suilend = 0
protocol_id scallop = 1
protocol_id navi = 2

-- `new Uint8Array(n).fill(0)`
unfoldable pub zeros : ℕ → Bytes
zeros zero = []
zeros (suc n) = 0 ∷ zeros n

abbrev pub smaller_of : ℕ → ℕ → ℕ
smaller_of a b = if ltb a b then a else b

unfoldable pub prepend : ActionIntent → Call String → Call (List SignedLeg) → Call (List SignedLeg)
prepend intent (throws e) rest = throws e
prepend intent (returns signature) (throws e) = throws e
prepend intent (returns signature) (returns legs) =
    returns (record { intent = intent; signature = signature } ∷ legs)

-- Signs the intents in order; an error of a signature ends the decision.
unfoldable pub sign_all :
    (ActionIntent → ℕ → Call String) → ℕ → List ActionIntent → Call (List SignedLeg)
sign_all sign timestamp [] = returns []
sign_all sign timestamp (intent ∷ intents) =
    prepend intent (sign intent timestamp) (sign_all sign timestamp intents)

module _ {F : Type 0} where
  -- The intent of the leg at `i`.
  unfoldable pub intent_of : DecideInput F → Bytes → ℕ → AllocationLeg F → ActionIntent
  intent_of input input_hash i leg = record {
    schema_version = 1;
    chain_id = input.chain_id;
    treasury_id = input.treasury_id;
    agent_cap_id = input.agent_cap_id;
    nonce = input.nonce + i;
    expires_at_ms = input.expires_at_ms;
    action_kind = 0;
    protocol_id = protocol_id leg.protocol;
    asset_type = input.asset_type;
    amount = smaller_of leg.x_raw input.per_tx_cap_raw;
    min_health_factor_bps = 0;
    max_protocol_exposure = 0;
    policy_hash = zeros 32;
    input_hash = input_hash;
    rationale_hash = zeros 32;
  }

  unfoldable pub intents_from :
      DecideInput F → Bytes → ℕ → List (AllocationLeg F) → List ActionIntent
  intents_from input input_hash i [] = []
  intents_from input input_hash i (leg ∷ legs) =
      intent_of input input_hash i leg ∷ intents_from input input_hash (suc i) legs

  abbrev pub funded_legs : AllocationResult F → List (AllocationLeg F)
  funded_legs result = filter (λ leg. ltb 0 leg.x_raw) result.allocations

  unfoldable pub with_legs : AllocationResult F → Call (List SignedLeg) → Call (Decided F)
  with_legs result (throws e) = throws e
  with_legs result (returns legs) = returns (record { legs = legs; allocation = result })

module _ {F : Type 0} ⦃num : Number F⦄ where
  unfoldable pub allocate : DecideInput F → AllocationResult F
  allocate input = solve_allocation (record {
    curves = input.curves;
    budget_raw = input.deposit_raw;
    per_protocol_cap_raw = some input.per_tx_cap_raw;
    min_position_raw = none;
  })

module _ {F : Type 0} ⦃num : Number F⦄ (hash : List (ReserveCurve F) → Bytes)
    (sign : ActionIntent → ℕ → Call String) where
  unfoldable pub sign_funded :
      DecideInput F → AllocationResult F → List (AllocationLeg F) → Call (Decided F)
  sign_funded input result [] = throws "decide: solveAllocation returned no funded allocation legs"
  sign_funded input result (leg ∷ legs) =
      with_legs result
        (sign_all sign input.timestamp_ms (intents_from input (hash input.curves) 0 (leg ∷ legs)))

  unfoldable pub decide : DecideInput F → Call (Decided F)
  decide input = let result = allocate input in sign_funded input result (funded_legs result)
