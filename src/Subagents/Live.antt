-- ===== src/Subagents/Live.antt =====
-- The live execution of `claimAndExecuteAcceptedPlan`: the calls of the wallet and the lending
-- clients, in order, each of which may throw, and the legs that are confirmed on the way. What the
-- calls answer is a parameter.
use looping_agent.Prelude.{String, Bool, ◌&&◌, some, List, [], ◌∷◌, ◌==◌, string_eq, if◌then◌else◌}
use looping_agent.Types.{protocol_eq}
use looping_agent.StrategyLedger.Status.{is_existing, LegAction, LegStatus, action_eq, leg_eq}
use looping_agent.StrategyLedger.{LoopStrategyProposal, ExecutionLegReceipt}

-- A call that returns, or throws an error with a message.
pub data Call (A : Type 0) : Type 0 where
  returns : A → Call A
  throws : String → Call A

-- The answers, in the order of the calls; a supply and a borrow answer with a digest.
pub record LiveCalls : Type 0 where
  pub assert_wallet_matches : Call (Unit {0})
  pub collateral_supply : Call String
  pub get_positions : Call (Unit {0})
  pub borrow : Call String
  pub target_supply : Call String

abbrev pub Legs : Type 0
Legs = List ExecutionLegReceipt

-- The body of the `try`: an exception leaves the legs as they are by then.
abbrev pub Live : Type 0 → Type 0
Live A = Legs → Call A × Legs

infixl 5 ◌>>=◌ ◌>>◌
abbrev pub ◌>>=◌ : {A B : Type 0} → Live A → (A → Live B) → Live B
◌>>=◌ m f legs =
    let (r, legs') = m legs in elim r [ returns a ↦ f a legs' | throws e ↦ (throws e, legs') ]

abbrev pub ◌>>◌ : {A B : Type 0} → Live A → Live B → Live B
m >> k = m >>= λ _. k

abbrev pub await : {A : Type 0} → Call A → Live A
await c legs = (c, legs)

abbrev pub skip : Live (Unit {0})
skip legs = (returns tt, legs)

-- `confirmedLeg`
unfoldable pub confirmed_leg : String → ExecutionLegReceipt → ExecutionLegReceipt
confirmed_leg digest leg = record leg { status = LegStatus.confirmed; digest = some digest }

-- `legs[legs.findIndex(test)] = confirmedLeg(…)`, which throws where no leg passes the test.
unfoldable pub set_confirmed : (ExecutionLegReceipt → Bool) → String → Live (Unit {0})
set_confirmed test digest [] = (throws "Missing execution leg", [])
set_confirmed test digest (leg ∷ legs) =
    let (r, legs') = set_confirmed test digest legs in
    if test leg then (returns tt, confirmed_leg digest leg ∷ legs) else (r, leg ∷ legs')

abbrev pub is_borrow_leg : ExecutionLegReceipt → Bool
is_borrow_leg leg = leg.action == LegAction.borrow

module _ {F : Type 0} where
  abbrev pub is_collateral_leg : LoopStrategyProposal F → ExecutionLegReceipt → Bool
  is_collateral_leg p leg = leg.action == LegAction.supply && leg.asset == p.collateral_asset

  abbrev pub is_target_leg : LoopStrategyProposal F → ExecutionLegReceipt → Bool
  is_target_leg p leg = leg.action == LegAction.supply && leg.protocol == p.supply_target_protocol

  unfoldable pub supply_collateral : LoopStrategyProposal F → LiveCalls → Live (Unit {0})
  supply_collateral p calls =
      if is_existing p.proposal_type
      then skip
      else (do digest ← await calls.collateral_supply; set_confirmed (is_collateral_leg p) digest)

  unfoldable pub execute_live : LoopStrategyProposal F → LiveCalls → Live (Unit {0})
  execute_live p calls = do
    await calls.assert_wallet_matches
    supply_collateral p calls
    await calls.get_positions
    borrowed ← await calls.borrow
    set_confirmed is_borrow_leg borrowed
    supplied ← await calls.target_supply
    set_confirmed (is_target_leg p) supplied

-- The `catch`: a leg that was submitted has failed.
unfoldable pub fail_submitted : ExecutionLegReceipt → ExecutionLegReceipt
fail_submitted leg =
    if leg.status == LegStatus.submitted then record leg { status = LegStatus.failed } else leg
