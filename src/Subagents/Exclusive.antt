-- ===== src/Subagents/Exclusive.antt =====
-- A claim on the ledger that a live claim leaves.
use looping_agent.Prelude.{
  ℕ, ◌≤◌, ◌≡◌, ◌≢◌, refl, Bool, true, false, Option, none, some, arith, ◌==◌, string_eq, find,
  count, count_mono, count-update_first_ends, suc,
}
use looping_agent.Types.{AppConfig}
use looping_agent.StrategyLedger.Status.{accepted, plan_eq}
use looping_agent.StrategyLedger.{
  AcceptedPlan, LoopStrategyProposal, StrategyLedger, is_opening_plan,
}
use looping_agent.Subagents.Claim.{
  ExecutorOptions, claim, claim_candidate, claim_proposal, claimed_plan, selects,
}
use looping_agent.Subagents.OneActivePlan.{opening_plans}

none_of_not_some {ℓ} : {A : Type ℓ} (o : Option A) → ((a : A) → o ≢ some a) → o ≡ none
none_of_not_some none h = refl
none_of_not_some (some a) h = absurd (h a refl)

module _ {F : Type 0} where
  abbrev pub is_waiting : AcceptedPlan F → Bool
  is_waiting plan = plan.status == accepted

  abbrev pub waiting_plans : StrategyLedger F → ℕ
  waiting_plans ledger = count is_waiting ledger.accepted_plans

  -- A live claim takes a plan only if a plan was waiting, and then one plan fewer is waiting.
  claim_proposal-takes :
      (config : AppConfig F) (options : ExecutorOptions) (now : ℕ) (plan : AcceptedPlan F)
      (p : Option (LoopStrategyProposal F)) (ledger : StrategyLedger F)
      (taken : AcceptedPlan F × LoopStrategyProposal F)
      → find (selects config options now) ledger.accepted_plans ≡ some plan
      → is_waiting plan ≡ true
      → (claim_proposal config options now plan p ledger).1 ≡ some taken
      → suc (waiting_plans (claim_proposal config options now plan p ledger).0)
        ≡ waiting_plans ledger
  unfolding claim_proposal claimed_plan
  claim_proposal-takes config options now plan none ledger taken h w e = cc
  claim_proposal-takes config options now plan (some p) ledger taken h w e =
      count-update_first_ends is_waiting (selects config options now) _ ledger.accepted_plans h w
        refl

  claim_candidate-takes :
      (config : AppConfig F) (options : ExecutorOptions) (now : ℕ) (plan : Option (AcceptedPlan F))
      (ledger : StrategyLedger F) (taken : AcceptedPlan F × LoopStrategyProposal F)
      → config.runtime.dry_run ≡ false
      → find (selects config options now) ledger.accepted_plans ≡ plan
      → (claim_candidate config options now plan ledger).1 ≡ some taken
      → suc (waiting_plans (claim_candidate config options now plan ledger).0)
        ≡ waiting_plans ledger
  unfolding claim_candidate
  claim_candidate-takes config options now none ledger taken live h e = cc
  claim_candidate-takes config options now (some plan) ledger taken live h e = ground (
    arith,
    live,
    claim_proposal-takes config options now plan
        (find (λ q. q.id == plan.proposal_id) ledger.strategy_proposals) ledger taken h,
  )

  pub claim-takes :
      (config : AppConfig F) (options : ExecutorOptions) (now : ℕ) (ledger : StrategyLedger F)
      (taken : AcceptedPlan F × LoopStrategyProposal F)
      → config.runtime.dry_run ≡ false
      → (claim config options now ledger).1 ≡ some taken
      → suc (waiting_plans (claim config options now ledger).0) ≡ waiting_plans ledger
  unfolding claim
  claim-takes config options now ledger taken live e =
      claim_candidate-takes config options now _ ledger taken live refl e

  -- In live mode, from a ledger with at most one plan that is accepted or executing: on the ledger
  -- that a successful claim leaves, with no other update between, a second claim by any run, for any
  -- plan, takes nothing. That holds at any time of the second claim, also after the first claim has
  -- expired.
  pub claim_is_exclusive :
      (config : AppConfig F) (first second : ExecutorOptions) (now later : ℕ)
      (ledger : StrategyLedger F) (taken : AcceptedPlan F × LoopStrategyProposal F)
      → config.runtime.dry_run ≡ false
      → opening_plans ledger ≤ 1
      → (claim config first now ledger).1 ≡ some taken
      → (claim config second later (claim config first now ledger).0).1 ≡ none
  claim_is_exclusive config first second now later ledger taken live one e =
      none_of_not_some _ λ other e'. absurd (
        omega (
          arith,
          claim-takes config first now ledger taken live e,
          claim-takes config second later (claim config first now ledger).0 other live e',
          count_mono is_waiting is_opening_plan ledger.accepted_plans (λ plan w. ground arith),
        ))
