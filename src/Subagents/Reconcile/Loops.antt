-- ===== src/Subagents/Reconcile/Loops.antt =====
-- The reconciliation of expired claims: the loops that it records, and the claims that it leaves.
use looping_agent.Prelude.{
  ℕ, ◌≡◌, inl, inr, refl, String, Bool, true, false, Option, some, List, [], ◌∷◌, sym, arith, ◌==◌,
  string_eq, find, any, count, any_iff_count, eq_iff, Bool-cases, Option-cases, if◌then◌else◌,
}
use looping_agent.Js.Number.{Number}
use looping_agent.Types.{AppConfig}
use looping_agent.StrategyLedger.{
  PositionSnapshot, LoopStrategyProposal, AcceptedPlan, LoopPosition, StrategyLedger,
  latest_position_snapshot,
}
use looping_agent.Subagents.Reconcile.{
  opened_loop, Reconciled, claim_expired, confirm_plan, cancel_plan, reconcile_expired,
  reconcile_plan, reconcile_plans, reconcile_expired_executing_plans, seen_on_chain,
}
use looping_agent.Subagents.Claim.{ExecutorOptions}
use looping_agent.Subagents.Executor.{holds_claim, has_id}

module _ {F : Type 0} where
  -- A loop of the plan, and the number of them.
  abbrev pub is_loop_of : String → LoopPosition F → Bool
  is_loop_of id loop = loop.plan_id == id

  abbrev pub loops_of : String → List (LoopPosition F) → ℕ
  loops_of id loops = count (is_loop_of id) loops

  abbrev opens_one :
      AcceptedPlan F → LoopStrategyProposal F → ℕ → List (LoopPosition F) → List (LoopPosition F)
  opens_one plan p now loops =
      if any (λ loop. loop.plan_id == plan.id) loops
      then loops
      else opened_loop plan p now false ∷ loops

  -- A loop is opened for a plan that has none.
  opens_one-loops_of :
      (plan : AcceptedPlan F) (p : LoopStrategyProposal F) (now : ℕ) (loops : List (LoopPosition F))
      → loops_of plan.id loops ≡ 0
      → loops_of plan.id (opens_one plan p now loops) ≡ 1
  unfolding opened_loop
  opens_one-loops_of plan p now loops h =
      ground (arith, any_iff_count (is_loop_of plan.id) loops, eq_iff plan.id plan.id)

  -- No second loop is opened for any plan.
  opens_one-keeps :
      (id : String) (plan : AcceptedPlan F) (p : LoopStrategyProposal F) (now n : ℕ)
      (loops : List (LoopPosition F))
      → (plan.id ≡ id → n ≡ 1)
      → loops_of id loops ≡ n
      → loops_of id (opens_one plan p now loops) ≡ n
  unfolding opened_loop
  opens_one-keeps id plan p now n loops k h = elim (Bool-cases (plan.id == id)) [
    | inl e ↦
        let same = (eq_iff plan.id id).0 e in
        rw ((any_iff_count (is_loop_of plan.id) loops).1 (rw same (omega (arith, h, k same)))) h
    | inr e ↦ ground (arith, e, h)
  ]

module _ {F : Type 0} ⦃num : Number F⦄ where
  module _ (proposals : List (LoopStrategyProposal F)) (snapshot : Option (PositionSnapshot F))
      (now : ℕ) where
    -- What a round of the reconciliation does to the loops.
    reconcile_plan-keeps :
        (id : String) (n : ℕ) (plan : AcceptedPlan F) (r : Reconciled F)
        → (plan.id ≡ id → n ≡ 1)
        → loops_of id r.loops ≡ n
        → loops_of id (reconcile_plan proposals snapshot now plan r).1.loops ≡ n
    unfolding reconcile_plan reconcile_expired confirm_plan cancel_plan
    reconcile_plan-keeps id n plan r k h = elim (Bool-cases (claim_expired plan now)) [
      | inr e ↦ rw e h
      | inl e ↦ elim (Option-cases (find (λ x. x.id == plan.proposal_id) proposals)) [
        | inl none_found ↦ rw (e, none_found, reconcile_expired) h
        | inr (p, found) ↦ elim (Bool-cases (seen_on_chain p snapshot)) [
          | inl s ↦
              rw (e, found, reconcile_expired, s) (opens_one-keeps id plan p now n r.loops k h)
          | inr s ↦ rw (e, found, reconcile_expired, s) h
        ]
      ]
    ]

    reconcile_plan-opens :
        (plan : AcceptedPlan F) (p : LoopStrategyProposal F) (r : Reconciled F)
        → claim_expired plan now ≡ true
        → find (λ x. x.id == plan.proposal_id) proposals ≡ some p
        → seen_on_chain p snapshot ≡ true
        → loops_of plan.id r.loops ≡ 0
        → loops_of plan.id (reconcile_plan proposals snapshot now plan r).1.loops ≡ 1
    unfolding reconcile_plan reconcile_expired confirm_plan
    reconcile_plan-opens plan p r e found s h =
        rw (e, found, reconcile_expired, s) (opens_one-loops_of plan p now r.loops h)

    reconcile_plans-keeps :
        (id : String) (plans : List (AcceptedPlan F)) (r : Reconciled F)
        → loops_of id r.loops ≡ 1
        → loops_of id (reconcile_plans proposals snapshot now plans r).1.loops ≡ 1
    unfolding reconcile_plans
    reconcile_plans-keeps id [] r h = h
    reconcile_plans-keeps id (plan ∷ plans) r h =
        reconcile_plans-keeps id plans _ (reconcile_plan-keeps id 1 plan r (λ _. refl) h)

    reconcile_plans-opens :
        (plan : AcceptedPlan F) (p : LoopStrategyProposal F) (plans : List (AcceptedPlan F))
        (r : Reconciled F)
        → find (has_id plan.id) plans ≡ some plan
        → claim_expired plan now ≡ true
        → find (λ x. x.id == plan.proposal_id) proposals ≡ some p
        → seen_on_chain p snapshot ≡ true
        → loops_of plan.id r.loops ≡ 0
        → loops_of plan.id (reconcile_plans proposals snapshot now plans r).1.loops ≡ 1
    unfolding reconcile_plans
    reconcile_plans-opens plan p [] r f e found s h = cc
    reconcile_plans-opens plan p (q ∷ plans) r f e found s h =
        elim (Bool-cases (has_id plan.id q)) [
          | inl same ↦
              let q_is_plan : q ≡ plan = ground (arith, same, f) in
              reconcile_plans-keeps plan.id plans _
                (rw q_is_plan (reconcile_plan-opens plan p r e found s h))
          | inr other ↦ reconcile_plans-opens plan p plans _ (ground (arith, other, f)) e found s (
              reconcile_plan-keeps plan.id 0 q r (λ i. ground (arith, other, eq_iff q.id plan.id))
                h)
        ]

    -- A round keeps a plan's id, and who claimed it.
    reconcile_plan-claim :
        (options : ExecutorOptions) (id : String) (plan : AcceptedPlan F) (r : Reconciled F)
        → let plan' = (reconcile_plan proposals snapshot now plan r).0 in
          (has_id id plan' ≡ has_id id plan)
          × (holds_claim options plan' ≡ holds_claim options plan)
    unfolding reconcile_plan reconcile_expired confirm_plan cancel_plan
    reconcile_plan-claim options id plan r = elim (Bool-cases (claim_expired plan now)) [
      | inr e ↦ rw e (refl, refl)
      | inl e ↦ elim (Option-cases (find (λ x. x.id == plan.proposal_id) proposals)) [
        | inl none_found ↦ rw (e, none_found, reconcile_expired) (refl, refl)
        | inr (p, found) ↦ elim (Bool-cases (seen_on_chain p snapshot)) [
          | inl s ↦ rw (e, found, reconcile_expired, s) (refl, refl)
          | inr s ↦ rw (e, found, reconcile_expired, s) (refl, refl)
        ]
      ]
    ]

    reconcile_plans-claim :
        (options : ExecutorOptions) (id : String) (plans : List (AcceptedPlan F)) (r : Reconciled F)
        (plan : AcceptedPlan F)
        → find (has_id id) plans ≡ some plan
        → (current : AcceptedPlan F) × (find
              (has_id id)
              (reconcile_plans proposals snapshot now plans r).0
            ≡ some current)
          × (holds_claim options current ≡ holds_claim options plan)
    unfolding reconcile_plans
    reconcile_plans-claim options id [] r plan f = cc
    reconcile_plans-claim options id (q ∷ plans) r plan f =
        let kept = reconcile_plan-claim options id q r in
        let next = reconcile_plan proposals snapshot now q r in
        elim (Bool-cases (has_id id q)) [
          | inl same ↦
              let q_is_plan : q ≡ plan = ground (arith, same, f) in
              (next.0, ground (arith, same, kept.0), rw (sym q_is_plan) kept.1)
          | inr other ↦
              let (current, at, holds) =
                reconcile_plans-claim options id plans next.1 plan (ground (arith, other, f)) in
              (current, ground (arith, other, kept.0, at), holds)
        ]

module _ {F : Type 0} ⦃num : Number F⦄ where
  pub reconciled-opens :
      (config : AppConfig F) (plan : AcceptedPlan F) (p : LoopStrategyProposal F) (now : ℕ)
      (ledger : StrategyLedger F)
      → config.runtime.dry_run ≡ false
      → find (has_id plan.id) ledger.accepted_plans ≡ some plan
      → claim_expired plan now ≡ true
      → find (λ x. x.id == plan.proposal_id) ledger.strategy_proposals ≡ some p
      → seen_on_chain p (latest_position_snapshot ledger) ≡ true
      → loops_of plan.id ledger.loop_positions ≡ 0
      → loops_of plan.id (reconcile_expired_executing_plans ledger config now).0.loop_positions ≡ 1
  unfolding reconcile_expired_executing_plans
  reconciled-opens config plan p now ledger live f expired found seen none_yet = rw live (
      reconcile_plans-opens ledger.strategy_proposals (latest_position_snapshot ledger) now plan p
        ledger.accepted_plans _ f expired found seen none_yet)

  pub reconciled-claim :
      (config : AppConfig F) (options : ExecutorOptions) (plan : AcceptedPlan F) (now : ℕ)
      (ledger : StrategyLedger F)
      → config.runtime.dry_run ≡ false
      → find (has_id plan.id) ledger.accepted_plans ≡ some plan
      → (current : AcceptedPlan F) × (find
            (has_id plan.id)
            (reconcile_expired_executing_plans ledger config now).0.accepted_plans
          ≡ some current)
        × (holds_claim options current ≡ holds_claim options plan)
  unfolding reconcile_expired_executing_plans
  reconciled-claim config options plan now ledger live f = rw live (
      reconcile_plans-claim ledger.strategy_proposals (latest_position_snapshot ledger) now options
        plan.id ledger.accepted_plans _ plan f)
