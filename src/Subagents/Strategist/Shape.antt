-- ===== src/Subagents/Strategist/Shape.antt =====
-- The shape of the builders' proposals.
use text.Mathlib.TextLemmas.{append-eq-nil_iff}
use looping_agent.Prelude.{
  ℕ, ◌+◌, ◌<◌, ◌≡◌, ◌≢◌, ◌⊎◌, refl, sym, String, Bool, true, false, Option, none, some, List, ◌∷◌,
  arith, string_eq, eq_iff, filter, inl, inr, if◌then◌else◌,
}
use looping_agent.Js.Int.{pos, ◌≤ℤ◌}
use looping_agent.Js.Number.{Number}
use looping_agent.Js.Sort.{sort, sort-All, head?-All, filter-All}
use looping_agent.Js.Text.{decimal, template}
use looping_agent.Types.{
  LendingProtocol, suilend, navi, scallop, AppConfig, protocol_eq, protocol_beq_iff, protocol_text,
}
use looping_agent.StrategyLedger.Status.{borrow_against_existing_collateral, ProposalStatus}
use looping_agent.StrategyLedger.{
  MarketRate, PositionLeg, ProtocolPositionSnapshot, LoopStrategyProposal,
}
use looping_agent.Subagents.Validate.{is_blank}
use looping_agent.Subagents.Live.{Call, returns, throws}
use looping_agent.Subagents.Strategist.Sizing.{capped_sui_borrow_raw, capped_sui_borrow_raw-bounds}
use looping_agent.Subagents.Strategist.Build.{
  BuildInput, LoopTerms, Built, or_null, with_amount, or_fresh, proposal_of, best_target,
  off_protocol, lower_apr, fresh_terms, existing_terms, build_fresh, build_existing,
  build_loop_proposal,
}

suilend_named : ¬ (◌≡◌ {A = String} "suilend" "")
suilend_named e = ground (arith, (eq_iff "suilend" "").1 e)

navi_named : ¬ (◌≡◌ {A = String} "navi" "")
navi_named e = ground (arith, (eq_iff "navi" "").1 e)

scallop_named : ¬ (◌≡◌ {A = String} "scallop" "")
scallop_named e = ground (arith, (eq_iff "scallop" "").1 e)

not_blank : (s : String) → s ≢ "" → is_blank (some s) ≡ false
not_blank s n = ground (arith, eq_iff s "")

-- A text that begins with a protocol's name is not empty.
named_not_blank :
    (protocol : LendingProtocol) (rest : List String)
    → is_blank (some (template (protocol_text protocol ∷ rest))) ≡ false
unfolding template protocol_text
named_not_blank suilend rest = not_blank _ λ e. absurd (suilend_named (append-eq-nil_iff.0 e).0)
named_not_blank navi rest = not_blank _ λ e. absurd (navi_named (append-eq-nil_iff.0 e).0)
named_not_blank scallop rest = not_blank _ λ e. absurd (scallop_named (append-eq-nil_iff.0 e).0)

module _ {F : Type 0} where
  -- The conditions of `validateLoopProposal` that no snapshot can spoil, and a positive borrow.
  pub record WellShaped (p : LoopStrategyProposal F) (config : AppConfig F) (now : ℕ) : Type 0 where
    pub open_ : p.status ≡ ProposalStatus.open_
    pub usdc : p.collateral_asset ≡ "USDC"
    pub sui : p.borrow_asset ≡ "SUI"
    pub one_protocol : p.borrow_protocol ≡ p.collateral_protocol
    pub other_target : p.supply_target_protocol ≢ p.collateral_protocol
    pub has_source :
        p.proposal_type ≡ borrow_against_existing_collateral → is_blank p.source_position_id ≡ false
    pub lives : p.expires_at ≡ some (now + config.loop_strategy.proposal_ttl_ms)
    pub raw_borrow :
        (n : ℕ) × (p.raw_borrow_amount ≡ decimal n) × (0 < n) × (pos n ≤ℤ config.sui.max_borrow_raw)

  -- The same of the terms.
  record GoodTerms (terms : LoopTerms F) (config : AppConfig F) : Type 0 where
    other_target : terms.target ≢ terms.protocol
    has_source : terms.kind ≡ borrow_against_existing_collateral → is_blank terms.source ≡ false
    positive : 0 < terms.raw_borrow
    capped : pos terms.raw_borrow ≤ℤ config.sui.max_borrow_raw

  proposal_of-WellShaped :
      (input : BuildInput F) (config : AppConfig F) (terms : LoopTerms F)
      → GoodTerms terms config
      → WellShaped (proposal_of input config terms) config input.now
  unfolding proposal_of
  proposal_of-WellShaped input config terms good = record {
    open_ = refl;
    usdc = refl;
    sui = refl;
    one_protocol = refl;
    other_target = good.other_target;
    has_source = good.has_source;
    lives = refl;
    raw_borrow = (terms.raw_borrow, refl, good.positive, good.capped);
  }

  or_null-inv :
      {A : Type 0} (o : Option A) (k : A → Built F) (p : LoopStrategyProposal F)
      → or_null o k ≡ returns (some p)
      → (a : A) × (o ≡ some a) × (k a ≡ returns (some p))
  unfolding or_null
  or_null-inv none k p h = cc
  or_null-inv (some a) k p h = (a, refl, h)

  returned : (p q : LoopStrategyProposal F) → returns (some p) ≡ returns (some q) → p ≡ q
  returned p q h = cc

  or_fresh-inv :
      (existing fresh : Built F) (p : LoopStrategyProposal F)
      → or_fresh existing fresh ≡ returns (some p)
      → (existing ≡ returns (some p)) ⊎ (fresh ≡ returns (some p))
  unfolding or_fresh
  or_fresh-inv (throws e) fresh p h = cc
  or_fresh-inv (returns none) fresh p h = inr h
  or_fresh-inv (returns (some q)) fresh p h = inl h

  checked :
      (b : Bool) (q p : LoopStrategyProposal F)
      → (if b then returns (some q) else returns none) ≡ returns (some p)
      → (b ≡ true) × (q ≡ p)
  checked true q p h = (refl, returned q p h)
  checked false q p h = cc

  with_amount-inv :
      (amount : Call ℕ) (k : ℕ → LoopStrategyProposal F) (p : LoopStrategyProposal F)
      → with_amount amount (λ raw. returns (some (k raw))) ≡ returns (some p)
      → (raw : ℕ) × (amount ≡ returns raw) × (0 < raw) × (k raw ≡ p)
  unfolding with_amount
  with_amount-inv (throws e) k p h = cc
  with_amount-inv (returns raw) k p h =
      let (positive, e) = checked _ _ p h in (raw, refl, ground arith, e)

  positive_test :
      (b : Bool) (x y : Built F) (p : LoopStrategyProposal F)
      → x ≡ returns none
      → (if b then x else y) ≡ returns (some p)
      → y ≡ returns (some p)
  positive_test true x y p e h = cc
  positive_test false x y p e h = h

module _ {F : Type 0} ⦃num : Number F⦄ where
  best_target-other :
      (protocol : LendingProtocol) (rates : List (MarketRate F)) (target : MarketRate F)
      → best_target protocol rates ≡ some target
      → target.protocol ≢ protocol
  unfolding best_target
  best_target-other protocol rates target h =
      let off =
        head?-All (λ (r : MarketRate F). off_protocol protocol r ≡ true)
          (sort lower_apr (filter (off_protocol protocol) rates)) target h
          (sort-All (λ (r : MarketRate F). off_protocol protocol r ≡ true) lower_apr
            (filter (off_protocol protocol) rates) (filter-All (off_protocol protocol) rates)) in
      λ e. ground (arith, off, protocol_beq_iff target.protocol protocol)

  fresh-GoodTerms :
      (input : BuildInput F) (config : AppConfig F) (protocol : LendingProtocol)
      (borrow_market target : MarketRate F) (usd max price : F) (raw : ℕ)
      → target.protocol ≢ protocol
      → 0 < raw
      → capped_sui_borrow_raw max price config ≡ returns raw
      → GoodTerms (fresh_terms input protocol borrow_market target usd raw) config
  unfolding fresh_terms
  fresh-GoodTerms input config protocol borrow_market target usd max price raw other positive e =
      record {
        other_target = other;
        has_source = λ k. cc;
        positive = positive;
        capped = capped_sui_borrow_raw-bounds max price config raw e positive;
      }

  existing-GoodTerms :
      (config : AppConfig F) (position : ProtocolPositionSnapshot F) (deposit : PositionLeg F)
      (borrow_market target : MarketRate F) (max price : F) (raw : ℕ)
      → target.protocol ≢ position.protocol
      → 0 < raw
      → capped_sui_borrow_raw max price config ≡ returns raw
      → GoodTerms (existing_terms position deposit borrow_market target raw) config
  unfolding existing_terms
  existing-GoodTerms config position deposit borrow_market target max price raw other positive e =
      record {
        other_target = other;
        has_source = λ _. named_not_blank position.protocol _;
        positive = positive;
        capped = capped_sui_borrow_raw-bounds max price config raw e positive;
      }

  build_fresh-WellShaped :
      (input : BuildInput F) (config : AppConfig F) (p : LoopStrategyProposal F)
      → build_fresh input config ≡ returns (some p)
      → WellShaped p config input.now
  unfolding build_fresh
  build_fresh-WellShaped input config p h =
      let (collateral, _, h1) = or_null-inv _ _ p h in
      let (borrow, _, h2) = or_null-inv _ _ p h1 in
      let (target, best, h3) = or_null-inv _ _ p h2 in
      let (raw, e, positive, same) =
        with_amount-inv _ _ p (positive_test _ (returns none) _ p refl h3) in
      rw (sym same) (
        proposal_of-WellShaped input config _ (
          fresh-GoodTerms input config collateral.protocol borrow target _ _ _ raw
            (best_target-other _ _ target best) positive e))

  build_existing-WellShaped :
      (input : BuildInput F) (config : AppConfig F) (p : LoopStrategyProposal F)
      → build_existing input config ≡ returns (some p)
      → WellShaped p config input.now
  unfolding build_existing
  build_existing-WellShaped input config p h =
      let (collateral, _, h1) = or_null-inv _ _ p h in
      let (borrow, _, h2) = or_null-inv _ _ p h1 in
      let (target, best, h3) = or_null-inv _ _ p h2 in
      let (raw, e, positive, same) = with_amount-inv _ _ p h3 in
      rw (sym same) (
        proposal_of-WellShaped input config _ (
          existing-GoodTerms config collateral.0 collateral.1 borrow target _ _ raw
            (best_target-other _ _ target best) positive e))

  or_fresh-WellShaped :
      (input : BuildInput F) (config : AppConfig F) (existing : Bool) (p : LoopStrategyProposal F)
      → (if existing
          then or_fresh (build_existing input config) (build_fresh input config)
          else build_fresh input config)
        ≡ returns (some p)
      → WellShaped p config input.now
  unfolding or_fresh
  or_fresh-WellShaped input config false p h = build_fresh-WellShaped input config p h
  or_fresh-WellShaped input config true p h =
      elim (or_fresh-inv (build_existing input config) (build_fresh input config) p h) [
        | inl e ↦ build_existing-WellShaped input config p e
        | inr e ↦ build_fresh-WellShaped input config p e
      ]

  -- Every proposal that `buildLoopProposal` returns, for a fresh loop or for existing collateral, is
  -- open, borrows SUI against USDC on one protocol and supplies it to another, names a source
  -- position where it uses existing collateral, expires when its time to live has passed, and has a
  -- positive raw borrow within the configured maximum.
  pub build_loop_proposal-WellShaped :
      (input : BuildInput F) (config : AppConfig F) (p : LoopStrategyProposal F)
      → build_loop_proposal input config ≡ returns (some p)
      → WellShaped p config input.now
  unfolding build_loop_proposal
  build_loop_proposal-WellShaped input config p h =
      or_fresh-WellShaped input config config.loop_strategy.use_existing_collateral p
        (positive_test _ (returns none) _ p refl h)
