-- ===== src/Subagents/Strategist/Bounded.antt =====
-- The amounts and the state of the proposal that the strategist chooses.
use looping_agent.Prelude.{
  ℕ, String, ◌<◌, ◌≡◌, ◌⊎◌, refl, sym, Bool, true, false, not, Option, none, some, inl, inr,
  if◌then◌else◌,
}
use looping_agent.Js.Int.{pos, ◌≤ℤ◌}
use looping_agent.Js.Number.{Number}
use looping_agent.Js.Text.{decimal}
use looping_agent.Types.{LendingProtocol, AppConfig}
use looping_agent.StrategyLedger.Status.{ProposalStatus}
use looping_agent.StrategyLedger.{LoopStrategyProposal, StrategyLedger}
use looping_agent.Subagents.Live.{Call, returns, throws}
use looping_agent.Subagents.Strategist.Sizing.{capped_sui_borrow_raw-bounds}
use looping_agent.Subagents.Strategist.Build.{
  BuildInput, Built, LoopTerms, proposal_of, build_loop_proposal,
}
use looping_agent.Subagents.Strategist.Llm.{
  LlmReply, LlmDecision, declines, opens, or_throw, with_raw, parse_llm_loop_decision,
  build_llm_loop_proposal, llm_terms,
}
use looping_agent.Subagents.Strategist.Run.{
  StrategistRun, DecidedBy, deterministic, deterministic_fallback, Strategy, skipped, proposed,
  decided, build, after_decline, after_open, follow, ask_llm, choose_strategy,
}
use looping_agent.Subagents.Strategist.Shape.{build_loop_proposal-WellShaped}

or_throw-inv :
    {A B : Type 0} (o : Option A) (e : _) (k : A → Call B) (b : B)
    → or_throw o e k ≡ returns b
    → (a : A) × (k a ≡ returns b)
unfolding or_throw
or_throw-inv none e k b h = cc
or_throw-inv (some a) e k b h = (a, h)

module _ {F : Type 0} where
  -- What a choice proposes, whoever decided.
  abbrev pub chosen : Strategy F → Option (LoopStrategyProposal F)
  chosen (proposed who p) = some p
  chosen _ = none

  pub record Bounded (p : LoopStrategyProposal F) (config : AppConfig F) : Type 0 where
    pub open_ : p.status ≡ ProposalStatus.open_
    pub usdc : p.collateral_asset ≡ "USDC"
    pub sui : p.borrow_asset ≡ "SUI"
    pub one_protocol : p.borrow_protocol ≡ p.collateral_protocol
    pub raw_borrow :
        (n : ℕ) × (p.raw_borrow_amount ≡ decimal n) × (0 < n → pos n ≤ℤ config.sui.max_borrow_raw)

  proposal_of-Bounded :
      (input : BuildInput F) (config : AppConfig F) (terms : LoopTerms F)
      → (0 < terms.raw_borrow → pos terms.raw_borrow ≤ℤ config.sui.max_borrow_raw)
      → Bounded (proposal_of input config terms) config
  unfolding proposal_of
  proposal_of-Bounded input config terms h = record {
    open_ = refl;
    usdc = refl;
    sui = refl;
    one_protocol = refl;
    raw_borrow = (terms.raw_borrow, refl, h);
  }

  with_raw-inv :
      (amount : Call ℕ) (k : ℕ → LoopStrategyProposal F) (p : LoopStrategyProposal F)
      → with_raw amount k ≡ returns p
      → (raw : ℕ) × (amount ≡ returns raw) × (k raw ≡ p)
  unfolding with_raw
  with_raw-inv (throws e) k p h = cc
  with_raw-inv (returns raw) k p h = (raw, refl, cc)

  decided-inv :
      (who : DecidedBy) (built : Built F) (p : LoopStrategyProposal F)
      → chosen (decided who built) ≡ some p
      → built ≡ returns (some p)
  unfolding decided
  decided-inv who (throws e) p h = cc
  decided-inv who (returns none) p h = cc
  decided-inv who (returns (some q)) p h = cc

  which :
      {R : Type 0} (enabled by_llm : Bool) (asked alone : Strategy F) (p : LoopStrategyProposal F)
      → chosen (if not enabled then skipped else if by_llm then asked else alone) ≡ some p
      → (chosen asked ≡ some p → R)
      → (chosen alone ≡ some p → R)
      → R
  which false by_llm asked alone p h f g = cc
  which true true asked alone p h f g = f h
  which true false asked alone p h f g = g h

module _ {F : Type 0} ⦃num : Number F⦄ where
  after_decline-inv :
      (built : Built F) (p : LoopStrategyProposal F)
      → chosen (after_decline built) ≡ some p
      → built ≡ returns (some p)
  unfolding after_decline
  after_decline-inv (throws e) p h = cc
  after_decline-inv (returns none) p h = cc
  after_decline-inv (returns (some q)) p h = cc

  after_open-inv :
      (built : Built F) (opened : Call (LoopStrategyProposal F)) (p : LoopStrategyProposal F)
      → chosen (after_open built opened) ≡ some p
      → (opened ≡ returns p) ⊎ (chosen (decided deterministic_fallback built) ≡ some p)
  unfolding after_open
  after_open-inv built (throws e) p h = inr h
  after_open-inv built (returns q) p h = inl cc

  build_llm_loop_proposal-Bounded :
      (input : BuildInput F) (config : AppConfig F) (collateral target : LendingProtocol)
      (usd borrow : F) (rationale : Option String) (p : LoopStrategyProposal F)
      → build_llm_loop_proposal input config collateral target usd borrow rationale ≡ returns p
      → Bounded p config
  unfolding build_llm_loop_proposal llm_terms
  build_llm_loop_proposal-Bounded input config collateral target usd borrow rationale p h =
      let (_, h1) = or_throw-inv _ _ _ p h in
      let (_, h2) = or_throw-inv _ _ _ p h1 in
      let (_, h3) = or_throw-inv _ _ _ p h2 in
      let (raw, e, same) = with_raw-inv _ _ p h3 in
      rw (sym same)
        (proposal_of-Bounded input config _ (capped_sui_borrow_raw-bounds _ _ config raw e))

  built-Bounded :
      (input : BuildInput F) (config : AppConfig F) (p : LoopStrategyProposal F)
      → build_loop_proposal input config ≡ returns (some p)
      → Bounded p config
  built-Bounded input config p h =
      let shape = build_loop_proposal-WellShaped input config p h in
      let (n, e, _, cap) = shape.raw_borrow in
      record {
        open_ = shape.open_;
        usdc = shape.usdc;
        sui = shape.sui;
        one_protocol = shape.one_protocol;
        raw_borrow = (n, e, λ _. cap);
      }

  decided-Bounded :
      (who : DecidedBy) (config : AppConfig F) (input : BuildInput F) (p : LoopStrategyProposal F)
      → chosen (decided who (build_loop_proposal input config)) ≡ some p
      → Bounded p config
  unfolding decided
  decided-Bounded who config input p h = built-Bounded input config p (decided-inv who _ p h)

  after_decline-Bounded :
      (config : AppConfig F) (input : BuildInput F) (p : LoopStrategyProposal F)
      → chosen (after_decline (build_loop_proposal input config)) ≡ some p
      → Bounded p config
  after_decline-Bounded config input p h = built-Bounded input config p (after_decline-inv _ p h)

  follow-Bounded :
      (config : AppConfig F) (input : BuildInput F) (decision : Call (LlmDecision F))
      (p : LoopStrategyProposal F)
      → chosen (follow config input (build_loop_proposal input config) decision) ≡ some p
      → Bounded p config
  unfolding follow
  follow-Bounded config input (throws e) p h =
      decided-Bounded deterministic_fallback config input p h
  follow-Bounded config input (returns (declines rationale)) p h =
      after_decline-Bounded config input p h
  follow-Bounded config input (returns (opens collateral target usd borrow rationale)) p h =
      elim (after_open-inv (build_loop_proposal input config) _ p h) [
        | inl e ↦
            build_llm_loop_proposal-Bounded input config collateral target usd borrow rationale p e
        | inr e ↦ decided-Bounded deterministic_fallback config input p e
      ]

  ask_llm-Bounded :
      (config : AppConfig F) (input : Option (BuildInput F)) (reply : Call (LlmReply F))
      (p : LoopStrategyProposal F)
      → chosen (ask_llm config input reply) ≡ some p
      → Bounded p config
  unfolding ask_llm decided
  ask_llm-Bounded config none reply p h = cc
  ask_llm-Bounded config (some input) (throws e) p h =
      decided-Bounded deterministic_fallback config input p h
  ask_llm-Bounded config (some input) (returns reply) p h =
      follow-Bounded config input (parse_llm_loop_decision reply) p h

  build-Bounded :
      (config : AppConfig F) (input : Option (BuildInput F)) (p : LoopStrategyProposal F)
      → chosen (decided deterministic (build config input)) ≡ some p
      → Bounded p config
  unfolding build decided
  build-Bounded config none p h = cc
  build-Bounded config (some input) p h = decided-Bounded deterministic config input p h

  -- Whatever the LLM answers, and whoever decides, a proposal that the strategist chooses is open,
  -- borrows SUI against USDC on one protocol, and its raw borrow is the decimal text of a number
  -- that is zero or within the configured maximum.
  pub choose_strategy-Bounded :
      (config : AppConfig F) (run : StrategistRun F) (ledger : StrategyLedger F)
      (p : LoopStrategyProposal F)
      → chosen (choose_strategy config run ledger) ≡ some p
      → Bounded p config
  unfolding choose_strategy
  choose_strategy-Bounded config run ledger p h =
      which config.loop_strategy.enabled run.llm_enabled _ _ p h
        (λ e. ask_llm-Bounded config _ run.reply p e) (λ e. build-Bounded config _ p e)
