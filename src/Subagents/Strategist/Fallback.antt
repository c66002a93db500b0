-- ===== src/Subagents/Strategist/Fallback.antt =====
-- What the strategist chooses where the LLM opens a loop, and where it fails, answers outside its
-- contract or declines.
use looping_agent.Prelude.{
  ◌≡◌, ◌⊎◌, refl, Bool, true, false, not, Option, none, some, inl, inr, length, if◌then◌else◌,
}
use looping_agent.Js.Number.{Number}
use looping_agent.Types.{AppConfig}
use looping_agent.StrategyLedger.{
  LoopStrategyProposal, StrategyLedger, latest_market_snapshot, latest_position_snapshot,
}
use looping_agent.Subagents.Live.{Call, returns, throws}
use looping_agent.Subagents.Strategist.Build.{BuildInput, Built, build_loop_proposal}
use looping_agent.Subagents.Strategist.Llm.{
  LlmReply, LlmDecision, declines, opens, parse_llm_loop_decision, build_llm_loop_proposal,
}
use looping_agent.Subagents.Strategist.Run.{
  StrategistRun, deterministic, llm, deterministic_fallback, Strategy, skipped, proposed, input_of,
  decided, build, after_decline, after_open, follow, ask_llm, choose_strategy,
}
use looping_agent.Subagents.Strategist.Bounded.{chosen}

module _ {F : Type 0} where
  -- A proposal for which `Opened` holds, as the LLM's own; or, where it holds for none, the choice
  -- `other`.
  abbrev pub ByLlmOr :
      (LoopStrategyProposal F → Type 0) → Option (LoopStrategyProposal F) → Strategy F → Type 0
  ByLlmOr Opened other strategy =
      ((p : LoopStrategyProposal F) × Opened p × (strategy ≡ proposed llm p))
      ⊎ (((p : LoopStrategyProposal F) → Opened p → ⊥) × (chosen strategy ≡ other))

  decided-chosen :
      (built : Built F)
      → chosen (decided deterministic_fallback built) ≡ chosen (decided deterministic built)
  unfolding decided
  decided-chosen (throws e) = refl
  decided-chosen (returns none) = refl
  decided-chosen (returns (some p)) = refl

module _ {F : Type 0} ⦃num : Number F⦄ where
  after_decline-chosen :
      (built : Built F) → chosen (after_decline built) ≡ chosen (decided deterministic built)
  unfolding decided after_decline
  after_decline-chosen (throws e) = refl
  after_decline-chosen (returns none) = refl
  after_decline-chosen (returns (some p)) = refl

  after_open-ByLlmOr :
      (built : Built F) (opened : Call (LoopStrategyProposal F))
      → ByLlmOr
          (λ p. opened ≡ returns p)
          (chosen (decided deterministic built))
          (after_open built opened)
  unfolding after_open
  after_open-ByLlmOr built (throws e) = inr (λ p h. cc, decided-chosen built)
  after_open-ByLlmOr built (returns p) = inl (p, refl, refl)

  -- The proposal built for a decision, where the decision opens a loop.
  abbrev DecidedToOpen :
      AppConfig F → BuildInput F → Call (LlmDecision F) → LoopStrategyProposal F → Type 0
  DecidedToOpen config input (throws e) p = ⊥
  DecidedToOpen config input (returns (declines rationale)) p = ⊥
  DecidedToOpen config input (returns (opens collateral target usd borrow rationale)) p =
      build_llm_loop_proposal input config collateral target usd borrow rationale ≡ returns p

  follow-ByLlmOr :
      (config : AppConfig F) (input : BuildInput F) (built : Built F)
      (decision : Call (LlmDecision F))
      → ByLlmOr
          (DecidedToOpen config input decision)
          (chosen (decided deterministic built))
          (follow config input built decision)
  unfolding follow
  follow-ByLlmOr config input built (throws e) = inr (λ p h. h, decided-chosen built)
  follow-ByLlmOr config input built (returns (declines rationale)) =
      inr (λ p h. h, after_decline-chosen built)
  follow-ByLlmOr config input built (returns (opens collateral target usd borrow rationale)) =
      after_open-ByLlmOr built
        (build_llm_loop_proposal input config collateral target usd borrow rationale)

  -- There is a market and a position snapshot, the reply has come, and its decision opens a loop
  -- from which `p` is built.
  abbrev OpenedFrom :
      AppConfig F → Option (BuildInput F) → Call (LlmReply F) → LoopStrategyProposal F → Type 0
  OpenedFrom config none reply p = ⊥
  OpenedFrom config (some input) (throws e) p = ⊥
  OpenedFrom config (some input) (returns reply) p =
      DecidedToOpen config input (parse_llm_loop_decision reply) p

  ask_llm-ByLlmOr :
      (config : AppConfig F) (input : Option (BuildInput F)) (reply : Call (LlmReply F))
      → ByLlmOr
          (OpenedFrom config input reply)
          (chosen (decided deterministic (build config input)))
          (ask_llm config input reply)
  unfolding ask_llm build
  ask_llm-ByLlmOr config none reply = inr (λ p h. h, decided-chosen (returns none))
  ask_llm-ByLlmOr config (some input) (throws e) =
      inr (λ p h. h, decided-chosen (build_loop_proposal input config))
  ask_llm-ByLlmOr config (some input) (returns reply) =
      follow-ByLlmOr config input (build_loop_proposal input config) (parse_llm_loop_decision reply)

  chosen-ByLlmOr :
      (Opened : LoopStrategyProposal F → Type 0) (enabled by_llm : Bool) (asked alone : Strategy F)
      → ByLlmOr Opened (chosen alone) asked
      → ByLlmOr
          (λ p. (enabled ≡ true) × (by_llm ≡ true) × Opened p)
          (chosen (if not enabled then skipped else alone))
          (if not enabled then skipped else if by_llm then asked else alone)
  chosen-ByLlmOr Opened false by_llm asked alone h = inr (λ p o. cc, refl)
  chosen-ByLlmOr Opened true false asked alone h = inr (λ p o. cc, refl)
  chosen-ByLlmOr Opened true true asked alone (inl (p, o, e)) = inl (p, (refl, refl, o), e)
  chosen-ByLlmOr Opened true true asked alone (inr (n, e)) = inr (λ p o. n p o.2, e)

  -- The tick without the LLM.
  abbrev without_llm : StrategistRun F → StrategistRun F
  without_llm run = record run { llm_enabled = false }

  -- The strategy and the LLM are on, and the LLM opened `p`.
  abbrev pub LlmOpened :
      AppConfig F → StrategistRun F → StrategyLedger F → LoopStrategyProposal F → Type 0
  LlmOpened config run ledger p =
      (config.loop_strategy.enabled ≡ true)
      × (run.llm_enabled ≡ true)
      × OpenedFrom config
          (input_of run (length ledger.strategy_proposals) (latest_market_snapshot ledger)
            (latest_position_snapshot ledger))
          run.reply p

  -- Where the strategy and the LLM are on, there are snapshots, and the LLM's reply is parsed as
  -- opening a loop for which a proposal is built, with the protocols and amounts of the reply, that
  -- proposal is the choice, as the LLM's. In every other case the choice is the one that is made with
  -- the LLM turned off: after an error of the call, a reply outside the contract, a market that is
  -- missing, and a reply that declines.
  pub choose_strategy-without_llm :
      (config : AppConfig F) (run : StrategistRun F) (ledger : StrategyLedger F)
      → ByLlmOr
          (LlmOpened config run ledger)
          (chosen (choose_strategy config (without_llm run) ledger))
          (choose_strategy config run ledger)
  unfolding choose_strategy input_of
  choose_strategy-without_llm config run ledger =
      chosen-ByLlmOr _ config.loop_strategy.enabled run.llm_enabled _ _
        (ask_llm-ByLlmOr config _ run.reply)
