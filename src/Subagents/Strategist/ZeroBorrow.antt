-- ===== src/Subagents/Strategist/ZeroBorrow.antt =====
-- What `validateLoopProposal` does not ask of an amount: that it is positive.
use looping_agent.Prelude.{ℕ, ◌≡◌}
use looping_agent.Js.Int.{pos, ◌≤ℤ◌}
use looping_agent.Js.Number.{Number}
use looping_agent.Js.Text.{decimal}
use looping_agent.Js.Text.RoundTrip.{big_int-decimal}
use looping_agent.Types.{AppConfig}
use looping_agent.StrategyLedger.{LoopStrategyProposal, StrategyLedger, proposal_satisfies}
use looping_agent.Subagents.Validate.{validate_loop_proposal, allow}
use looping_agent.Subagents.Acceptable.{SoundProposal, validate_loop_proposal_iff}

module _ {F : Type 0} ⦃num : Number F⦄ where
  abbrev with_zero_borrow : LoopStrategyProposal F → LoopStrategyProposal F
  with_zero_borrow p = record p { raw_borrow_amount = decimal 0 }

  with_zero_borrow-SoundProposal :
      (p : LoopStrategyProposal F) (config : AppConfig F) (now : ℕ)
      → pos 0 ≤ℤ config.sui.max_borrow_raw
      → SoundProposal p config now
      → SoundProposal (with_zero_borrow p) config now
  with_zero_borrow-SoundProposal p config now h sound = record {
    enabled = sound.enabled;
    depth_one = sound.depth_one;
    usdc = sound.usdc;
    sui = sound.sui;
    one_protocol = sound.one_protocol;
    other_target = sound.other_target;
    has_source = sound.has_source;
    ahead = sound.ahead;
    healthy = sound.healthy;
    profitable = sound.profitable;
    usd_capped = sound.usd_capped;
    raw_capped = rw (big_int-decimal 0) h;
    collateral_capped = sound.collateral_capped;
  }

  -- Where the configured maximum is not negative, a proposal that is allowed is still allowed with a
  -- raw borrow of zero.
  pub zero_borrow_is_allowed :
      (p : LoopStrategyProposal F) (ledger : StrategyLedger F) (config : AppConfig F) (now : ℕ)
      → pos 0 ≤ℤ config.sui.max_borrow_raw
      → validate_loop_proposal p ledger config now ≡ allow proposal_satisfies
      → validate_loop_proposal (with_zero_borrow p) ledger config now ≡ allow proposal_satisfies
  zero_borrow_is_allowed p ledger config now h ok =
      let (sound, ready) = (validate_loop_proposal_iff p ledger config now).0 ok in
      (validate_loop_proposal_iff (with_zero_borrow p) ledger config now).1 (
        with_zero_borrow-SoundProposal p config now h sound,
        record {
          unlocked = ready.unlocked;
          no_plan = ready.no_plan;
          room = ready.room;
          recent_market = ready.recent_market;
          recent_positions = ready.recent_positions;
        },
      )
