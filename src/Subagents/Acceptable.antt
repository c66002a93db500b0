-- ===== src/Subagents/Acceptable.antt =====
-- `validateLoopProposal` against an independent list of the conditions for a new loop.
use looping_agent.Prelude.{
  ℕ, ◌+◌, ◌≤◌, ◌<◌, ◌≡◌, ◌≢◌, ◌↔◌, refl, Bool, true, false, not, ◌&&◌, ◌||◌, Option, none, some,
  List, [], ◌∷◌, arith, ◌==◌, string_eq, nat_beq_iff, eq_iff, find, count, any, All, ◌∙◌,
}
use looping_agent.Js.Int.{ℤ, ◌≤ℤ◌}
use looping_agent.Js.Number.{Number}
use looping_agent.Js.Text.{big_int}
use looping_agent.Types.{LendingProtocol, AppConfig, protocol_eq, protocol_beq_iff, Iso}
use looping_agent.StrategyLedger.Status.{
  StrategyProposalType, open_loop, borrow_against_existing_collateral, is_existing,
}
use looping_agent.StrategyLedger.{
  Message, proposal_satisfies, LoopStrategyProposal, StrategyLedger, RiskLock, MarketSnapshot,
  PositionSnapshot, is_past, is_fresh,
}
use looping_agent.Subagents.Validate.{
  Verdict, allow, deny_if, is_blank, is_counted_loop, validate_loop_proposal, check_raw,
  check_proposal, check_ledger, market_is_fresh, positions_are_fresh,
}
use looping_agent.Subagents.OneActivePlan.{opening_plans, length-active_loop_opening_plans}

-- A time that has not come: `none` is a text that is no date, which never counts as past.
abbrev pub IsAhead : Iso → ℕ → Type 0
IsAhead none now = Unit
IsAhead (some t) now = now < t

-- Captured no longer ago than `ms`.
abbrev pub IsRecent : Iso → ℕ → ℕ → Type 0
IsRecent none ms now = ⊥
IsRecent (some t) ms now = now ≤ t + ms

-- The text is an integer, and at most `max`.
abbrev pub AtMost : Option ℤ → ℤ → Type 0
AtMost none max = ⊥
AtMost (some n) max = n ≤ℤ max

true_of_not : (b : Bool) → not b ≡ false → b ≡ true
true_of_not b h = ground arith

both_false : (a b : Bool) → (a || b) ≡ false → (a ≡ false) × (b ≡ false)
both_false a b h = ground arith

ne_of_beq : (a b : LendingProtocol) → (a == b) ≡ false → a ≢ b
ne_of_beq a b h = ground arith

IsAhead-of_not_past : (t : Iso) (now : ℕ) → is_past t now ≡ false → IsAhead t now
IsAhead-of_not_past t now h = ground arith

existing_only :
    (t : StrategyProposalType) (b : Bool)
    → (is_existing t && b) ≡ false
    → t ≡ borrow_against_existing_collateral
    → b ≡ false
existing_only t b h e = ground arith

fresh_only :
    (t : StrategyProposalType) (b : Bool)
    → (not (is_existing t) && b) ≡ false
    → t ≡ open_loop
    → b ≡ false
fresh_only t b h e = ground arith

module _ {F : Type 0} where
  abbrev pub IsRecentMarket : Option (MarketSnapshot F) → ℕ → ℕ → Type 0
  IsRecentMarket none ms now = ⊥
  IsRecentMarket (some s) ms now = IsRecent s.captured_at ms now

  abbrev pub IsRecentPositions : Option (PositionSnapshot F) → ℕ → ℕ → Type 0
  IsRecentPositions none ms now = ⊥
  IsRecentPositions (some s) ms now = IsRecent s.captured_at ms now

module _ {F : Type 0} ⦃num : Number F⦄ where
  -- What the proposal must be.
  pub record SoundProposal (p : LoopStrategyProposal F) (config : AppConfig F) (now : ℕ)
      : Type 0 where
    pub enabled : config.loop_strategy.enabled ≡ true
    pub depth_one : config.loop_strategy.max_depth ≡ 1
    pub usdc : p.collateral_asset ≡ "USDC"
    pub sui : p.borrow_asset ≡ "SUI"
    pub one_protocol : p.borrow_protocol ≡ p.collateral_protocol
    pub other_target : p.supply_target_protocol ≢ p.collateral_protocol
    pub has_source :
        p.proposal_type ≡ borrow_against_existing_collateral → is_blank p.source_position_id ≡ false
    pub ahead : IsAhead p.expires_at now
    pub healthy : num.lt p.projected_health_factor config.loop_strategy.min_health_factor ≡ false
    pub profitable : num.lt p.projected_net_apr_bps config.loop_strategy.min_net_apr_bps ≡ false
    pub usd_capped : num.lt config.loop_strategy.max_borrow_usd p.borrow_usd ≡ false
    pub raw_capped : AtMost (big_int p.raw_borrow_amount) config.sui.max_borrow_raw
    pub collateral_capped :
        p.proposal_type ≡ open_loop
        → num.lt config.loop_strategy.max_collateral_usd p.collateral_usd ≡ false

  -- What the ledger must hold.
  pub record ReadyLedger (p : LoopStrategyProposal F) (ledger : StrategyLedger F)
      (config : AppConfig F) (now : ℕ) : Type 0 where
    pub unlocked : All (λ (lock : RiskLock F). lock.active ≡ false) ledger.risk_locks
    pub no_plan : opening_plans ledger ≡ 0
    pub room :
        count is_counted_loop ledger.loop_positions < config.loop_strategy.max_concurrent_loops
    pub recent_market :
        IsRecentMarket
          (find (λ s. s.id == p.market_snapshot_id) ledger.market_snapshots)
          config.loop_strategy.stale_snapshot_ms
          now
    pub recent_positions :
        IsRecentPositions
          (find (λ s. s.id == p.position_snapshot_id) ledger.position_snapshots)
          config.loop_strategy.stale_snapshot_ms
          now

  deny_if-eq-allow :
      (test : Bool) (reason : Message F) (rest : Verdict F) {m : Message F}
      → deny_if test reason rest ≡ allow m
      → (test ≡ false) × (rest ≡ allow m)
  deny_if-eq-allow true reason rest h = cc
  deny_if-eq-allow false reason rest h = (refl, h)

  check_raw_sound :
      (p : LoopStrategyProposal F) (config : AppConfig F) (rest : Verdict F) {m : Message F}
      → check_raw p config rest ≡ allow m
      → AtMost (big_int p.raw_borrow_amount) config.sui.max_borrow_raw × (rest ≡ allow m)
  unfolding check_raw
  check_raw_sound p config rest h = ground arith

  check_proposal_sound :
      (p : LoopStrategyProposal F) (config : AppConfig F) (now : ℕ) (rest : Verdict F)
      {m : Message F}
      → check_proposal p config now rest ≡ allow m
      → SoundProposal p config now × (rest ≡ allow m)
  unfolding check_proposal
  check_proposal_sound p config now rest h =
      let (e1, h1) = deny_if-eq-allow _ _ _ h in
      let (e2, h2) = deny_if-eq-allow _ _ _ h1 in
      let (e3, h3) = deny_if-eq-allow _ _ _ h2 in
      let (e4, h4) = deny_if-eq-allow _ _ _ h3 in
      let (e5, h5) = deny_if-eq-allow _ _ _ h4 in
      let (e6, h6) = deny_if-eq-allow _ _ _ h5 in
      let (e7, h7) = deny_if-eq-allow _ _ _ h6 in
      let (e8, h8) = deny_if-eq-allow _ _ _ h7 in
      let (e9, h9) = deny_if-eq-allow _ _ _ h8 in
      let (e10, h10) = deny_if-eq-allow _ _ _ h9 in
      let (e11, h11) = check_raw_sound p config _ h10 in
      let (e12, h12) = deny_if-eq-allow _ _ _ h11 in
      (
        record {
          enabled = true_of_not _ e1;
          depth_one = (nat_beq_iff _ 1).0 (true_of_not _ e2);
          usdc = (eq_iff _ "USDC").0 (true_of_not _ (both_false _ _ e3).0);
          sui = (eq_iff _ "SUI").0 (true_of_not _ (both_false _ _ e3).1);
          one_protocol = (protocol_beq_iff _ _).0 (true_of_not _ e4);
          other_target = ne_of_beq _ _ e5;
          has_source = existing_only p.proposal_type _ e6;
          ahead = IsAhead-of_not_past p.expires_at now e7;
          healthy = e8;
          profitable = e9;
          usd_capped = e10;
          raw_capped = e11;
          collateral_capped = fresh_only p.proposal_type _ e12;
        },
        h12,
      )

  check_proposal_complete :
      (p : LoopStrategyProposal F) (config : AppConfig F) (now : ℕ) (rest : Verdict F)
      → SoundProposal p config now
      → check_proposal p config now rest ≡ rest
  unfolding check_proposal check_raw
  check_proposal_complete p config now rest h =
      ground (arith, eq_iff p.collateral_asset "USDC", eq_iff p.borrow_asset "SUI")

  All-inactive_iff :
      (locks : List (RiskLock F))
      → (any (λ lock. lock.active) locks ≡ false)
        ↔ All (λ (lock : RiskLock F). lock.active ≡ false) locks
  All-inactive_iff [] = ground arith
  All-inactive_iff (lock ∷ locks) = ground (arith, All-inactive_iff locks)

  market_is_fresh_iff :
      (p : LoopStrategyProposal F) (ledger : StrategyLedger F) (config : AppConfig F) (now : ℕ)
      → (market_is_fresh p ledger config now ≡ true)
        ↔ IsRecentMarket
            (find (λ s. s.id == p.market_snapshot_id) ledger.market_snapshots)
            config.loop_strategy.stale_snapshot_ms
            now
  unfolding market_is_fresh is_fresh
  market_is_fresh_iff p ledger config now = ground arith

  positions_are_fresh_iff :
      (p : LoopStrategyProposal F) (ledger : StrategyLedger F) (config : AppConfig F) (now : ℕ)
      → (positions_are_fresh p ledger config now ≡ true)
        ↔ IsRecentPositions
            (find (λ s. s.id == p.position_snapshot_id) ledger.position_snapshots)
            config.loop_strategy.stale_snapshot_ms
            now
  unfolding positions_are_fresh is_fresh
  positions_are_fresh_iff p ledger config now = ground arith

  check_ledger_iff :
      (p : LoopStrategyProposal F) (ledger : StrategyLedger F) (config : AppConfig F) (now : ℕ)
      → (check_ledger p ledger config now ≡ allow proposal_satisfies)
        ↔ ReadyLedger p ledger config now
  unfolding check_ledger
  check_ledger_iff p ledger config now = ground (
    arith,
    All-inactive_iff ledger.risk_locks,
    length-active_loop_opening_plans ledger,
    market_is_fresh_iff p ledger config now,
    positions_are_fresh_iff p ledger config now,
  )

  -- A proposal is allowed exactly when the proposal meets every condition of `SoundProposal` and
  -- the ledger every condition of `ReadyLedger`.
  pub validate_loop_proposal_iff :
      (p : LoopStrategyProposal F) (ledger : StrategyLedger F) (config : AppConfig F) (now : ℕ)
      → (validate_loop_proposal p ledger config now ≡ allow proposal_satisfies)
        ↔ (SoundProposal p config now × ReadyLedger p ledger config now)
  unfolding validate_loop_proposal
  validate_loop_proposal_iff p ledger config now = (
    λ h.
        let (sound, rest) = check_proposal_sound p config now _ h in
        (sound, (check_ledger_iff p ledger config now).0 rest),
    λ h. check_proposal_complete p config now _ h.0 ∙ (check_ledger_iff p ledger config now).1 h.1,
  )

  -- An active lock refuses every proposal.
  pub locked-not-allow :
      (p : LoopStrategyProposal F) (ledger : StrategyLedger F) (config : AppConfig F) (now : ℕ)
      {m : Message F}
      → any (λ lock. lock.active) ledger.risk_locks ≡ true
      → validate_loop_proposal p ledger config now ≢ allow m
  unfolding validate_loop_proposal check_ledger
  locked-not-allow p ledger config now h e =
      let (sound, rest) = check_proposal_sound p config now _ e in ground (arith, h, rest)
