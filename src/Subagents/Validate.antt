-- ===== src/Subagents/Validate.antt =====
-- `validateLoopProposal` and `validateExecutorGate` of agent/src/core/subagents.ts.
use looping_agent.Prelude.{
  ℕ, String, Bool, true, false, ◌&&◌, ◌||◌, not, Option, none, some, [], ltb, leb, ◌==◌, string_eq,
  nat_eq, find, any, count, length,
}
use looping_agent.Js.Int.{ltb_ℤ}
use looping_agent.Js.Number.{Number}
use looping_agent.Js.Text.{big_int}
use looping_agent.Types.{protocol_eq, AppConfig}
use looping_agent.StrategyLedger.Status.{opening, active, loop_eq, is_existing}
use looping_agent.StrategyLedger.{
  Message, strategy_disabled, only_depth_one, only_usdc_sui, borrow_protocol_differs,
  target_not_different, source_position_missing, proposal_expired, health_factor_below,
  net_apr_below, borrow_usd_exceeds, borrow_raw_exceeds, borrow_raw_invalid, collateral_exceeds,
  risk_lock_blocks, plan_already_active, loops_exhausted, market_stale, positions_stale,
  proposal_satisfies, borrow_must_be_enabled, execution_must_be_enabled, gate_passed,
  LoopStrategyProposal, LoopPosition, StrategyLedger, is_past, is_fresh, active_loop_opening_plans,
}

-- `ProposalValidationResult`
pub data Verdict (F : Type 0) : Type 0 where
  allow deny : Message F → Verdict F

-- `if (test) return deny(reason)`, and what follows it.
abbrev pub deny_if : {F : Type 0} → Bool → Message F → Verdict F → Verdict F
deny_if true reason rest = deny reason
deny_if false reason rest = rest

-- A text that is missing or empty.
abbrev pub is_blank : Option String → Bool
is_blank none = true
is_blank (some s) = s == ""

module _ {F : Type 0} where
  -- The test of `activeLoopCount`.
  abbrev pub is_counted_loop : LoopPosition F → Bool
  is_counted_loop p = p.status == active || p.status == opening

module _ {F : Type 0} ⦃num : Number F⦄ where
  -- `BigInt(rawBorrowAmount) > maxBorrowRaw`, or the text is no integer.
  unfoldable pub check_raw : LoopStrategyProposal F → AppConfig F → Verdict F → Verdict F
  check_raw p config rest = elim (big_int p.raw_borrow_amount) [
    | none ↦ deny borrow_raw_invalid
    | some raw ↦
        deny_if (ltb_ℤ config.sui.max_borrow_raw raw) (borrow_raw_exceeds config.sui.max_borrow_raw)
          rest
  ]

  -- The tests that read the proposal and the configuration alone.
  unfoldable pub check_proposal : LoopStrategyProposal F → AppConfig F → ℕ → Verdict F → Verdict F
  check_proposal p config now rest = deny_if (not config.loop_strategy.enabled) strategy_disabled (
      deny_if (not (config.loop_strategy.max_depth == 1)) only_depth_one (
        deny_if (not (p.collateral_asset == "USDC") || not (p.borrow_asset == "SUI")) only_usdc_sui
          (deny_if (not (p.borrow_protocol == p.collateral_protocol)) borrow_protocol_differs (
            deny_if (p.supply_target_protocol == p.collateral_protocol) target_not_different (
              deny_if (is_existing p.proposal_type && is_blank p.source_position_id)
                source_position_missing
                (deny_if (is_past p.expires_at now) proposal_expired (
                  deny_if (num.lt p.projected_health_factor config.loop_strategy.min_health_factor)
                    (health_factor_below p.projected_health_factor
                      config.loop_strategy.min_health_factor)
                    (deny_if (num.lt p.projected_net_apr_bps config.loop_strategy.min_net_apr_bps)
                      (net_apr_below p.projected_net_apr_bps config.loop_strategy.min_net_apr_bps)
                      (deny_if (num.lt config.loop_strategy.max_borrow_usd p.borrow_usd)
                        (borrow_usd_exceeds config.loop_strategy.max_borrow_usd)
                        (check_raw p config (
                          deny_if
                            (not (is_existing p.proposal_type)
                              && num.lt config.loop_strategy.max_collateral_usd p.collateral_usd)
                            (collateral_exceeds config.loop_strategy.max_collateral_usd)
                            rest)))))))))))

  -- A snapshot by its id, and whether it is fresh.
  unfoldable pub market_is_fresh :
      LoopStrategyProposal F → StrategyLedger F → AppConfig F → ℕ → Bool
  market_is_fresh p ledger config now =
      elim (find (λ s. s.id == p.market_snapshot_id) ledger.market_snapshots) [
        | none ↦ false
        | some s ↦ is_fresh s.captured_at config.loop_strategy.stale_snapshot_ms now
      ]

  unfoldable pub positions_are_fresh :
      LoopStrategyProposal F → StrategyLedger F → AppConfig F → ℕ → Bool
  positions_are_fresh p ledger config now =
      elim (find (λ s. s.id == p.position_snapshot_id) ledger.position_snapshots) [
        | none ↦ false
        | some s ↦ is_fresh s.captured_at config.loop_strategy.stale_snapshot_ms now
      ]

  -- The tests that read the ledger.
  unfoldable pub check_ledger :
      LoopStrategyProposal F → StrategyLedger F → AppConfig F → ℕ → Verdict F
  check_ledger p ledger config now =
      deny_if (any (λ lock. lock.active) ledger.risk_locks) risk_lock_blocks (
        deny_if (ltb 0 (length (active_loop_opening_plans ledger))) plan_already_active (
          deny_if
            (leb config.loop_strategy.max_concurrent_loops
              (count is_counted_loop ledger.loop_positions))
            (loops_exhausted (count is_counted_loop ledger.loop_positions)
              config.loop_strategy.max_concurrent_loops)
            (deny_if (not (market_is_fresh p ledger config now)) market_stale (
              deny_if (not (positions_are_fresh p ledger config now)) positions_stale
                (allow proposal_satisfies)))))

  unfoldable pub validate_loop_proposal :
      LoopStrategyProposal F → StrategyLedger F → AppConfig F → ℕ → Verdict F
  validate_loop_proposal p ledger config now =
      check_proposal p config now (check_ledger p ledger config now)

  -- The gate before an execution: the proposal's own plan is left out of the ledger that it reads.
  unfoldable pub validate_executor_gate :
      LoopStrategyProposal F → StrategyLedger F → AppConfig F → ℕ → Verdict F
  validate_executor_gate p ledger config now =
      deny_if (not config.loop_strategy.enabled) strategy_disabled (
        deny_if (not config.runtime.dry_run && not config.sui.enable_borrow) borrow_must_be_enabled
          (deny_if (not config.runtime.dry_run && not config.loop_strategy.execution_enabled)
            execution_must_be_enabled
            (elim (validate_loop_proposal p (record ledger { accepted_plans = [] }) config now) [
              | deny reason ↦ deny reason
              | allow reason ↦ allow gate_passed
            ])))
