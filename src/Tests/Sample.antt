-- ===== src/Tests/Sample.antt =====
-- A sample: natural numbers in place of doubles, a configuration and a ledger with one accepted
-- plan, one loop and one position below the critical health factor.
use looping_agent.Prelude.{
  ℕ, ◌+◌, ◌-◌, ◌*◌, ◌/◌, Bool, true, false, none, some, [], ◌∷◌, ltb, leb, if◌then◌else◌,
}
use looping_agent.Js.Int.{pos}
use looping_agent.Js.Number.{Number}
use looping_agent.Js.Text.{decimal}
use looping_agent.Types.{LendingProtocol, suilend, navi, scallop, SubagentRole, AppConfig}
use looping_agent.StrategyLedger.Status.{
  ProposalStatus, PlanStatus, LoopPositionStatus, open_loop, PositionSide,
}
use looping_agent.StrategyLedger.{
  MarketSnapshot, ProtocolPositionSnapshot, PositionSnapshot, LoopStrategyProposal, AcceptedPlan,
  LoopPosition, RiskLock, StrategyLedger, proposal_satisfies, health_critical,
  create_empty_strategy_ledger,
}
use looping_agent.StrategyLedger.Status.{RiskLockSeverity}
use looping_agent.Subagents.Live.{LiveCalls, returns}

-- Hundredths; the greatest number stands for infinity.
instance abbrev pub hundredths : Number ℕ
hundredths = record {
  lt = ltb;
  le = leb;
  add = ◌+◌;
  sub = ◌-◌;
  mul = ◌*◌;
  div = ◌/◌;
  min = λ a b. if leb a b then a else b;
  max = λ a b. if leb a b then b else a;
  round = λ a. a;
  floor = λ a. a;
  is_finite = λ a. ltb a 1000000000000000000;
  of_ℕ = λ n. n;
  to_fixed = λ _ a. decimal a;
  infinity = 1000000000000000000;
  neg_infinity = 0;
  abs = λ a. a;
}

abbrev pub config_with : Bool → AppConfig ℕ
config_with dry_run = record {
  runtime = record { dry_run = dry_run };
  agent = record { wallet_address = "0x2a"; action_cooldown_ms = 60000 };
  x = record { enable_posting = false; user_access_token = "" };
  sui = record {
    enabled = true;
    enable_position_creation = true;
    enable_borrow = true;
    rpc_url = "https://sui.example";
    private_key = "key";
    allowed_assets = "USDC" ∷ "SUI" ∷ [];
    max_supply_raw = pos 10000000;
    max_borrow_raw = pos 5000000;
    min_health_factor = 150;
    allowed_protocols = suilend ∷ navi ∷ scallop ∷ [];
    rebalance_min_apr_delta_bps = 50;
    protocols = λ _. record { enabled = true; write = true };
  };
  loop_strategy = record {
    enabled = true;
    execution_enabled = true;
    collateral_asset = "USDC";
    borrow_asset = "SUI";
    max_depth = 1;
    max_concurrent_loops = 1;
    min_health_factor = 150;
    critical_health_factor = 120;
    max_borrow_usd = 5000;
    max_collateral_usd = 10000;
    min_net_apr_bps = 10;
    proposal_ttl_ms = 300000;
    stale_heartbeat_ms = 600000;
    stale_snapshot_ms = 600000;
    use_existing_collateral = true;
    borrow_capacity_fraction = 50;
    execution_claim_ttl_ms = 60000;
  };
}

abbrev pub live_config : AppConfig ℕ
live_config = config_with false

abbrev pub market : MarketSnapshot ℕ
market = record { id = "market"; run_id = "run"; captured_at = some 1000; rates = [] }

-- A position on `protocol` with a borrow and the health factor `health`.
abbrev pub borrowed : LendingProtocol → ℕ → ProtocolPositionSnapshot ℕ
borrowed protocol health = record {
  protocol = protocol;
  health_factor = health;
  borrow_limit_usd = 100;
  weighted_borrows_usd = 90;
  deposited_amount_usd = 200;
  borrowed_amount_usd = 90;
  obligation_id = none;
  obligation_owner_cap_id = none;
  obligation_key_id = none;
  deposits = [];
  borrows =
      record {
        protocol = protocol;
        asset = "SUI";
        coin_type = "0x2::sui::SUI";
        raw_amount = "1000";
        amount_usd = 90;
        side = PositionSide.borrow;
      }
      ∷ [];
}

abbrev pub positions : ℕ → PositionSnapshot ℕ
positions health = record {
  id = "positions";
  run_id = "run";
  wallet_address = "0x2a";
  captured_at = some 1000;
  protocols = borrowed suilend 300 ∷ borrowed navi health ∷ [];
}

abbrev pub proposal : LoopStrategyProposal ℕ
proposal = record {
  id = "proposal";
  run_id = "run";
  proposer_role = SubagentRole.loop_strategist;
  proposal_type = open_loop;
  created_by = none;
  created_at = some 1000;
  expires_at = some 301000;
  status = ProposalStatus.open_;
  collateral_asset = "USDC";
  borrow_asset = "SUI";
  collateral_protocol = suilend;
  borrow_protocol = suilend;
  supply_target_protocol = navi;
  raw_collateral_amount = "10000000";
  raw_borrow_amount = "4000000";
  collateral_usd = 1000;
  borrow_usd = 400;
  projected_health_factor = 200;
  projected_net_apr_bps = 30;
  unwind_path = [];
  market_snapshot_id = "market";
  position_snapshot_id = "positions";
  source_position_id = none;
  target_supply_asset = none;
  net_apr_bps = none;
  rationale = none;
  rejection_reason = none;
}

abbrev pub plan : AcceptedPlan ℕ
plan = record {
  id = "plan-proposal";
  proposal_id = "proposal";
  accepted_at = some 2000;
  status = PlanStatus.accepted;
  policy = record { allowed = true; reason = proposal_satisfies; checked_at = some 2000 };
  executor_run_id = none;
  claimed_by = none;
  claimed_at = none;
  claim_expires_at = none;
  execution_fingerprint = none;
  execution_receipt_id = none;
  failure_reason = none;
}

abbrev pub loop_on : LendingProtocol → LoopPosition ℕ
loop_on protocol = record {
  id = "loop";
  plan_id = "earlier";
  proposal_id = "earlier";
  opened_at = some 500;
  status = LoopPositionStatus.active;
  collateral_protocol = protocol;
  supply_target_protocol = navi;
  collateral_asset = "USDC";
  borrow_asset = "SUI";
  raw_collateral_amount = "1000";
  raw_borrow_amount = "400";
  borrow_usd = 400;
  depth = 1;
  unwind_status = none;
}

abbrev pub lock : RiskLock ℕ
lock = record {
  id = "risk-lock";
  created_at = some 1500;
  role = SubagentRole.unwind_guard;
  severity = RiskLockSeverity.critical;
  reason = health_critical 110 120;
  active = true;
  protocol = some navi;
  health_factor = some 110;
  cleared_at = none;
}

abbrev pub empty_ledger : StrategyLedger ℕ
empty_ledger = create_empty_strategy_ledger "0x2A" 0

-- Both snapshots and the open proposal.
abbrev pub proposed : StrategyLedger ℕ
proposed = record empty_ledger {
  market_snapshots = market ∷ [];
  position_snapshots = positions 300 ∷ [];
  strategy_proposals = proposal ∷ [];
}

-- The same after its acceptance.
abbrev pub planned : StrategyLedger ℕ
planned = record proposed { accepted_plans = plan ∷ [] }

-- A loop on Suilend while the position on NAVI is critical.
abbrev pub endangered : StrategyLedger ℕ
endangered = record planned {
  position_snapshots = positions 110 ∷ [];
  loop_positions = loop_on suilend ∷ [];
}

abbrev pub locked : StrategyLedger ℕ
locked = record planned { risk_locks = lock ∷ [] }

abbrev pub calls : LiveCalls
calls = record {
  assert_wallet_matches = returns tt;
  collateral_supply = returns "digest-1";
  get_positions = returns tt;
  borrow = returns "digest-2";
  target_supply = returns "digest-3";
}
