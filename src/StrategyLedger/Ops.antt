-- ===== src/StrategyLedger/Ops.antt =====
-- The functions of agent/src/core/strategyLedger.ts on a ledger in memory.
use looping_agent.Prelude.{
  ℕ, ◌+◌, String, Bool, true, false, ◌&&◌, ◌||◌, Option, none, some, List, [], ◌∷◌, map, ltb, leb,
  ◌==◌, if◌then◌else◌, head?, filter, take,
}
use looping_agent.Js.Text.{lower}
use looping_agent.Types.{
  SubagentRole, coordinator, rate_scout, position_risk, loop_strategist, executor, unwind_guard,
  Iso, role_eq,
}
use looping_agent.StrategyLedger.Status.{
  SubagentStatus, idle, ok, accepted, executing, plan_eq, ArchiveKind,
}
use looping_agent.StrategyLedger.Records.{
  Message, SubagentHeartbeat, MarketSnapshot, PositionSnapshot, AcceptedPlan, RiskLock,
  StrategyLedger,
}

-- `SUBAGENT_ROLES`
abbrev pub subagent_roles : List SubagentRole
subagent_roles =
    coordinator ∷ rate_scout ∷ position_risk ∷ loop_strategist ∷ executor ∷ unwind_guard ∷ []

abbrev pub max_snapshots : ℕ
max_snapshots = 50

-- `MAX_PROPOSALS`, `MAX_PLANS`, `MAX_RECEIPTS`, `MAX_LOCKS` and `MAX_ARCHIVES`
abbrev pub max_records : ℕ
max_records = 100

-- `new Date(iso).getTime() <= now`: false where the text is no date.
abbrev pub is_past : Iso → ℕ → Bool
is_past none now = false
is_past (some t) now = leb t now

-- `now - new Date(iso).getTime() > ms`
abbrev pub older_than : Iso → ℕ → ℕ → Bool
older_than none ms now = false
older_than (some t) ms now = ltb (t + ms) now

-- `isFresh` of a text that is there
unfoldable pub is_fresh : Iso → ℕ → ℕ → Bool
is_fresh none ms now = false
is_fresh (some t) ms now = leb now (t + ms)

-- What `recordHeartbeat` is given.
pub record HeartbeatInput (F : Type 0) : Type 0 where
  pub run_id : Option String
  pub status : Option SubagentStatus
  pub enabled : Option Bool
  pub message : Option (Message F)

-- `a ?? b`
abbrev pub or_else {ℓ} : {A : Type ℓ} → Option A → A → A
or_else none b = b
or_else (some a) b = a

module _ {F : Type 0} where
  unfoldable pub create_empty_strategy_ledger : String → ℕ → StrategyLedger F
  create_empty_strategy_ledger wallet now = record {
    wallet_address = lower wallet;
    updated_at = some now;
    subagents = λ role. record {
      role = role;
      enabled = true;
      heartbeat_at = some now;
      last_run_id = none;
      status = idle;
      message = none;
    };
    market_snapshots = [];
    position_snapshots = [];
    strategy_proposals = [];
    accepted_plans = [];
    execution_receipts = [];
    risk_locks = [];
    loop_positions = [];
    walrus_archives = [];
  }

  unfoldable pub record_heartbeat :
      ℕ → SubagentRole → HeartbeatInput F → StrategyLedger F → StrategyLedger F
  record_heartbeat now role input ledger = record ledger {
    subagents = λ r.
        if r == role
        then record {
          role = role;
          enabled = or_else input.enabled true;
          heartbeat_at = some now;
          last_run_id = input.run_id;
          status = or_else input.status ok;
          message = input.message;
        }
        else ledger.subagents r;
  }

  unfoldable pub stale_subagents : StrategyLedger F → ℕ → ℕ → List (SubagentHeartbeat F)
  stale_subagents ledger stale_ms now =
      filter (λ h. h.enabled && older_than h.heartbeat_at stale_ms now)
        (map ledger.subagents subagent_roles)

  unfoldable pub active_risk_locks : StrategyLedger F → List (RiskLock F)
  active_risk_locks ledger = filter (λ lock. lock.active) ledger.risk_locks

  -- A plan that is opening a loop.
  abbrev pub is_opening_plan : AcceptedPlan F → Bool
  is_opening_plan plan = plan.status == accepted || plan.status == executing

  unfoldable pub active_loop_opening_plans : StrategyLedger F → List (AcceptedPlan F)
  active_loop_opening_plans ledger = filter is_opening_plan ledger.accepted_plans

  abbrev pub latest_market_snapshot : StrategyLedger F → Option (MarketSnapshot F)
  latest_market_snapshot ledger = head? ledger.market_snapshots

  abbrev pub latest_position_snapshot : StrategyLedger F → Option (PositionSnapshot F)
  latest_position_snapshot ledger = head? ledger.position_snapshots

  unfoldable pub append_walrus_archive :
      ℕ → ArchiveKind → String → String → String → StrategyLedger F → StrategyLedger F
  append_walrus_archive now kind record_id blob_id url ledger = record ledger {
    walrus_archives =
        record {
          blob_id = blob_id;
          url = url;
          kind = kind;
          record_id = record_id;
          created_at = some now;
        }
        ∷ ledger.walrus_archives;
  }

  -- The loop positions are not pruned.
  unfoldable pub prune_ledger : StrategyLedger F → StrategyLedger F
  prune_ledger ledger = record ledger {
    market_snapshots = take max_snapshots ledger.market_snapshots;
    position_snapshots = take max_snapshots ledger.position_snapshots;
    strategy_proposals = take max_records ledger.strategy_proposals;
    accepted_plans = take max_records ledger.accepted_plans;
    execution_receipts = take max_records ledger.execution_receipts;
    risk_locks = take max_records ledger.risk_locks;
    walrus_archives = take max_records ledger.walrus_archives;
  }

  -- `StrategyLedgerStore.update`, on the ledger that `load` returns: the mutator, the pruning and
  -- the save, which stamps the time.
  unfoldable pub update :
      ℕ → (StrategyLedger F → StrategyLedger F) → StrategyLedger F → StrategyLedger F
  update now mutator ledger = record (prune_ledger (mutator ledger)) { updated_at = some now }
