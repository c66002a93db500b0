-- ===== src/Types/Config.antt =====
-- `AppConfig`, as far as the policies and the pipeline read it. `F` is the type of numbers that
-- may have a fraction; raw amounts are bigints, which the configuration reads from decimal texts.
use looping_agent.Prelude.{ℕ, String, Bool, List}
use looping_agent.Js.Int.{ℤ}
use looping_agent.Types.Names.{LendingProtocol}

pub record RuntimeConfig : Type 0 where
  pub dry_run : Bool

-- `enabled` gates reads, `write` gates supply, withdraw, borrow and repay.
pub record ProtocolSwitch : Type 0 where
  pub enabled : Bool
  pub write : Bool

pub record LoopStrategyConfig (F : Type 0) : Type 0 where
  pub enabled : Bool
  pub execution_enabled : Bool
  pub collateral_asset : String
  pub borrow_asset : String
  pub max_depth : ℕ
  pub max_concurrent_loops : ℕ
  pub min_health_factor : F
  pub critical_health_factor : F
  pub max_borrow_usd : F
  pub max_collateral_usd : F
  pub min_net_apr_bps : F
  pub proposal_ttl_ms : ℕ
  pub stale_heartbeat_ms : ℕ
  pub stale_snapshot_ms : ℕ
  pub use_existing_collateral : Bool
  pub borrow_capacity_fraction : F
  pub execution_claim_ttl_ms : ℕ

-- `protocols[p]` is a function of `p`, since the three fields are those of the type.
pub record SuiConfig (F : Type 0) : Type 0 where
  pub enabled : Bool
  pub enable_position_creation : Bool
  pub enable_borrow : Bool
  pub rpc_url : String
  pub private_key : String
  pub allowed_assets : List String
  pub max_supply_raw : ℤ
  pub max_borrow_raw : ℤ
  pub min_health_factor : F
  pub allowed_protocols : List LendingProtocol
  pub rebalance_min_apr_delta_bps : F
  pub protocols : LendingProtocol → ProtocolSwitch

pub record AgentConfig : Type 0 where
  pub wallet_address : String
  pub action_cooldown_ms : ℕ

pub record PostingConfig : Type 0 where
  pub enable_posting : Bool
  pub user_access_token : String

pub record AppConfig (F : Type 0) : Type 0 where
  pub runtime : RuntimeConfig
  pub agent : AgentConfig
  pub x : PostingConfig
  pub sui : SuiConfig F
  pub loop_strategy : LoopStrategyConfig F
