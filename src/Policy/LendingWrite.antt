-- ===== src/Policy/LendingWrite.antt =====
-- `evaluateLendingWrite` against an independent list of the conditions of a lending write.
use looping_agent.Prelude.{
  ◌≡◌, ◌≢◌, ◌↔◌, Bool, true, false, not, ◌&&◌, Option, none, some, any, arith, refl, ◌==◌,
  string_eq, eq_iff,
}
use looping_agent.Js.Int.{ℤ, pos, ◌≤ℤ◌}
use looping_agent.Js.Number.{Number}
use looping_agent.Js.Text.{big_int}
use looping_agent.Types.{
  AppConfig, LendingProtocol, PositionActionKind, supply, borrow, repay, withdraw, protocol_eq,
}
use looping_agent.StrategyLedger.{or_else}
use looping_agent.Policy.{
  Details, Decision, allowed, refuse_if, evaluate_lending_write, check_switches, check_amount,
  check_live, is_borrow, is_unhealthy, asset_of, is_listed, health_below, asset_required,
  asset_not_listed,
}

-- The text is a positive integer, and at most `max`.
abbrev pub IsBounded : Option ℤ → ℤ → Type 0
IsBounded none max = ⊥
IsBounded (some n) max = (pos 1 ≤ℤ n) × (n ≤ℤ max)

-- The cap of an action of this kind: debts have one, supplies and withdrawals another.
abbrev pub cap : PositionActionKind → ℤ → ℤ → ℤ
cap supply max_supply max_borrow = max_supply
cap withdraw max_supply max_borrow = max_supply
cap borrow max_supply max_borrow = max_borrow
cap repay max_supply max_borrow = max_borrow

module _ {F : Type 0} ⦃num : Number F⦄ where
  -- A finite health factor that is not below the floor.
  abbrev pub IsHealthy : Option F → F → Type 0
  IsHealthy none floor = ⊥
  IsHealthy (some h) floor = (num.is_finite h ≡ true) × (num.lt h floor ≡ false)

  pub record WriteAllowed (kind : PositionActionKind) (protocol : LendingProtocol)
      (details : Details F) (config : AppConfig F) : Type 0 where
    pub enabled : config.sui.enabled ≡ true
    pub listed_protocol : any (λ p. p == protocol) config.sui.allowed_protocols ≡ true
    pub write : (config.sui.protocols protocol).write ≡ true
    pub creation : kind ≡ supply → config.sui.enable_position_creation ≡ true
    pub borrowing : kind ≡ borrow → config.sui.enable_borrow ≡ true
    pub named_asset : asset_of details ≢ ""
    pub listed_asset : is_listed config (asset_of details) ≡ true
    pub bounded :
        IsBounded
          (big_int (or_else details.raw_amount "0"))
          (cap kind config.sui.max_supply_raw config.sui.max_borrow_raw)
    pub healthy :
        kind ≡ borrow → IsHealthy details.projected_health_factor config.sui.min_health_factor
    pub rpc_url : config.runtime.dry_run ≡ false → config.sui.rpc_url ≢ ""
    pub private_key : config.runtime.dry_run ≡ false → config.sui.private_key ≢ ""

  refuse_if-eq-allowed :
      (test : Bool) (reason rest : Decision F)
      → reason ≢ allowed
      → refuse_if test reason rest ≡ allowed
      → (test ≡ false) × (rest ≡ allowed)
  refuse_if-eq-allowed true reason rest n h = absurd (n h)
  refuse_if-eq-allowed false reason rest n h = (refl, h)

  check_switches_iff :
      (kind : PositionActionKind) (protocol : LendingProtocol) (config : AppConfig F)
      (rest : Decision F)
      → (check_switches kind protocol config rest ≡ allowed) ↔ (
          (config.sui.enabled ≡ true)
          × (any (λ p. p == protocol) config.sui.allowed_protocols ≡ true)
          × ((config.sui.protocols protocol).write ≡ true)
          × (kind ≡ supply → config.sui.enable_position_creation ≡ true)
          × (kind ≡ borrow → config.sui.enable_borrow ≡ true)
          × (rest ≡ allowed))
  unfolding check_switches
  check_switches_iff kind protocol config rest = ground arith

  check_amount_iff :
      (kind : PositionActionKind) (raw : Option ℤ) (config : AppConfig F) (rest : Decision F)
      → (check_amount kind raw config rest ≡ allowed) ↔ (
          IsBounded raw (cap kind config.sui.max_supply_raw config.sui.max_borrow_raw)
          × (rest ≡ allowed))
  unfolding check_amount
  check_amount_iff kind raw config rest = ground arith

  check_health_iff :
      (kind : PositionActionKind) (health : Option F) (config : AppConfig F) (rest : Decision F)
      → (refuse_if
            (is_borrow kind && is_unhealthy config health)
            (health_below config.sui.min_health_factor)
            rest
          ≡ allowed)
        ↔ ((kind ≡ borrow → IsHealthy health config.sui.min_health_factor) × (rest ≡ allowed))
  check_health_iff kind health config rest = ground arith

  check_live_iff :
      (config : AppConfig F)
      → (check_live config ≡ allowed) ↔ (
          (config.runtime.dry_run ≡ false → config.sui.rpc_url ≢ "")
          × (config.runtime.dry_run ≡ false → config.sui.private_key ≢ ""))
  unfolding check_live
  check_live_iff config =
      ground (arith, eq_iff config.sui.rpc_url "", eq_iff config.sui.private_key "")

  check_asset_iff :
      (details : Details F) (config : AppConfig F) (rest : Decision F)
      → (refuse_if
            (asset_of details == "")
            asset_required
            (refuse_if (not (is_listed config (asset_of details))) asset_not_listed rest)
          ≡ allowed)
        ↔ ((asset_of details ≢ "")
            × (is_listed config (asset_of details) ≡ true)
            × (rest ≡ allowed))
  check_asset_iff details config rest = ground (arith, eq_iff (asset_of details) "")

  -- A write is allowed exactly when every condition of `WriteAllowed` holds.
  pub evaluate_lending_write_iff :
      (kind : PositionActionKind) (protocol : LendingProtocol) (details : Details F)
      (config : AppConfig F)
      → (evaluate_lending_write kind protocol details config ≡ allowed)
        ↔ WriteAllowed kind protocol details config
  unfolding evaluate_lending_write
  evaluate_lending_write_iff kind protocol details config = (
    λ h.
        let (enabled, listed_protocol, write, creation, borrowing, h1) =
          (check_switches_iff kind protocol config _).0 h in
        let (named_asset, listed_asset, h2) = (check_asset_iff details config _).0 h1 in
        let (bounded, h3) = (check_amount_iff kind _ config _).0 h2 in
        let (healthy, h4) = (check_health_iff kind _ config _).0 h3 in
        let (rpc_url, private_key) = (check_live_iff config).0 h4 in
        record {
          enabled = enabled;
          listed_protocol = listed_protocol;
          write = write;
          creation = creation;
          borrowing = borrowing;
          named_asset = named_asset;
          listed_asset = listed_asset;
          bounded = bounded;
          healthy = healthy;
          rpc_url = rpc_url;
          private_key = private_key;
        },
    λ w. (check_switches_iff kind protocol config _).1 (
      w.enabled,
      w.listed_protocol,
      w.write,
      w.creation,
      w.borrowing,
      (check_asset_iff details config _).1 (
        w.named_asset,
        w.listed_asset,
        (check_amount_iff kind _ config _).1 (
          w.bounded,
          (check_health_iff kind _ config _).1
              (w.healthy, (check_live_iff config).1 (w.rpc_url, w.private_key)),
        ),
      ),
    ),
  )
