-- ===== src/Policy.antt =====
-- agent/src/core/policy.ts: the policy of lending writes, the health guard and the rebalance threshold.
pub mod LendingWrite
pub mod DryRun
pub mod Rebalance
use looping_agent.Prelude.{
  ℕ, String, Bool, true, false, not, ◌&&◌, ◌||◌, Option, none, some, List, [], ◌∷◌, any, ltb, ◌==◌,
  string_eq, if◌then◌else◌, length,
}
use looping_agent.Js.Int.{ℤ, pos, ltb_ℤ, leb_ℤ}
use looping_agent.Js.Number.{Number}
use looping_agent.Js.Text.{lower, text_slice, big_int}
use looping_agent.Types.{
  AppConfig, LendingProtocol, suilend, navi, scallop, PositionActionKind, supply, withdraw, borrow,
  repay, protocol_eq,
}
use looping_agent.StrategyLedger.{or_else, PositionLeg, ProtocolPositionSnapshot}

-- `ACTION_KIND[type]`
unfoldable pub action_kind : String → Option PositionActionKind
action_kind type =
    if type == "LENDING_SUPPLY" || type == "SUILEND_SUPPLY"
    then some supply
    else if type == "LENDING_WITHDRAW" || type == "SUILEND_WITHDRAW"
    then some withdraw
    else if type == "LENDING_BORROW" || type == "SUILEND_BORROW"
    then some borrow
    else if type == "LENDING_REPAY" || type == "SUILEND_REPAY"
    then some repay
    else none

-- `action.details`, each entry as the policy reads it: `String(entry)`, and for the health factor
-- `Number(entry)`; `none` where the entry is null or missing.
pub record Details (F : Type 0) : Type 0 where
  pub protocol : Option String
  pub asset : Option String
  pub coin_type : Option String
  pub raw_amount : Option String
  pub projected_health_factor : Option F

-- `Allowed`, or the reason of a denial.
pub data Decision (F : Type 0) : Type 0 where
  allowed : Decision F
  unknown_action : String → Decision F
  lending_disabled : Decision F
  protocol_not_listed writes_disabled : LendingProtocol → Decision F
  creation_disabled borrow_disabled asset_required asset_not_listed : Decision F
  amount_invalid amount_not_positive : Decision F
  amount_exceeds : PositionActionKind → Decision F
  health_below : F → Decision F
  rpc_url_missing private_key_missing : Decision F

-- `if (test) return deny(reason)`, and what follows it.
abbrev pub refuse_if : {F : Type 0} → Bool → Decision F → Decision F → Decision F
refuse_if true reason rest = reason
refuse_if false reason rest = rest

abbrev pub is_supply : PositionActionKind → Bool
is_supply supply = true
is_supply _ = false

abbrev pub is_borrow : PositionActionKind → Bool
is_borrow borrow = true
is_borrow _ = false

abbrev pub is_debt : PositionActionKind → Bool
is_debt borrow = true
is_debt repay = true
is_debt _ = false

-- `resolveProtocol`
unfoldable pub resolve_text : String → LendingProtocol
resolve_text raw = if raw == "navi" then navi else if raw == "scallop" then scallop else suilend

module _ {F : Type 0} where
  unfoldable pub resolve_protocol : String → Details F → LendingProtocol
  resolve_protocol type details =
      if text_slice 8 type == "SUILEND_"
      then suilend
      else resolve_text (lower (or_else details.protocol "suilend"))

  -- `String(details.asset ?? details.coinType ?? '')`
  abbrev pub asset_of : Details F → String
  asset_of details = or_else details.asset (or_else details.coin_type "")

  abbrev pub is_listed : AppConfig F → String → Bool
  is_listed config asset =
      not (ltb 0 (length config.sui.allowed_assets))
      || any (λ entry. lower entry == lower asset) config.sui.allowed_assets

  -- `maxAmount`
  abbrev pub max_amount : AppConfig F → PositionActionKind → ℤ
  max_amount config kind =
      if is_debt kind then config.sui.max_borrow_raw else config.sui.max_supply_raw

  -- The tests of `rawAmount`, and what follows them.
  unfoldable pub check_amount :
      PositionActionKind → Option ℤ → AppConfig F → Decision F → Decision F
  check_amount kind none config rest = amount_invalid
  check_amount kind (some raw) config rest =
      refuse_if (leb_ℤ raw (pos 0)) amount_not_positive
        (refuse_if (ltb_ℤ (max_amount config kind) raw) (amount_exceeds kind) rest)

  -- The tests that a dry run skips.
  unfoldable pub check_live : AppConfig F → Decision F
  check_live config =
      if config.runtime.dry_run
      then allowed
      else refuse_if (config.sui.rpc_url == "") rpc_url_missing
          (refuse_if (config.sui.private_key == "") private_key_missing allowed)

  -- The switches, before the bounds.
  unfoldable pub check_switches :
      PositionActionKind → LendingProtocol → AppConfig F → Decision F → Decision F
  check_switches kind protocol config rest = refuse_if (not config.sui.enabled) lending_disabled (
      refuse_if (not (any (λ p. p == protocol) config.sui.allowed_protocols))
        (protocol_not_listed protocol)
        (refuse_if (not (config.sui.protocols protocol).write) (writes_disabled protocol) (
          refuse_if (is_supply kind && not config.sui.enable_position_creation) creation_disabled
            (refuse_if (is_borrow kind && not config.sui.enable_borrow) borrow_disabled rest))))

module _ {F : Type 0} ⦃num : Number F⦄ where
  -- A health factor that is no finite number, or below the floor.
  abbrev pub is_unhealthy : AppConfig F → Option F → Bool
  is_unhealthy config none = true
  is_unhealthy config (some health) =
      not (num.is_finite health) || num.lt health config.sui.min_health_factor

  unfoldable pub evaluate_lending_write :
      PositionActionKind → LendingProtocol → Details F → AppConfig F → Decision F
  evaluate_lending_write kind protocol details config = check_switches kind protocol config (
      refuse_if (asset_of details == "") asset_required (
        refuse_if (not (is_listed config (asset_of details))) asset_not_listed (
          check_amount kind (big_int (or_else details.raw_amount "0")) config (
            refuse_if (is_borrow kind && is_unhealthy config details.projected_health_factor)
              (health_below config.sui.min_health_factor) (check_live config)))))

  -- The action's type and details.
  unfoldable pub evaluate_action_policy : String → Details F → AppConfig F → Decision F
  evaluate_action_policy type details config =
      if type == "OBSERVE" then allowed else elim (action_kind type) [
        | none ↦ unknown_action type
        | some kind ↦ evaluate_lending_write kind (resolve_protocol type details) details config
      ]

  -- `evaluateHealthGuard`, whether the position is critical.
  unfoldable pub evaluate_health_guard : {A : Type 0} → List A → F → AppConfig F → Bool
  evaluate_health_guard [] health config = false
  evaluate_health_guard (_ ∷ _) health config = not (num.le config.sui.min_health_factor health)

  -- `shouldRebalance`: whether to move, and the gain in basis points.
  unfoldable pub should_rebalance : F → F → AppConfig F → Bool × F
  should_rebalance current candidate config =
      let delta = num.round (num.mul (num.sub candidate current) (num.of_ℕ 100)) in
      (not (num.lt delta config.sui.rebalance_min_apr_delta_bps), delta)
