-- ===== src/Policy/DryRun.antt =====
-- The policy of lending writes in a dry run and in a live run, and under the deprecated type names.
use looping_agent.Prelude.{◌≡◌, ◌≢◌, ◌↔◌, true, false, refl, some, arith, string_eq, Bool, String}
use looping_agent.Js.Number.{Number}
use looping_agent.Js.Text.{lower, text_slice}
use looping_agent.Types.{
  AppConfig, LendingProtocol, PositionActionKind, supply, withdraw, borrow, repay, protocol_eq,
}
use looping_agent.Policy.{
  Details, allowed, action_kind, evaluate_lending_write, evaluate_action_policy, resolve_protocol,
  resolve_text,
}
use looping_agent.Policy.LendingWrite.{evaluate_lending_write_iff}

-- The type of an action of each kind: the generic name, and the deprecated one.
abbrev pub lending_name : PositionActionKind → String
lending_name supply = "LENDING_SUPPLY"
lending_name withdraw = "LENDING_WITHDRAW"
lending_name borrow = "LENDING_BORROW"
lending_name repay = "LENDING_REPAY"

abbrev pub suilend_name : PositionActionKind → String
suilend_name supply = "SUILEND_SUPPLY"
suilend_name withdraw = "SUILEND_WITHDRAW"
suilend_name borrow = "SUILEND_BORROW"
suilend_name repay = "SUILEND_REPAY"

abbrev pub with_dry_run : {F : Type 0} → Bool → AppConfig F → AppConfig F
with_dry_run dry_run config = record config { runtime = record { dry_run = dry_run } }

module _ {F : Type 0} ⦃num : Number F⦄ where
  -- A live run allows a write exactly when a dry run with the same settings does and the RPC URL
  -- and the private key are there.
  pub dry_run_is_faithful :
      (kind : PositionActionKind) (protocol : LendingProtocol) (details : Details F)
      (config : AppConfig F)
      → (evaluate_lending_write kind protocol details (with_dry_run false config) ≡ allowed) ↔ (
          (evaluate_lending_write kind protocol details (with_dry_run true config) ≡ allowed)
          × (config.sui.rpc_url ≢ "")
          × (config.sui.private_key ≢ ""))
  dry_run_is_faithful kind protocol details config = (
    λ h.
        let w =
          (evaluate_lending_write_iff kind protocol details (with_dry_run false config)).0 h in
        (
          (evaluate_lending_write_iff kind protocol details (with_dry_run true config)).1 (record {
            enabled = w.enabled;
            listed_protocol = w.listed_protocol;
            write = w.write;
            creation = w.creation;
            borrowing = w.borrowing;
            named_asset = w.named_asset;
            listed_asset = w.listed_asset;
            bounded = w.bounded;
            healthy = w.healthy;
            rpc_url = λ e. ground arith;
            private_key = λ e. ground arith;
          }),
          w.rpc_url refl,
          w.private_key refl,
        ),
    λ h.
        let w =
          (evaluate_lending_write_iff kind protocol details (with_dry_run true config)).0 h.0 in
        (evaluate_lending_write_iff kind protocol details (with_dry_run false config)).1 (record {
          enabled = w.enabled;
          listed_protocol = w.listed_protocol;
          write = w.write;
          creation = w.creation;
          borrowing = w.borrowing;
          named_asset = w.named_asset;
          listed_asset = w.listed_asset;
          bounded = w.bounded;
          healthy = w.healthy;
          rpc_url = λ _. h.1;
          private_key = λ _. h.2;
        }),
  )

  -- Each of the four deprecated type names `SUILEND_…` is decided as `LENDING_…` of the same kind
  -- with `suilend` as the protocol of the details, whatever protocol its own details name.
  pub alias_is_suilend :
      (kind : PositionActionKind) (details : Details F) (config : AppConfig F)
      → evaluate_action_policy (suilend_name kind) details config
        ≡ evaluate_action_policy
            (lending_name kind)
            (record details { protocol = some "suilend" })
            config
  unfolding evaluate_action_policy action_kind resolve_protocol resolve_text lower text_slice
      evaluate_lending_write
  alias_is_suilend supply details config = refl
  alias_is_suilend withdraw details config = refl
  alias_is_suilend borrow details config = refl
  alias_is_suilend repay details config = refl
