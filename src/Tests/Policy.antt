-- ===== src/Tests/Policy.antt =====
-- The theorems on the policies at concrete inputs.
use looping_agent.Prelude.{ℕ, ◌≡◌, ◌≢◌, refl, true, none, some}
use looping_agent.Js.Text.{big_int, lower}
use looping_agent.Types.{navi, borrow}
use looping_agent.Policy.{
  Details, allowed, evaluate_lending_write, evaluate_action_policy, check_switches, check_amount,
  check_live,
}
use looping_agent.Policy.LendingWrite.{WriteAllowed, evaluate_lending_write_iff}
use looping_agent.Policy.DryRun.{dry_run_is_faithful, alias_is_suilend, with_dry_run}
use looping_agent.Tests.Sample.{hundredths, live_config}

abbrev details : Details ℕ
details = record {
  protocol = some "NAVI";
  asset = some "usdc";
  coin_type = none;
  raw_amount = some "4000000";
  projected_health_factor = some 170;
}

borrow_is_allowed : evaluate_lending_write borrow navi details live_config ≡ allowed
unfolding evaluate_lending_write check_switches check_amount check_live big_int lower
borrow_is_allowed = refl

evaluate_lending_write_iff_example : WriteAllowed borrow navi details live_config
evaluate_lending_write_iff_example =
    (evaluate_lending_write_iff borrow navi details live_config).0 borrow_is_allowed

dry_run_is_faithful_example :
    (evaluate_lending_write borrow navi details (with_dry_run true live_config) ≡ allowed)
    × (live_config.sui.rpc_url ≢ "")
    × (live_config.sui.private_key ≢ "")
dry_run_is_faithful_example =
    (dry_run_is_faithful borrow navi details live_config).0 borrow_is_allowed

alias_is_suilend_example :
    evaluate_action_policy "SUILEND_BORROW" details live_config
    ≡ evaluate_action_policy "LENDING_BORROW"
        (record details { protocol = some "suilend" })
        live_config
alias_is_suilend_example = alias_is_suilend borrow details live_config
