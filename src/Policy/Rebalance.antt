-- ===== src/Policy/Rebalance.antt =====
-- `evaluateRebalanceBreakeven` of agent/src/core/policy.ts. The reasons are left out.
use looping_agent.Prelude.{Bool, ◌&&◌, not}
use looping_agent.Js.Number.{Number}
use looping_agent.Types.{AppConfig}
use looping_agent.Policy.{should_rebalance}

pub record RebalanceBreakevenInput (F : Type 0) : Type 0 where
  pub current_net_apr : F
  pub target_net_apr : F
  pub amount_usd : F
  pub horizon_days : F
  pub cost_usd : F

pub record Breakeven (F : Type 0) : Type 0 where
  pub act : Bool
  pub delta_bps : F
  pub expected_gain_usd : F
  pub cost_usd : F

module _ {F : Type 0} ⦃num : Number F⦄ where
  unfoldable pub expected_gain : RebalanceBreakevenInput F → F
  expected_gain input =
      num.mul
        (num.mul (num.div (num.sub input.target_net_apr input.current_net_apr) (num.of_ℕ 100))
          (num.max (num.of_ℕ 0) input.amount_usd))
        (num.div (num.max (num.of_ℕ 0) input.horizon_days) (num.of_ℕ 365))

  unfoldable pub evaluate_rebalance_breakeven :
      RebalanceBreakevenInput F → AppConfig F → Breakeven F
  evaluate_rebalance_breakeven input config =
      let floor = should_rebalance input.current_net_apr input.target_net_apr config in
      let gain = expected_gain input in
      let cost = num.max (num.of_ℕ 0) input.cost_usd in
      record {
        act = floor.0 && not (num.le gain cost);
        delta_bps = floor.1;
        expected_gain_usd = gain;
        cost_usd = cost;
      }
