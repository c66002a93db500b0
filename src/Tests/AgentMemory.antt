-- ===== src/Tests/AgentMemory.antt =====
-- The theorems on the agent's memory at concrete inputs.
use looping_agent.Prelude.{
  ℕ, ◌≡◌, ◌≢◌, refl, true, false, none, some, List, [], ◌∷◌, arith, any, ◌&&◌, eq_iff,
}
use looping_agent.Js.Text.{lower}
use looping_agent.Types.{PositionActionKind, AppConfig, suilend}
use looping_agent.AgentMemory.Records.{
  ActionStatus, TweetStatus, PendingTaskType, AgentPendingTask, AgentState,
  RecordPositionActionInput, RecordTweetInput,
}
use looping_agent.AgentMemory.Ops.{
  assign_action, new_action, is_tweet_for, record_position_action, record_tweet, is_supply_kind,
}
use looping_agent.AgentMemory.Cooldown.{
  tweet_pending, within_cooldown, is_tweet_task, posting_enabled, should_skip_write_action,
  check_cooldown,
}
use looping_agent.AgentMemory.Session.{Operation, begins, acts, posts, clears, perform_all}
use looping_agent.AgentMemory.WellFormed.{WellFormed}
use looping_agent.AgentMemory.Invariant.{perform_all-WellFormed}
use looping_agent.AgentMemory.Skips.{
  Some, RecentWrite, skipped_for_cooldown_iff, skipped_for_post_iff,
}
use looping_agent.AgentMemory.Blocks.{supply_blocks_supply, post_clears_task}
use looping_agent.Tests.Sample.{live_config}

abbrev input : RecordPositionActionInput
input = record {
  run_id = "run";
  protocol = suilend;
  action = PositionActionKind.supply;
  asset = "USDC";
  raw_amount = "1000";
  obligation_id = none;
  status = ActionStatus.confirmed;
  digest = some "digest";
  dry_run = false;
}

abbrev post : RecordTweetInput
post = record {
  action_id = some "digest";
  status = TweetStatus.posted;
  text = some "supplied";
  external_id = some "1";
}

abbrev pub empty : AgentState ℕ ℕ
empty = record {
  agent_name = "agent";
  wallet_address = "0x2a";
  updated_at = some 0;
  runs = [];
  position_actions = [];
  tweets = [];
  snapshots = record {
    last_suilend_obligation = none;
    last_usdc_balance_raw = none;
    last_top_market_asset = none;
    last_health_factor = none;
  };
  pending = [];
  artifacts = [];
}

pub empty-WellFormed : WellFormed empty
empty-WellFormed = record {
  runs = omega arith;
  tweets = omega arith;
  artifacts = omega arith;
  actions = record { bounded = omega arith; one_record = λ id. omega arith };
  pending = record { one_tweet = λ id. omega arith; one_alert = omega arith };
}

abbrev operations : List (Operation ℕ ℕ)
operations =
    begins "run"
    ∷ acts 1000 true input
    ∷ acts 2000 true input
    ∷ posts 3000 "tweet" post
    ∷ clears
    ∷ []

perform_all-WellFormed_example : WellFormed (perform_all operations empty)
perform_all-WellFormed_example = perform_all-WellFormed operations empty empty-WellFormed

-- The memory with the one action, and no task.
abbrev supplied : AgentState ℕ ℕ
supplied = record empty { position_actions = assign_action input (new_action 1000 input) ∷ [] }

is_within_cooldown :
    should_skip_write_action supplied live_config (some "usdc") PositionActionKind.supply 2000
    ≡ within_cooldown
unfolding should_skip_write_action check_cooldown assign_action new_action lower
is_within_cooldown = refl

skipped_for_cooldown_iff_example :
    (posting_enabled live_config
        && any is_tweet_task supplied.pending
        && is_supply_kind PositionActionKind.supply
      ≡ false)
    × Some (RecentWrite "usdc" PositionActionKind.supply 60000 2000) supplied.position_actions
skipped_for_cooldown_iff_example =
    (skipped_for_cooldown_iff supplied live_config "usdc" PositionActionKind.supply 2000
        (λ e. ground (arith, (eq_iff "usdc" "").1 e))).0
      is_within_cooldown

abbrev posting_config : AppConfig ℕ
posting_config = record live_config {
  x = record { enable_posting = true; user_access_token = "token" };
}

supply_blocks_supply_example :
    should_skip_write_action
      (perform_all (clears ∷ []) (record_position_action 1000 true input empty))
      posting_config
      none
      PositionActionKind.supply
      2000
    ≡ tweet_pending
supply_blocks_supply_example =
    supply_blocks_supply 1000 2000 input empty (clears ∷ []) posting_config none refl refl refl refl
      (tt, tt) refl

skipped_for_post_iff_example :
    (posting_config.x.enable_posting ≡ true)
    × (posting_config.x.user_access_token ≢ "")
    × Some
        (λ (task : AgentPendingTask ℕ). task.task ≡ PendingTaskType.tweet_action)
        (record_position_action 1000 true input empty).pending
    × (PositionActionKind.supply ≡ PositionActionKind.supply)
unfolding perform_all
skipped_for_post_iff_example =
    (skipped_for_post_iff (record_position_action 1000 true input empty) posting_config none
        PositionActionKind.supply 2000).0
      (supply_blocks_supply 1000 2000 input empty [] posting_config none refl refl refl refl tt
        refl)

post_clears_task_example :
    any
      (is_tweet_for "digest")
      (record_tweet 3000 "tweet" post (record_position_action 1000 true input empty)).pending
    ≡ false
post_clears_task_example =
    post_clears_task 3000 "tweet" "digest" post (record_position_action 1000 true input empty) refl
      (λ e. ground (arith, (eq_iff "digest" "").1 e)) refl
