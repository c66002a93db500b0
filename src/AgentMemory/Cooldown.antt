-- ===== src/AgentMemory/Cooldown.antt =====
-- `shouldSkipWriteAction` of agent/src/core/agentMemory.ts.
use looping_agent.Prelude.{
  ℕ, ◌+◌, String, Bool, true, false, not, ◌&&◌, Option, none, some, ◌==◌, string_eq, leb, any,
  if◌then◌else◌,
}
use looping_agent.Js.Text.{lower}
use looping_agent.Types.{PositionActionKind, AppConfig, Iso}
use looping_agent.Subagents.Validate.{is_blank}
use looping_agent.StrategyLedger.{or_else}
use looping_agent.AgentMemory.Records.{
  PendingTaskType, is_confirmed, kind_eq, AgentPositionActionRecord, AgentPendingTask, AgentState,
}
use looping_agent.AgentMemory.Ops.{is_supply_kind}

-- Why a write is skipped.
pub data Skip : Type 0 where
  no_skip tweet_pending within_cooldown : Skip

-- `new Date(createdAt).getTime() >= Date.now() - cooldown`
abbrev pub is_recent : Iso → ℕ → ℕ → Bool
is_recent none cooldown now = false
is_recent (some t) cooldown now = leb now (t + cooldown)

-- The test of `recent`.
abbrev pub is_recent_write : String → PositionActionKind → ℕ → ℕ → AgentPositionActionRecord → Bool
is_recent_write asset action cooldown now entry =
    not entry.dry_run
    && is_confirmed entry.status
    && lower entry.asset == lower asset
    && entry.action == action
    && is_recent entry.created_at cooldown now

module _ {F : Type 0} where
  abbrev pub posting_enabled : AppConfig F → Bool
  posting_enabled config = config.x.enable_posting && not (config.x.user_access_token == "")

  abbrev pub is_tweet_task : AgentPendingTask F → Bool
  is_tweet_task task = elim task.task [ PendingTaskType.tweet_action ↦ true | _ ↦ false ]

module _ {O F : Type 0} where
  -- From the test of the asset on.
  unfoldable pub check_cooldown :
      AgentState O F → AppConfig F → Option String → PositionActionKind → ℕ → Skip
  check_cooldown state config asset action now =
      if is_blank asset
      then no_skip
      else if any (is_recent_write (or_else asset "") action config.agent.action_cooldown_ms now)
          state.position_actions
      then within_cooldown
      else no_skip

  unfoldable pub should_skip_write_action :
      AgentState O F → AppConfig F → Option String → PositionActionKind → ℕ → Skip
  should_skip_write_action state config asset action now =
      if posting_enabled config && any is_tweet_task state.pending && is_supply_kind action
      then tweet_pending
      else check_cooldown state config asset action now
