-- ===== src/AgentMemory/Ops.antt =====
-- The functions of agent/src/core/agentMemory.ts that change the state. `now` is the time of the
-- call, and `run_id` and `tweet_id` are the texts made from it.
use Prim.Native.String.{◌++◌ as append}
use mathlib.Core.Option
use looping_agent.Prelude.{
  ℕ, String, Bool, true, false, not, ◌&&◌, Option, none, some, [], ◌∷◌, ◌++◌, ◌==◌, string_eq,
  if◌then◌else◌, ltb, find, any, filter, take, update_first,
}
use looping_agent.Js.Text.{template, lower, text_length, text_slice}
use looping_agent.Types.{PositionActionKind, protocol_text}
use looping_agent.StrategyLedger.{or_else}
use looping_agent.Subagents.Validate.{is_blank}
use looping_agent.AgentMemory.Records.{
  PendingTaskType, is_confirmed, is_posted, kind_eq, AgentRunRecord, AgentPositionActionRecord,
  AgentTweetRecord, AgentPendingTask, AgentSnapshots, AgentArtifactRecord, AgentState,
  RecordPositionActionInput, RecordTweetInput, SuggestedAction,
}

-- `MAX_RUNS`, `MAX_TWEETS` and `MAX_ARTIFACTS`
abbrev pub max_entries : ℕ
max_entries = 50

abbrev pub max_actions : ℕ
max_actions = 100

abbrev summary_max_length : ℕ
summary_max_length = 2000

unfoldable pub kind_text : PositionActionKind → String
kind_text PositionActionKind.supply = "supply"
kind_text PositionActionKind.withdraw = "withdraw"
kind_text PositionActionKind.borrow = "borrow"
kind_text PositionActionKind.repay = "repay"

abbrev pub is_supply_kind : PositionActionKind → Bool
is_supply_kind action = action == PositionActionKind.supply

-- `if (text) field = text`
abbrev keep_blank : Option String → Option String → Option String
keep_blank text field = if is_blank text then field else text

abbrev pub has_action_id : String → AgentPositionActionRecord → Bool
has_action_id id action = action.id == id

unfoldable pub action_id_of : RecordPositionActionInput → String
action_id_of input = or_else input.digest (
    template (
      (if input.dry_run then "dry-run-" else "")
      ∷ input.run_id
      ∷ "-"
      ∷ protocol_text input.protocol
      ∷ "-"
      ∷ kind_text input.action
      ∷ "-"
      ∷ lower input.asset
      ∷ []))

-- The assignments from `record.runId` to `record.digest`.
unfoldable pub assign_action :
    RecordPositionActionInput → AgentPositionActionRecord → AgentPositionActionRecord
assign_action input action = record action {
  run_id = input.run_id;
  protocol = input.protocol;
  action = input.action;
  asset = input.asset;
  raw_amount = input.raw_amount;
  status = input.status;
  dry_run = input.dry_run;
  obligation_id = keep_blank input.obligation_id action.obligation_id;
  digest = keep_blank input.digest action.digest;
}

unfoldable pub new_action : ℕ → RecordPositionActionInput → AgentPositionActionRecord
new_action now input = record {
  id = action_id_of input;
  run_id = input.run_id;
  protocol = input.protocol;
  action = input.action;
  asset = input.asset;
  raw_amount = input.raw_amount;
  obligation_id = none;
  digest = none;
  status = input.status;
  dry_run = input.dry_run;
  created_at = some now;
  tweeted = false;
  tweet_id = none;
}

-- Whether a recorded action is to be posted.
unfoldable pub wants_tweet : Bool → AgentPositionActionRecord → Bool
wants_tweet enable_posting action =
    enable_posting
    && is_confirmed action.status
    && not action.dry_run
    && not action.tweeted
    && action.action == PositionActionKind.supply

unfoldable pub mark_tweeted : Option String → AgentPositionActionRecord → AgentPositionActionRecord
mark_tweeted external_id action = record action {
  tweeted = true;
  tweet_id = keep_blank external_id action.tweet_id;
}

-- `{ ...a, ...b }`: an entry of the second, where it has one.
abbrev prefer {ℓ} : {A : Type ℓ} → Option A → Option A → Option A
prefer (some a) b = some a
prefer none b = b

unfoldable pub new_run : String → AgentRunRecord
new_run run_id = record { run_id = run_id; started_at = run_id; ended_at = none; summary = none }

unfoldable pub new_tweet : ℕ → String → RecordTweetInput → AgentTweetRecord
new_tweet now tweet_id input = record {
  id = or_else input.external_id tweet_id;
  action_id = keep_blank input.action_id none;
  status = input.status;
  text = keep_blank input.text none;
  external_id = keep_blank input.external_id none;
  created_at = some now;
}

module _ {F : Type 0} where
  abbrev pub is_tweet_for : String → AgentPendingTask F → Bool
  is_tweet_for id task = elim task.task [
    | PendingTaskType.tweet_action ↦ elim task.action_id [ none ↦ false | some a ↦ a == id ]
    | _ ↦ false
  ]

  abbrev pub is_health_alert : AgentPendingTask F → Bool
  is_health_alert task = elim task.task [ PendingTaskType.health_alert ↦ true | _ ↦ false ]

  unfoldable pub tweet_task : ℕ → String → AgentPendingTask F
  tweet_task now id = record {
    task = PendingTaskType.tweet_action;
    action_id = some id;
    obligation_id = none;
    health_factor = none;
    suggested_action = none;
    created_at = some now;
  }

module _ {O F : Type 0} where
  -- The text of the time is the run's id.
  unfoldable pub begin_run : String → AgentState O F → AgentState O F
  begin_run run_id state = record state { runs = take max_entries (new_run run_id ∷ state.runs) }

  unfoldable pub end_run : ℕ → String → Option String → AgentState O F → AgentState O F
  end_run now run_id summary state = record state {
    runs =
        update_first (λ run. run.run_id == run_id)
          (λ run. record run {
            ended_at = some (some now);
            summary =
                keep_blank
                  (Option.map
                    (λ text.
                      if ltb summary_max_length (text_length text)
                      then append (text_slice summary_max_length text) "…"
                      else text)
                    summary)
                  run.summary;
          })
          state.runs;
  }

  unfoldable pub queue_tweet :
      ℕ → Bool → AgentPositionActionRecord → AgentState O F → AgentState O F
  queue_tweet now enable_posting action state =
      if wants_tweet enable_posting action && not (any (is_tweet_for action.id) state.pending)
      then record state { pending = state.pending ++ (tweet_task now action.id ∷ []) }
      else state

  -- From the search for an existing record on.
  unfoldable pub record_found :
      ℕ
      → Bool
      → RecordPositionActionInput
      → Option AgentPositionActionRecord
      → AgentState O F
      → AgentState O F
  record_found now enable_posting input (some existing) state =
      queue_tweet now enable_posting (assign_action input existing) (record state {
        position_actions =
            update_first (has_action_id (action_id_of input)) (assign_action input)
              state.position_actions;
      })
  record_found now enable_posting input none state =
      queue_tweet now enable_posting (assign_action input (new_action now input)) (record state {
        position_actions =
            take max_actions (assign_action input (new_action now input) ∷ state.position_actions);
      })

  -- `enable_posting` is `options?.enablePosting ?? true`.
  unfoldable pub record_position_action :
      ℕ → Bool → RecordPositionActionInput → AgentState O F → AgentState O F
  record_position_action now enable_posting input state =
      record_found now enable_posting input
        (find (has_action_id (action_id_of input)) state.position_actions) state

  -- What a posted text changes beyond the list of posts.
  unfoldable pub settle_tweet : String → Option String → AgentState O F → AgentState O F
  settle_tweet id external_id state = record state {
    position_actions =
        update_first (has_action_id id) (mark_tweeted external_id) state.position_actions;
    pending = filter (λ task. not (is_tweet_for id task)) state.pending;
  }

  unfoldable pub record_tweet : ℕ → String → RecordTweetInput → AgentState O F → AgentState O F
  record_tweet now tweet_id input state =
      let listed = record state {
        tweets = take max_entries (new_tweet now tweet_id input ∷ state.tweets);
      } in
      if not (is_blank input.action_id) && is_posted input.status
      then settle_tweet (or_else input.action_id "") input.external_id listed
      else listed

  unfoldable pub clear_health_alert : AgentState O F → AgentState O F
  clear_health_alert state = record state {
    pending = filter (λ task. not (is_health_alert task)) state.pending;
  }

  unfoldable pub queue_health_alert :
      ℕ
      → Option String
      → Option String
      → Option F
      → Option SuggestedAction
      → AgentState O F
      → AgentState O F
  queue_health_alert now action_id obligation_id health suggested state =
      let cleared = clear_health_alert state in
      record cleared {
        pending =
            cleared.pending
            ++ (record {
              task = PendingTaskType.health_alert;
              action_id = action_id;
              obligation_id = obligation_id;
              health_factor = health;
              suggested_action = suggested;
              created_at = some now;
            }
                ∷ []);
      }

  -- The time of the given artifact is replaced.
  unfoldable pub record_artifact : ℕ → AgentArtifactRecord → AgentState O F → AgentState O F
  record_artifact now artifact state = record state {
    artifacts = take max_entries (record artifact { created_at = some now } ∷ state.artifacts);
  }

  unfoldable pub update_snapshots : AgentSnapshots O F → AgentState O F → AgentState O F
  update_snapshots partial state = record state {
    snapshots = record {
      last_suilend_obligation =
          prefer partial.last_suilend_obligation state.snapshots.last_suilend_obligation;
      last_usdc_balance_raw =
          prefer partial.last_usdc_balance_raw state.snapshots.last_usdc_balance_raw;
      last_top_market_asset =
          prefer partial.last_top_market_asset state.snapshots.last_top_market_asset;
      last_health_factor = prefer partial.last_health_factor state.snapshots.last_health_factor;
    };
  }
