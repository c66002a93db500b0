-- ===== src/AgentMemory/Skips.antt =====
-- When a write is skipped.
use looping_agent.Prelude.{
  ℕ, ◌≡◌, ◌≢◌, ◌↔◌, ◌⊎◌, inl, inr, String, Bool, true, false, ◌&&◌, ◌||◌, Option, some, List, [],
  ◌∷◌, arith, any, string_eq, eq_iff,
}
use looping_agent.Js.Text.{lower}
use looping_agent.Types.{PositionActionKind, AppConfig}
use looping_agent.AgentMemory.Records.{
  ActionStatus, PendingTaskType, kind_eq, AgentPositionActionRecord, AgentPendingTask, AgentState,
}
use looping_agent.AgentMemory.Ops.{is_supply_kind}
use looping_agent.AgentMemory.Cooldown.{
  tweet_pending, within_cooldown, is_recent, is_recent_write, is_tweet_task, posting_enabled,
  check_cooldown, should_skip_write_action,
}

-- A confirmed live write of the kind to the asset, no longer ago than the cooldown.
pub record RecentWrite (asset : String) (kind : PositionActionKind) (cooldown now : ℕ)
    (entry : AgentPositionActionRecord) : Type 0 where
  pub live : entry.dry_run ≡ false
  pub confirmed : entry.status ≡ ActionStatus.confirmed
  pub same_asset : lower entry.asset ≡ lower asset
  pub same_kind : entry.action ≡ kind
  pub recent : is_recent entry.created_at cooldown now ≡ true

-- Some entry has the property.
abbrev pub Some : {A : Type 0} → (A → Type 0) → List A → Type 0
Some P [] = ⊥
Some P (entry ∷ entries) = P entry ⊎ Some P entries

any_cases : (a b : Bool) → (a || b) ≡ true → (a ≡ true) ⊎ (b ≡ true)
any_cases a b h = ground arith

any_first : (a b : Bool) → a ≡ true → (a || b) ≡ true
any_first a b h = ground arith

any_rest : (a b : Bool) → b ≡ true → (a || b) ≡ true
any_rest a b h = ground arith

is_recent_write_iff :
    (asset : String) (kind : PositionActionKind) (cooldown now : ℕ)
    (entry : AgentPositionActionRecord)
    → (is_recent_write asset kind cooldown now entry ≡ true)
      ↔ RecentWrite asset kind cooldown now entry
is_recent_write_iff asset kind cooldown now entry =
    ground (arith, eq_iff (lower entry.asset) (lower asset))

Some-recent_iff :
    (asset : String) (kind : PositionActionKind) (cooldown now : ℕ)
    (entries : List AgentPositionActionRecord)
    → (any (is_recent_write asset kind cooldown now) entries ≡ true)
      ↔ Some (RecentWrite asset kind cooldown now) entries
Some-recent_iff asset kind cooldown now [] = ground arith
Some-recent_iff asset kind cooldown now (entry ∷ entries) =
    let one = is_recent_write_iff asset kind cooldown now entry in
    let more = Some-recent_iff asset kind cooldown now entries in
    (
      λ h. elim (any_cases _ _ h) [ inl e ↦ inl (one.0 e) | inr e ↦ inr (more.0 e) ],
      λ h. elim h [ inl w ↦ any_first _ _ (one.1 w) | inr w ↦ any_rest _ _ (more.1 w) ],
    )

module _ {F : Type 0} where
  is_tweet_task_iff :
      (task : AgentPendingTask F)
      → (is_tweet_task task ≡ true) ↔ (task.task ≡ PendingTaskType.tweet_action)
  is_tweet_task_iff task = ground arith

  Some-tweet_iff :
      (tasks : List (AgentPendingTask F))
      → (any is_tweet_task tasks ≡ true)
        ↔ Some (λ (task : AgentPendingTask F). task.task ≡ PendingTaskType.tweet_action) tasks
  Some-tweet_iff [] = ground arith
  Some-tweet_iff (task ∷ tasks) =
      let one = is_tweet_task_iff task in
      let more = Some-tweet_iff tasks in
      (
        λ h. elim (any_cases _ _ h) [ inl e ↦ inl (one.0 e) | inr e ↦ inr (more.0 e) ],
        λ h. elim h [ inl w ↦ any_first _ _ (one.1 w) | inr w ↦ any_rest _ _ (more.1 w) ],
      )

module _ {O F : Type 0} where
  -- For a named asset: a write is skipped for the cooldown exactly when no pending post blocks it,
  -- and a live write of the same kind to the same asset was confirmed within the cooldown.
  pub skipped_for_cooldown_iff :
      (state : AgentState O F) (config : AppConfig F) (asset : String) (kind : PositionActionKind)
      (now : ℕ)
      → asset ≢ ""
      → (should_skip_write_action state config (some asset) kind now ≡ within_cooldown) ↔ (
          (posting_enabled config && any is_tweet_task state.pending && is_supply_kind kind ≡ false)
          × Some
              (RecentWrite asset kind config.agent.action_cooldown_ms now)
              state.position_actions)
  unfolding should_skip_write_action check_cooldown
  skipped_for_cooldown_iff state config asset kind now named = ground (
    arith,
    eq_iff asset "",
    Some-recent_iff asset kind config.agent.action_cooldown_ms now state.position_actions,
  )

  -- A write is skipped for a pending post exactly when posting is switched on, there is an access
  -- token, some pending task is to post a tweet, and the write is a supply.
  pub skipped_for_post_iff :
      (state : AgentState O F) (config : AppConfig F) (asset : Option String)
      (kind : PositionActionKind) (now : ℕ)
      → (should_skip_write_action state config asset kind now ≡ tweet_pending) ↔ (
          (config.x.enable_posting ≡ true)
          × (config.x.user_access_token ≢ "")
          × Some
              (λ (task : AgentPendingTask F). task.task ≡ PendingTaskType.tweet_action)
              state.pending
          × (kind ≡ PositionActionKind.supply))
  unfolding should_skip_write_action check_cooldown
  skipped_for_post_iff state config asset kind now =
      ground (arith, eq_iff config.x.user_access_token "", Some-tweet_iff state.pending)
