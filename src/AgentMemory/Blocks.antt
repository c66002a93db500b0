-- ===== src/AgentMemory/Blocks.antt =====
-- The post of a live supply: the task that a new supply queues, and its end.
use looping_agent.Prelude.{
  ℕ, ◌≡◌, ◌≢◌, refl, String, true, false, not, Option, none, some, List, [], ◌∷◌, ◌++◌, arith, find,
  any, filter, string_eq, ◌==◌, eq_iff, Bool-cases, inl, inr, Bool, All, ◌&&◌,
}
use looping_agent.Types.{PositionActionKind, AppConfig}
use looping_agent.AgentMemory.Records.{
  ActionStatus, TweetStatus, PendingTaskType, kind_eq, AgentPositionActionRecord, AgentPendingTask,
  AgentState, RecordPositionActionInput, RecordTweetInput, is_posted,
}
use looping_agent.AgentMemory.Ops.{
  has_action_id, action_id_of, assign_action, new_action, is_tweet_for, tweet_task, wants_tweet,
  queue_tweet, record_found, record_position_action, settle_tweet, record_tweet, begin_run, end_run,
  queue_health_alert, clear_health_alert, record_artifact, update_snapshots, is_health_alert,
}
use looping_agent.AgentMemory.Session.{
  Operation, begins, ends, acts, posts, alerts, clears, archives, observes, perform, perform_all,
}
use looping_agent.AgentMemory.Cooldown.{
  tweet_pending, is_tweet_task, posting_enabled, should_skip_write_action,
}

module _ {F : Type 0} where
  tweet_for-task :
      (id : String) (tasks : List (AgentPendingTask F))
      → any (is_tweet_for id) tasks ≡ true
      → any is_tweet_task tasks ≡ true
  tweet_for-task id [] h = cc
  tweet_for-task id (task ∷ tasks) h = ground (arith, tweet_for-task id tasks)

  any-++_last :
      (tasks : List (AgentPendingTask F)) (task : AgentPendingTask F)
      → is_tweet_task task ≡ true
      → any is_tweet_task (tasks ++ (task ∷ [])) ≡ true
  any-++_last [] task h = ground arith
  any-++_last (t ∷ tasks) task h = ground (arith, any-++_last tasks task h)

  any-++_first :
      (tasks others : List (AgentPendingTask F))
      → any is_tweet_task tasks ≡ true
      → any is_tweet_task (tasks ++ others) ≡ true
  any-++_first [] others h = cc
  any-++_first (t ∷ tasks) others h = ground (arith, any-++_first tasks others)

  -- The removal of the health alerts leaves the posts.
  tweet_is_kept :
      (tasks : List (AgentPendingTask F))
      → any is_tweet_task tasks ≡ true
      → any is_tweet_task (filter (λ task. not (is_health_alert task)) tasks) ≡ true
  tweet_is_kept [] h = cc
  tweet_is_kept (t ∷ tasks) h = ground (arith, tweet_is_kept tasks)

  no_tweet_left :
      (id : String) (tasks : List (AgentPendingTask F))
      → any (is_tweet_for id) (filter (λ task. not (is_tweet_for id task)) tasks) ≡ false
  no_tweet_left id [] = refl
  no_tweet_left id (task ∷ tasks) = ground (arith, no_tweet_left id tasks)

unposted : (status : TweetStatus) → status ≢ TweetStatus.posted → is_posted status ≡ false
unposted status n = ground arith

ne_test : (id : String) → id ≢ "" → (id == "") ≡ false
ne_test id n = ground (arith, eq_iff id "")

wants_supply :
    (now : ℕ) (input : RecordPositionActionInput)
    → input.status ≡ ActionStatus.confirmed
    → input.dry_run ≡ false
    → input.action ≡ PositionActionKind.supply
    → wants_tweet true (assign_action input (new_action now input)) ≡ true
unfolding wants_tweet assign_action new_action
wants_supply now input s d k = ground arith

module _ {O F : Type 0} where
  queue_tweet-queues :
      (now : ℕ) (action : AgentPositionActionRecord) (state : AgentState O F)
      → wants_tweet true action ≡ true
      → any is_tweet_task (queue_tweet now true action state).pending ≡ true
  unfolding queue_tweet tweet_task
  queue_tweet-queues now action state h =
      elim (Bool-cases (any (is_tweet_for action.id) state.pending)) [
        | inl e ↦ rw (h, e) (tweet_for-task action.id state.pending e)
        | inr e ↦ rw (h, e) (any-++_last state.pending (tweet_task now action.id) refl)
      ]

  record_found-queues :
      (now : ℕ) (input : RecordPositionActionInput) (found : Option AgentPositionActionRecord)
      (state : AgentState O F)
      → found ≡ none
      → input.status ≡ ActionStatus.confirmed
      → input.dry_run ≡ false
      → input.action ≡ PositionActionKind.supply
      → any is_tweet_task (record_found now true input found state).pending ≡ true
  unfolding record_found
  record_found-queues now input (some a) state e s d k = cc
  record_found-queues now input none state e s d k =
      queue_tweet-queues now (assign_action input (new_action now input)) _
        (wants_supply now input s d k)

  -- The operation records no post as posted.
  abbrev pub PostsNothing : Operation O F → Type 0
  PostsNothing (posts now id input) = input.status ≢ TweetStatus.posted
  PostsNothing _ = Unit

  queue_tweet-keeps :
      (now : ℕ) (posting : Bool) (action : AgentPositionActionRecord) (state : AgentState O F)
      → any is_tweet_task state.pending ≡ true
      → any is_tweet_task (queue_tweet now posting action state).pending ≡ true
  unfolding queue_tweet tweet_task
  queue_tweet-keeps now posting action state h =
      elim (Bool-cases
        (wants_tweet posting action && not (any (is_tweet_for action.id) state.pending))) [
          | inl e ↦ rw e (any-++_last state.pending (tweet_task now action.id) refl)
          | inr e ↦ rw e h
        ]

  record_found-keeps :
      (now : ℕ) (posting : Bool) (input : RecordPositionActionInput)
      (found : Option AgentPositionActionRecord) (state : AgentState O F)
      → any is_tweet_task state.pending ≡ true
      → any is_tweet_task (record_found now posting input found state).pending ≡ true
  unfolding record_found
  record_found-keeps now posting input none state h = queue_tweet-keeps now posting _ _ h
  record_found-keeps now posting input (some a) state h = queue_tweet-keeps now posting _ _ h

  perform-keeps :
      (operation : Operation O F) (state : AgentState O F)
      → PostsNothing operation
      → any is_tweet_task state.pending ≡ true
      → any is_tweet_task (perform operation state).pending ≡ true
  unfolding perform begin_run end_run record_position_action record_tweet queue_health_alert
      clear_health_alert record_artifact update_snapshots
  perform-keeps (begins id) state n h = h
  perform-keeps (ends now id summary) state n h = h
  perform-keeps (acts now posting input) state n h = record_found-keeps now posting input _ state h
  perform-keeps (posts now id input) state n h = rw (unposted input.status n) (ground (arith, h))
  perform-keeps (alerts now action obligation health suggested) state n h =
      any-++_first (clear_health_alert state).pending
        (record {
          task = PendingTaskType.health_alert;
          action_id = action;
          obligation_id = obligation;
          health_factor = health;
          suggested_action = suggested;
          created_at = some now;
        }
          ∷ [])
        (tweet_is_kept state.pending h)
  perform-keeps clears state n h = tweet_is_kept state.pending h
  perform-keeps (archives now artifact) state n h = h
  perform-keeps (observes partial) state n h = h

  perform_all-keeps :
      (operations : List (Operation O F)) (state : AgentState O F)
      → All PostsNothing operations
      → any is_tweet_task state.pending ≡ true
      → any is_tweet_task (perform_all operations state).pending ≡ true
  unfolding perform_all
  perform_all-keeps [] state n h = h
  perform_all-keeps (operation ∷ operations) state n h =
      perform_all-keeps operations (perform operation state) n.1
        (perform-keeps operation state n.0 h)

  skips_while_pending :
      (state : AgentState O F) (config : AppConfig F) (asset : Option String) (now : ℕ)
      → posting_enabled config ≡ true
      → any is_tweet_task state.pending ≡ true
      → should_skip_write_action state config asset PositionActionKind.supply now ≡ tweet_pending
  unfolding should_skip_write_action
  skips_while_pending state config asset now p h = ground (arith, p, h)

  -- After a new live supply has been recorded as confirmed, with posting on, and then any operations
  -- of the memory of which none records a post as posted, a further supply is skipped for a pending
  -- post, whatever its asset and time, where the configuration can post.
  pub supply_blocks_supply :
      (now later : ℕ) (input : RecordPositionActionInput) (state : AgentState O F)
      (operations : List (Operation O F)) (config : AppConfig F) (asset : Option String)
      → find (has_action_id (action_id_of input)) state.position_actions ≡ none
      → input.status ≡ ActionStatus.confirmed
      → input.dry_run ≡ false
      → input.action ≡ PositionActionKind.supply
      → All PostsNothing operations
      → posting_enabled config ≡ true
      → should_skip_write_action
          (perform_all operations (record_position_action now true input state))
          config
          asset
          PositionActionKind.supply
          later
        ≡ tweet_pending
  unfolding record_position_action
  supply_blocks_supply now later input state operations config asset new s d k n p =
      skips_while_pending _ config asset later p
        (perform_all-keeps operations _ n (record_found-queues now input _ state new s d k))

  -- Once a post for an action is recorded as posted, no task to post that action is left.
  pub post_clears_task :
      (now : ℕ) (tweet_id id : String) (input : RecordTweetInput) (state : AgentState O F)
      → input.action_id ≡ some id
      → id ≢ ""
      → input.status ≡ TweetStatus.posted
      → any (is_tweet_for id) (record_tweet now tweet_id input state).pending ≡ false
  unfolding record_tweet settle_tweet
  post_clears_task now tweet_id id input state a n p =
      rw (a, p, ne_test id n) (no_tweet_left id state.pending)
