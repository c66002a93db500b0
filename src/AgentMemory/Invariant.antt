-- ===== src/AgentMemory/Invariant.antt =====
-- The operations of the memory and its well-formedness.
use looping_agent.Prelude.{
  ℕ, ◌≡◌, refl, String, Bool, not, ◌&&◌, List, [], ◌∷◌, ◌++◌, arith, find, filter, some, take,
  length-take-le, length-update_first, Bool-cases, inl, inr,
}
use looping_agent.Subagents.Validate.{is_blank}
use looping_agent.AgentMemory.Records.{
  is_posted, AgentPendingTask, AgentTweetRecord, AgentState, RecordTweetInput,
}
use looping_agent.AgentMemory.Ops.{
  max_entries, has_action_id, action_id_of, is_tweet_for, is_health_alert, record_position_action,
  record_tweet, clear_health_alert, queue_health_alert, record_artifact, begin_run, end_run,
  update_snapshots, new_run, new_tweet,
}
use looping_agent.AgentMemory.Session.{
  Operation, begins, ends, acts, posts, alerts, clears, archives, observes, perform, perform_all,
}
use looping_agent.AgentMemory.WellFormed.{
  WellFormed, PendingWellFormed, record_found-WellFormed, settle_tweet-WellFormed, with_pending,
  filter-PendingWellFormed, count-++, count-filter-not,
}

module _ {F : Type 0} where
  alert-PendingWellFormed :
      (task : AgentPendingTask F) (pending : List (AgentPendingTask F))
      → ((id : String) → is_tweet_for id task ≡ Bool.false)
      → PendingWellFormed pending
      → PendingWellFormed (filter (λ t. not (is_health_alert t)) pending ++ (task ∷ []))
  alert-PendingWellFormed task pending alert w =
      let others = filter-PendingWellFormed (λ t. not (is_health_alert t)) pending w in
      record {
        one_tweet = λ id. ground (
          arith,
          count-++ (is_tweet_for id) (filter (λ t. not (is_health_alert t)) pending) (task ∷ []),
          alert id,
          others.one_tweet id,
        );
        one_alert = ground (
          arith,
          count-++ is_health_alert (filter (λ t. not (is_health_alert t)) pending) (task ∷ []),
          count-filter-not is_health_alert pending,
        );
      }

module _ {O F : Type 0} where
  listed-WellFormed :
      (tweet : AgentTweetRecord) (state : AgentState O F)
      → WellFormed state
      → WellFormed (record state { tweets = take max_entries (tweet ∷ state.tweets) })
  listed-WellFormed tweet state w = record {
    runs = w.runs;
    tweets = length-take-le max_entries (tweet ∷ state.tweets);
    artifacts = w.artifacts;
    actions = w.actions;
    pending = w.pending;
  }

  record_tweet-WellFormed :
      (now : ℕ) (id : String) (input : RecordTweetInput) (state : AgentState O F)
      → WellFormed state
      → WellFormed (record_tweet now id input state)
  unfolding record_tweet
  record_tweet-WellFormed now id input state w =
      let listed = listed-WellFormed (new_tweet now id input) state w in
      elim (Bool-cases (not (is_blank input.action_id) && is_posted input.status)) [
        | inl e ↦ rw e (settle_tweet-WellFormed _ _ _ listed)
        | inr e ↦ rw e listed
      ]

  pub perform-WellFormed :
      (operation : Operation O F) (state : AgentState O F)
      → WellFormed state
      → WellFormed (perform operation state)
  unfolding perform record_position_action begin_run end_run clear_health_alert queue_health_alert
      record_artifact update_snapshots
  perform-WellFormed (begins id) state w = record {
    runs = length-take-le max_entries (new_run id ∷ state.runs);
    tweets = w.tweets;
    artifacts = w.artifacts;
    actions = w.actions;
    pending = w.pending;
  }
  perform-WellFormed (ends now id summary) state w = record {
    runs = omega (arith, length-update_first _ _ state.runs, w.runs);
    tweets = w.tweets;
    artifacts = w.artifacts;
    actions = w.actions;
    pending = w.pending;
  }
  perform-WellFormed (acts now posting input) state w =
      record_found-WellFormed now posting input
        (find (has_action_id (action_id_of input)) state.position_actions) state refl w
  perform-WellFormed (posts now id input) state w = record_tweet-WellFormed now id input state w
  perform-WellFormed (alerts now action obligation health suggested) state w =
      with_pending state _ w (alert-PendingWellFormed _ state.pending (λ id. refl) w.pending)
  perform-WellFormed clears state w =
      with_pending state _ w (filter-PendingWellFormed _ state.pending w.pending)
  perform-WellFormed (archives now artifact) state w = record {
    runs = w.runs;
    tweets = w.tweets;
    artifacts =
        length-take-le max_entries (record artifact { created_at = some now } ∷ state.artifacts);
    actions = w.actions;
    pending = w.pending;
  }
  perform-WellFormed (observes partial) state w = record {
    runs = w.runs;
    tweets = w.tweets;
    artifacts = w.artifacts;
    actions = w.actions;
    pending = w.pending;
  }

  -- After any sequence of operations a well-formed memory is well-formed: at most 50 runs, 50 posts,
  -- 50 artifacts and 100 actions, one record for an action id, one post task for an action id, and
  -- one health alert at most.
  pub perform_all-WellFormed :
      (operations : List (Operation O F)) (state : AgentState O F)
      → WellFormed state
      → WellFormed (perform_all operations state)
  unfolding perform_all
  perform_all-WellFormed [] state w = w
  perform_all-WellFormed (operation ∷ operations) state w =
      perform_all-WellFormed operations (perform operation state)
        (perform-WellFormed operation state w)
