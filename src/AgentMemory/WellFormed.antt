-- ===== src/AgentMemory/WellFormed.antt =====
-- The well-formedness of the memory: bounded lists, each action recorded once, and at most one
-- health alert and one post task for an action.
use native.Mathlib.Nat.{le_trans}
use looping_agent.Prelude.{
  ℕ, ◌+◌, ◌≤◌, ◌≡◌, refl, ap, sym, ◌∙◌, String, Bool, false, not, ◌&&◌, Option, none, some, List,
  [], ◌∷◌, ◌++◌, arith, length, count, find, any, filter, take, update_first, length-take-le,
  count-take-le, length-update_first, count-update_first-le, any_iff_count, string_eq, eq_iff, ◌==◌,
  Bool-cases, inl, inr,
}
use looping_agent.AgentMemory.Records.{
  AgentPositionActionRecord, AgentPendingTask, AgentState, RecordPositionActionInput,
}
use looping_agent.AgentMemory.Ops.{
  max_entries, max_actions, has_action_id, action_id_of, assign_action, new_action, is_tweet_for,
  is_health_alert, tweet_task, wants_tweet, queue_tweet, record_found, mark_tweeted, settle_tweet,
}

module _ {A : Type 0} where
  pub count-filter-le : (q p : A → Bool) (xs : List A) → count q (filter p xs) ≤ count q xs
  count-filter-le q p [] = omega arith
  count-filter-le q p (x ∷ xs) = ground (arith, count-filter-le q p xs)

  pub count-filter-not : (p : A → Bool) (xs : List A) → count p (filter (λ x. not (p x)) xs) ≡ 0
  count-filter-not p [] = refl
  count-filter-not p (x ∷ xs) = ground (arith, count-filter-not p xs)

  pub count-++ : (p : A → Bool) (xs ys : List A) → count p (xs ++ ys) ≡ count p xs + count p ys
  count-++ p [] ys = omega arith
  count-++ p (x ∷ xs) ys = omega (arith, count-++ p xs ys)

  count-eq_zero_of_find : (p : A → Bool) (xs : List A) → find p xs ≡ none → count p xs ≡ 0
  count-eq_zero_of_find p [] h = refl
  count-eq_zero_of_find p (x ∷ xs) h = ground (arith, count-eq_zero_of_find p xs)

-- Bounded, and one record for an id at most.
pub record ActionsWellFormed (actions : List AgentPositionActionRecord) : Type 0 where
  pub bounded : length actions ≤ max_actions
  pub one_record : (id : String) → count (has_action_id id) actions ≤ 1

update-ActionsWellFormed :
    (p : AgentPositionActionRecord → Bool)
    (f : AgentPositionActionRecord → AgentPositionActionRecord)
    (actions : List AgentPositionActionRecord)
    → ((a : AgentPositionActionRecord) → (f a).id ≡ a.id)
    → ActionsWellFormed actions
    → ActionsWellFormed (update_first p f actions)
update-ActionsWellFormed p f actions keeps w = record {
  bounded = omega (arith, length-update_first p f actions, w.bounded);
  one_record = λ id. omega (
    arith,
    count-update_first-le (has_action_id id) p f actions
        (λ a _ e. sym (ap (λ t. t == id) (keeps a)) ∙ e),
    w.one_record id,
  );
}

one_record_push :
    (a : AgentPositionActionRecord) (actions : List AgentPositionActionRecord) (id : String)
    → count (has_action_id a.id) actions ≡ 0
    → count (has_action_id id) actions ≤ 1
    → count (has_action_id id) (a ∷ actions) ≤ 1
one_record_push a actions id new w = elim (Bool-cases (a.id == id)) [
  | inl e ↦
      let same = (eq_iff a.id id).0 e in
      rw e (omega (arith, sym (ap (λ t. count (has_action_id t) actions) same) ∙ new))
  | inr e ↦ rw e (omega (arith, w))
]

push-ActionsWellFormed :
    (a : AgentPositionActionRecord) (actions : List AgentPositionActionRecord)
    → find (has_action_id a.id) actions ≡ none
    → ActionsWellFormed actions
    → ActionsWellFormed (take max_actions (a ∷ actions))
push-ActionsWellFormed a actions new w = record {
  bounded = length-take-le max_actions (a ∷ actions);
  one_record = λ id. le_trans (count-take-le (has_action_id id) max_actions (a ∷ actions)) (
      one_record_push a actions id (count-eq_zero_of_find (has_action_id a.id) actions new)
        (w.one_record id));
}

module _ {F : Type 0} where
  -- One post task for an action at most, and one health alert.
  pub record PendingWellFormed (pending : List (AgentPendingTask F)) : Type 0 where
    pub one_tweet : (id : String) → count (is_tweet_for id) pending ≤ 1
    pub one_alert : count is_health_alert pending ≤ 1

  pub filter-PendingWellFormed :
      (p : AgentPendingTask F → Bool) (pending : List (AgentPendingTask F))
      → PendingWellFormed pending
      → PendingWellFormed (filter p pending)
  filter-PendingWellFormed p pending w = record {
    one_tweet = λ id. omega (arith, count-filter-le (is_tweet_for id) p pending, w.one_tweet id);
    one_alert = omega (arith, count-filter-le is_health_alert p pending, w.one_alert);
  }

  tweet-PendingWellFormed :
      (now : ℕ) (id : String) (pending : List (AgentPendingTask F))
      → any (is_tweet_for id) pending ≡ false
      → PendingWellFormed pending
      → PendingWellFormed (pending ++ (tweet_task now id ∷ []))
  unfolding tweet_task
  tweet-PendingWellFormed now id pending new w = record {
    one_tweet = λ other. ground (
      arith,
      count-++ (is_tweet_for other) pending (tweet_task now id ∷ []),
      w.one_tweet other,
      eq_iff id other,
      any_iff_count (is_tweet_for id) pending,
    );
    one_alert =
        omega (arith, count-++ is_health_alert pending (tweet_task now id ∷ []), w.one_alert);
  }

module _ {O F : Type 0} where
  pub record WellFormed (state : AgentState O F) : Type 0 where
    pub runs : length state.runs ≤ max_entries
    pub tweets : length state.tweets ≤ max_entries
    pub artifacts : length state.artifacts ≤ max_entries
    pub actions : ActionsWellFormed state.position_actions
    pub pending : PendingWellFormed state.pending

  -- A write to the tasks or the actions leaves the other lists.
  pub with_pending :
      (state : AgentState O F) (tasks : List (AgentPendingTask F))
      → WellFormed state
      → PendingWellFormed tasks
      → WellFormed (record state { pending = tasks })
  with_pending state tasks w h = record {
    runs = w.runs;
    tweets = w.tweets;
    artifacts = w.artifacts;
    actions = w.actions;
    pending = h;
  }

  with_actions :
      (state : AgentState O F) (actions : List AgentPositionActionRecord)
      → WellFormed state
      → ActionsWellFormed actions
      → WellFormed (record state { position_actions = actions })
  with_actions state actions w h = record {
    runs = w.runs;
    tweets = w.tweets;
    artifacts = w.artifacts;
    actions = h;
    pending = w.pending;
  }

  queue_tweet-WellFormed :
      (now : ℕ) (posting : Bool) (a : AgentPositionActionRecord) (state : AgentState O F)
      → WellFormed state
      → WellFormed (queue_tweet now posting a state)
  unfolding queue_tweet
  queue_tweet-WellFormed now posting a state w =
      elim (Bool-cases (wants_tweet posting a && not (any (is_tweet_for a.id) state.pending))) [
        | inl e ↦ rw e (
            with_pending state (state.pending ++ (tweet_task now a.id ∷ [])) w
              (tweet-PendingWellFormed now a.id state.pending (ground (arith, e)) w.pending))
        | inr e ↦ rw e w
      ]

  pub record_found-WellFormed :
      (now : ℕ) (posting : Bool) (input : RecordPositionActionInput)
      (found : Option AgentPositionActionRecord) (state : AgentState O F)
      → find (has_action_id (action_id_of input)) state.position_actions ≡ found
      → WellFormed state
      → WellFormed (record_found now posting input found state)
  unfolding record_found assign_action new_action
  record_found-WellFormed now posting input none state h w =
      queue_tweet-WellFormed now posting (assign_action input (new_action now input)) _
        (with_actions state _ w (push-ActionsWellFormed _ state.position_actions h w.actions))
  record_found-WellFormed now posting input (some a) state h w =
      queue_tweet-WellFormed now posting (assign_action input a) _ (
        with_actions state _ w (
          update-ActionsWellFormed (has_action_id (action_id_of input)) (assign_action input)
            state.position_actions (λ b. refl) w.actions))

  pub settle_tweet-WellFormed :
      (id : String) (external_id : Option String) (state : AgentState O F)
      → WellFormed state
      → WellFormed (settle_tweet id external_id state)
  unfolding settle_tweet mark_tweeted
  settle_tweet-WellFormed id external_id state w =
      with_actions
        (record state { pending = filter (λ task. not (is_tweet_for id task)) state.pending }) _
        (with_pending state _ w (filter-PendingWellFormed _ state.pending w.pending))
        (update-ActionsWellFormed (has_action_id id) (mark_tweeted external_id)
          state.position_actions (λ b. refl) w.actions)
