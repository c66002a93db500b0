-- ===== src/AgentMemory/Session.antt =====
-- A sequence of calls of the memory's operations, each with its time and the texts made from it.
use looping_agent.Prelude.{ℕ, String, Bool, Option, List, [], ◌∷◌}
use looping_agent.AgentMemory.Records.{
  AgentSnapshots, AgentArtifactRecord, AgentState, RecordPositionActionInput, RecordTweetInput,
  SuggestedAction,
}
use looping_agent.AgentMemory.Ops.{
  begin_run, end_run, record_position_action, record_tweet, queue_health_alert, clear_health_alert,
  record_artifact, update_snapshots,
}

pub data Operation (O F : Type 0) : Type 0 where
  begins : String → Operation O F
  ends : ℕ → String → Option String → Operation O F
  acts : ℕ → Bool → RecordPositionActionInput → Operation O F
  posts : ℕ → String → RecordTweetInput → Operation O F
  alerts : ℕ → Option String → Option String → Option F → Option SuggestedAction → Operation O F
  clears : Operation O F
  archives : ℕ → AgentArtifactRecord → Operation O F
  observes : AgentSnapshots O F → Operation O F

module _ {O F : Type 0} where
  unfoldable pub perform : Operation O F → AgentState O F → AgentState O F
  perform (begins id) state = begin_run id state
  perform (ends now id summary) state = end_run now id summary state
  perform (acts now enable_posting input) state =
      record_position_action now enable_posting input state
  perform (posts now id input) state = record_tweet now id input state
  perform (alerts now action obligation health suggested) state =
      queue_health_alert now action obligation health suggested state
  perform clears state = clear_health_alert state
  perform (archives now artifact) state = record_artifact now artifact state
  perform (observes partial) state = update_snapshots partial state

  unfoldable pub perform_all : List (Operation O F) → AgentState O F → AgentState O F
  perform_all [] state = state
  perform_all (operation ∷ operations) state = perform_all operations (perform operation state)
