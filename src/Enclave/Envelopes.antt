-- ===== src/Enclave/Envelopes.antt =====
-- `encodeEnvelope` of enclave/app/action_intent.ts and of enclave/app/decision.ts.
use looping_agent.Prelude.{ℕ, ◌%◌, String, Option, none, some, ◌∷◌, ◌++◌}
use looping_agent.Enclave.Bytes.{Bytes, u16le, u64le, bytes_vec, address32}

pub record ActionIntent : Type 0 where
  pub schema_version : ℕ
  pub chain_id : Bytes
  pub treasury_id : String
  pub agent_cap_id : String
  pub nonce : ℕ
  pub expires_at_ms : ℕ
  pub action_kind : ℕ
  pub protocol_id : ℕ
  pub asset_type : Bytes
  pub amount : ℕ
  pub min_health_factor_bps : ℕ
  pub max_protocol_exposure : ℕ
  pub policy_hash : Bytes
  pub input_hash : Bytes
  pub rationale_hash : Bytes

-- The `Decision` of decision.ts.
pub record TreasuryDecision : Type 0 where
  pub treasury : String
  pub decided_amount : ℕ
  pub decided_nonce : ℕ
  pub timestamp_ms : ℕ

-- The payload, for the bytes of the two addresses.
unfoldable pub payload_bytes : ActionIntent → Bytes → Bytes → Bytes
payload_bytes a treasury cap =
    u16le a.schema_version
    ++ (bytes_vec a.chain_id
        ++ (treasury
            ++ (cap
                ++ (u64le a.nonce
                    ++ (u64le a.expires_at_ms
                        ++ (a.action_kind % 256
                            ∷ a.protocol_id % 256
                            ∷ (bytes_vec a.asset_type
                                ++ (u64le a.amount
                                    ++ (u64le a.min_health_factor_bps
                                        ++ (u64le a.max_protocol_exposure
                                            ++ (bytes_vec a.policy_hash
                                                ++ (bytes_vec a.input_hash
                                                    ++ bytes_vec a.rationale_hash))))))))))))

-- `DECISION_INTENT` is 0.
unfoldable pub envelope_bytes : ActionIntent → ℕ → Option Bytes → Option Bytes → Option Bytes
envelope_bytes a timestamp (some treasury) (some cap) =
    some (0 ∷ (u64le timestamp ++ payload_bytes a treasury cap))
envelope_bytes a timestamp _ _ = none

unfoldable pub decision_bytes : TreasuryDecision → Option Bytes → Option Bytes
decision_bytes d none = none
decision_bytes d (some treasury) =
    some (
      0 ∷ (u64le d.timestamp_ms ++ (treasury ++ (u64le d.decided_amount ++ u64le d.decided_nonce))))

module _ (hex_to_bytes : String → Option Bytes) where
  unfoldable pub encode_envelope : ActionIntent → ℕ → Option Bytes
  encode_envelope a timestamp =
      envelope_bytes a timestamp (address32 hex_to_bytes a.treasury_id)
        (address32 hex_to_bytes a.agent_cap_id)

  unfoldable pub encode_decision : TreasuryDecision → Option Bytes
  encode_decision d = decision_bytes d (address32 hex_to_bytes d.treasury)
