-- ===== src/Tests/Enclave.antt =====
-- The enclave's encoders on the vectors of their own self-tests, and the theorems on them at
-- concrete inputs, with a `hexToBytes` that reads two digits at a time.
use Prim.Native.Char.{code}
use looping_agent.Prelude.{
  ℕ, ◌+◌, ◌*◌, ◌-◌, ◌≡◌, ◌≢◌, refl, ap, String, Option, none, some, [], ◌∷◌, arith, leb, ◌&&◌,
  if◌then◌else◌, length,
}
use looping_agent.Js.Text.{text_length}
use looping_agent.Enclave.Bytes.{
  Bytes, address32, padded_bytes, pad_start, strip_0x, zeros_onto, little_endian, bytes_vec,
  uleb_rounds,
}
use looping_agent.Enclave.Envelopes.{
  ActionIntent, TreasuryDecision, encode_envelope, encode_decision, envelope_bytes, payload_bytes,
  decision_bytes,
}
use looping_agent.Enclave.Signed.{InRange, encode_envelope_injective, SameFields, some-injective}
use looping_agent.Enclave.Apart.{
  InRange as DecisionInRange, SameFields as SameDecision, envelopes_apart,
  encode_decision_injective,
}

abbrev hex_value : ℕ → Option ℕ
hex_value c =
    if leb b'0' c && leb c b'9'
    then some (c - b'0')
    else if leb b'a' c && leb c b'f'
    then some (c - 87)
    else if leb b'A' c && leb c b'F'
    then some (c - 55)
    else none

unfoldable join_digits : Option ℕ → Option ℕ → Option Bytes → Option Bytes
join_digits (some a) (some b) (some rest) = some ((a * 16 + b) ∷ rest)
join_digits _ _ _ = none

unfoldable read_hex : String → Option Bytes
read_hex String.[] = some []
read_hex (String.◌∷◌ c String.[]) = none
read_hex (String.◌∷◌ c (String.◌∷◌ d s)) =
    join_digits (hex_value (code c)) (hex_value (code d)) (read_hex s)

join_digits-length :
    (a b : Option ℕ) (rest : Option Bytes) (y : Bytes) (n : ℕ)
    → ((z : Bytes) → rest ≡ some z → length z * 2 ≡ n)
    → join_digits a b rest ≡ some y
    → length y * 2 ≡ n + 2
unfolding join_digits
join_digits-length none b rest y n law h = cc
join_digits-length (some a) none rest y n law h = cc
join_digits-length (some a) (some b) none y n law h = cc
join_digits-length (some a) (some b) (some rest) y n law h =
    omega (arith, law rest refl, ap length (some-injective _ _ h))

read_hex-length : (s : String) (y : Bytes) → read_hex s ≡ some y → length y * 2 ≡ text_length s
unfolding read_hex text_length
read_hex-length String.[] y h = omega (arith, ap length (some-injective _ _ h))
read_hex-length (String.◌∷◌ c String.[]) y h = cc
read_hex-length (String.◌∷◌ c (String.◌∷◌ d s)) y h = omega (
  arith,
  join_digits-length (hex_value (code c)) (hex_value (code d)) (read_hex s) y (text_length s)
      (λ z. read_hex-length s z) h,
)

-- `new Uint8Array(n).fill(b)`
unfoldable filled : ℕ → ℕ → Bytes
filled ℕ.zero b = []
filled (ℕ.suc n) b = b ∷ filled n b

abbrev intent : ActionIntent
intent = record {
  schema_version = 1;
  chain_id = 4 ∷ [];
  treasury_id = "0x1";
  agent_cap_id = "0x2";
  nonce = 7;
  expires_at_ms = 1700000100000;
  action_kind = 0;
  protocol_id = 0;
  asset_type = 85 ∷ 83 ∷ 68 ∷ 67 ∷ [];
  amount = 1000;
  min_health_factor_bps = 0;
  max_protocol_exposure = 0;
  policy_hash = filled 32 17;
  input_hash = filled 32 34;
  rationale_hash = filled 32 51;
}

abbrev decision : TreasuryDecision
decision = record {
  treasury = "0x1";
  decided_amount = 1000;
  decided_nonce = 7;
  timestamp_ms = 1700000000000;
}

-- `SELF_TEST.envelope` of action_intent.ts
intent_self_test :
    encode_envelope read_hex intent 1700000000000
    ≡ read_hex
        "000068e5cf8b01000001000104000000000000000000000000000000000000000000000000000000000000000100000000000000000000000000000000000000000000000000000000000000020700000000000000a0eee6cf8b01000000000455534443e80300000000000000000000000000000000000000000000201111111111111111111111111111111111111111111111111111111111111111202222222222222222222222222222222222222222222222222222222222222222203333333333333333333333333333333333333333333333333333333333333333"
unfolding encode_envelope envelope_bytes payload_bytes address32 padded_bytes pad_start strip_0x
    zeros_onto text_length little_endian bytes_vec uleb_rounds read_hex join_digits filled
intent_self_test = refl

-- `SELF_TEST.envelope` of decision.ts
decision_self_test :
    encode_decision read_hex decision
    ≡ read_hex
        "000068e5cf8b0100000000000000000000000000000000000000000000000000000000000000000001e8030000000000000700000000000000"
unfolding encode_decision decision_bytes address32 padded_bytes pad_start strip_0x zeros_onto
    text_length little_endian read_hex join_digits
decision_self_test = refl

abbrev unwrap : Option Bytes → Bytes
unwrap none = []
unwrap (some m) = m

-- The same intent with its first address written in full.
abbrev respelt : ActionIntent
respelt = record intent { treasury_id = "0x0001" }

abbrev signing_time : ℕ
signing_time = 1700000000000

abbrev signed_bytes : Bytes
signed_bytes = unwrap (encode_envelope read_hex intent signing_time)

intent-InRange : InRange intent
unfolding filled
intent-InRange = record {
  schema_version = omega arith;
  chain_id = omega arith;
  nonce = omega arith;
  expires_at_ms = omega arith;
  action_kind = omega arith;
  protocol_id = omega arith;
  asset_type = omega arith;
  amount = omega arith;
  min_health_factor_bps = omega arith;
  max_protocol_exposure = omega arith;
  policy_hash = omega arith;
  input_hash = omega arith;
  rationale_hash = omega arith;
}

respelt-InRange : InRange respelt
respelt-InRange =
    let r = intent-InRange in
    record {
      schema_version = r.schema_version;
      chain_id = r.chain_id;
      nonce = r.nonce;
      expires_at_ms = r.expires_at_ms;
      action_kind = r.action_kind;
      protocol_id = r.protocol_id;
      asset_type = r.asset_type;
      amount = r.amount;
      min_health_factor_bps = r.min_health_factor_bps;
      max_protocol_exposure = r.max_protocol_exposure;
      policy_hash = r.policy_hash;
      input_hash = r.input_hash;
      rationale_hash = r.rationale_hash;
    }

encode_envelope_injective_example :
    (signing_time ≡ signing_time)
    × SameFields intent respelt
    × (address32 read_hex intent.treasury_id ≡ address32 read_hex respelt.treasury_id)
    × (address32 read_hex intent.agent_cap_id ≡ address32 read_hex respelt.agent_cap_id)
unfolding encode_envelope envelope_bytes payload_bytes address32 padded_bytes pad_start strip_0x
    zeros_onto text_length little_endian bytes_vec uleb_rounds read_hex join_digits filled
encode_envelope_injective_example =
    encode_envelope_injective read_hex intent respelt signing_time signing_time signed_bytes
      read_hex-length intent-InRange respelt-InRange (omega arith) (omega arith) refl refl

decision-InRange : DecisionInRange decision
decision-InRange = record {
  timestamp_ms = omega arith;
  decided_amount = omega arith;
  decided_nonce = omega arith;
}

abbrev decided_bytes : Bytes
decided_bytes = unwrap (encode_decision read_hex decision)

encode_decision_injective_example :
    SameDecision decision decision
    × (address32 read_hex decision.treasury ≡ address32 read_hex decision.treasury)
unfolding encode_decision decision_bytes address32 padded_bytes pad_start strip_0x zeros_onto
    text_length little_endian read_hex join_digits
encode_decision_injective_example =
    encode_decision_injective read_hex decision decision decided_bytes read_hex-length
      decision-InRange decision-InRange refl refl

envelopes_apart_example : signed_bytes ≢ decided_bytes
unfolding encode_envelope envelope_bytes payload_bytes address32 padded_bytes pad_start strip_0x
    zeros_onto text_length little_endian bytes_vec uleb_rounds read_hex join_digits filled
    encode_decision decision_bytes
envelopes_apart_example =
    envelopes_apart read_hex intent 1700000000000 decision signed_bytes decided_bytes
      read_hex-length refl refl
