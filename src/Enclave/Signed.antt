-- ===== src/Enclave/Signed.antt =====
-- What a signature over an envelope commits to.
use looping_agent.Prelude.{
  ℕ, ◌*◌, ◌<◌, String, ◌≡◌, refl, ap, sym, ◌∙◌, Option, none, some, [], ◌++◌, length, arith, nat_eq,
  nat_beq_iff, ◌==◌, Bool-cases, inl, inr,
}
use looping_agent.Js.Text.{text_length}
use looping_agent.Enclave.Bytes.{Bytes, address32, padded_bytes, pad_start, strip_0x}
use looping_agent.Enclave.Envelopes.{ActionIntent, payload_bytes, envelope_bytes, encode_envelope}
use looping_agent.Enclave.Delimited.{
  u16le-delimited, u64le-delimited, bytes_vec-delimited, append-delimited, ∷-head, ∷-tail,
}

-- The fields fit their BCS types, and each vector is a `Uint8Array` of less than 2^32 bytes.
pub record InRange (a : ActionIntent) : Type 0 where
  pub schema_version : a.schema_version < 65536
  pub chain_id : length a.chain_id < 4294967296
  pub nonce : a.nonce < 18446744073709551616
  pub expires_at_ms : a.expires_at_ms < 18446744073709551616
  pub action_kind : a.action_kind < 256
  pub protocol_id : a.protocol_id < 256
  pub asset_type : length a.asset_type < 4294967296
  pub amount : a.amount < 18446744073709551616
  pub min_health_factor_bps : a.min_health_factor_bps < 18446744073709551616
  pub max_protocol_exposure : a.max_protocol_exposure < 18446744073709551616
  pub policy_hash : length a.policy_hash < 4294967296
  pub input_hash : length a.input_hash < 4294967296
  pub rationale_hash : length a.rationale_hash < 4294967296

-- The two intents agree on every field but the spelling of the addresses.
pub record SameFields (a b : ActionIntent) : Type 0 where
  pub schema_version : a.schema_version ≡ b.schema_version
  pub chain_id : a.chain_id ≡ b.chain_id
  pub nonce : a.nonce ≡ b.nonce
  pub expires_at_ms : a.expires_at_ms ≡ b.expires_at_ms
  pub action_kind : a.action_kind ≡ b.action_kind
  pub protocol_id : a.protocol_id ≡ b.protocol_id
  pub asset_type : a.asset_type ≡ b.asset_type
  pub amount : a.amount ≡ b.amount
  pub min_health_factor_bps : a.min_health_factor_bps ≡ b.min_health_factor_bps
  pub max_protocol_exposure : a.max_protocol_exposure ≡ b.max_protocol_exposure
  pub policy_hash : a.policy_hash ≡ b.policy_hash
  pub input_hash : a.input_hash ≡ b.input_hash
  pub rationale_hash : a.rationale_hash ≡ b.rationale_hash

pub some-injective : (x y : Bytes) → some x ≡ some y → x ≡ y
some-injective x y h = cc

payload_bytes_injective :
    (a b : ActionIntent) (ta ca tb cb : Bytes)
    → InRange a
    → InRange b
    → length ta ≡ 32
    → length ca ≡ 32
    → length tb ≡ 32
    → length cb ≡ 32
    → payload_bytes a ta ca ≡ payload_bytes b tb cb
    → SameFields a b × (ta ≡ tb) × (ca ≡ cb)
unfolding payload_bytes
payload_bytes_injective a b ta ca tb cb p q lta lca ltb lcb h =
    let (schema_version, h1) = u16le-delimited _ _ _ _ p.schema_version q.schema_version h in
    let (chain_id, h2) = bytes_vec-delimited _ _ _ _ p.chain_id q.chain_id h1 in
    let (treasury, h3) = append-delimited ta tb _ _ (omega arith) h2 in
    let (cap, h4) = append-delimited ca cb _ _ (omega arith) h3 in
    let (nonce, h5) = u64le-delimited _ _ _ _ p.nonce q.nonce h4 in
    let (expires_at_ms, h6) = u64le-delimited _ _ _ _ p.expires_at_ms q.expires_at_ms h5 in
    let action_kind = ∷-head _ _ _ _ h6 in
    let protocol_id = ∷-head _ _ _ _ (∷-tail _ _ _ _ h6) in
    let (asset_type, h7) =
      bytes_vec-delimited _ _ _ _ p.asset_type q.asset_type (∷-tail _ _ _ _ (∷-tail _ _ _ _ h6)) in
    let (amount, h8) = u64le-delimited _ _ _ _ p.amount q.amount h7 in
    let (health, h9) = u64le-delimited _ _ _ _ p.min_health_factor_bps q.min_health_factor_bps h8 in
    let (exposure, h10) =
      u64le-delimited _ _ _ _ p.max_protocol_exposure q.max_protocol_exposure h9 in
    let (policy_hash, h11) = bytes_vec-delimited _ _ _ _ p.policy_hash q.policy_hash h10 in
    let (input_hash, h12) = bytes_vec-delimited _ _ _ _ p.input_hash q.input_hash h11 in
    let (rationale_hash, h13) =
      bytes_vec-delimited a.rationale_hash b.rationale_hash [] [] p.rationale_hash q.rationale_hash
        (ap (λ x. x ++ []) h12) in
    (
      record {
        schema_version = schema_version;
        chain_id = chain_id;
        nonce = nonce;
        expires_at_ms = expires_at_ms;
        action_kind = omega (arith, p.action_kind, q.action_kind);
        protocol_id = omega (arith, p.protocol_id, q.protocol_id);
        asset_type = asset_type;
        amount = amount;
        min_health_factor_bps = health;
        max_protocol_exposure = exposure;
        policy_hash = policy_hash;
        input_hash = input_hash;
        rationale_hash = rationale_hash;
      },
      treasury,
      cap,
    )

envelope_bytes_injective :
    (a b : ActionIntent) (t u : ℕ) (ta ca tb cb : Option Bytes) (m : Bytes)
    → InRange a
    → InRange b
    → t < 18446744073709551616
    → u < 18446744073709551616
    → ((x : Bytes) → ta ≡ some x → length x ≡ 32)
    → ((x : Bytes) → ca ≡ some x → length x ≡ 32)
    → ((x : Bytes) → tb ≡ some x → length x ≡ 32)
    → ((x : Bytes) → cb ≡ some x → length x ≡ 32)
    → envelope_bytes a t ta ca ≡ some m
    → envelope_bytes b u tb cb ≡ some m
    → (t ≡ u) × SameFields a b × (ta ≡ tb) × (ca ≡ cb)
unfolding envelope_bytes
envelope_bytes_injective a b t u (some ta) (some ca) (some tb) (some cb) m p q k l lta lca ltb lcb h
      h' =
    let (time, rest) =
      u64le-delimited t u (payload_bytes a ta ca) (payload_bytes b tb cb) k l
        (∷-tail 0 0 _ _ (some-injective _ _ (h ∙ sym h'))) in
    let (same, treasury, cap) =
      payload_bytes_injective a b ta ca tb cb p q (lta ta refl) (lca ca refl) (ltb tb refl)
        (lcb cb refl) rest in
    (time, same, ap (λ x. some x) treasury, ap (λ x. some x) cap)
envelope_bytes_injective a b t u none ca tb cb m p q k l lta lca ltb lcb h h' = cc
envelope_bytes_injective a b t u (some ta) none tb cb m p q k l lta lca ltb lcb h h' = cc
envelope_bytes_injective a b t u (some ta) (some ca) none cb m p q k l lta lca ltb lcb h h' = cc
envelope_bytes_injective a b t u (some ta) (some ca) (some tb) none m p q k l lta lca ltb lcb h h' =
    cc

module _ (hex_to_bytes : String → Option Bytes) where
  pub padded_bytes-length :
      (clean : String) (x : Bytes)
      → ((s : String) (y : Bytes) → hex_to_bytes s ≡ some y → length y * 2 ≡ text_length s)
      → padded_bytes hex_to_bytes clean ≡ some x
      → length x ≡ 32
  unfolding padded_bytes
  padded_bytes-length clean x law h = elim (Bool-cases (text_length clean == 64)) [
    | inl e ↦ ground (arith, law clean x, nat_beq_iff (text_length clean) 64)
    | inr e ↦ ground arith
  ]

  pub address32-length :
      (hex : String) (x : Bytes)
      → ((s : String) (y : Bytes) → hex_to_bytes s ≡ some y → length y * 2 ≡ text_length s)
      → address32 hex_to_bytes hex ≡ some x
      → length x ≡ 32
  unfolding address32
  address32-length hex x law h = padded_bytes-length (pad_start (strip_0x hex)) x law h

  -- If two intents, with fields in the range of their types, have the same envelope, then they have
  -- the same timestamp and the same fields, and their addresses have the same bytes. `hexToBytes`
  -- is only known to give one byte for two digits.
  pub encode_envelope_injective :
      (a b : ActionIntent) (t u : ℕ) (message : Bytes)
      → ((s : String) (y : Bytes) → hex_to_bytes s ≡ some y → length y * 2 ≡ text_length s)
      → InRange a
      → InRange b
      → t < 18446744073709551616
      → u < 18446744073709551616
      → encode_envelope hex_to_bytes a t ≡ some message
      → encode_envelope hex_to_bytes b u ≡ some message
      → (t ≡ u)
        × SameFields a b
        × (address32 hex_to_bytes a.treasury_id ≡ address32 hex_to_bytes b.treasury_id)
        × (address32 hex_to_bytes a.agent_cap_id ≡ address32 hex_to_bytes b.agent_cap_id)
  unfolding encode_envelope
  encode_envelope_injective a b t u message law p q k l h h' =
      envelope_bytes_injective a b t u _ _ _ _ message p q k l
        (λ x. address32-length a.treasury_id x law) (λ x. address32-length a.agent_cap_id x law)
        (λ x. address32-length b.treasury_id x law) (λ x. address32-length b.agent_cap_id x law) h
        h'
