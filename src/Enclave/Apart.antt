-- ===== src/Enclave/Apart.antt =====
-- The older decisions of decision.ts, whose envelopes start with the same intent byte as those of
-- the action intents.
use looping_agent.Prelude.{
  ℕ, ◌+◌, ◌*◌, ◌<◌, String, ◌≡◌, ◌≢◌, refl, ap, sym, ◌∙◌, Option, none, some, [], ◌∷◌, ◌++◌, length,
  arith, zero, suc, ◌/◌,
}
use looping_agent.Js.Text.{text_length}
use looping_agent.Enclave.Bytes.{Bytes, u64le, address32, little_endian}
use looping_agent.Enclave.Envelopes.{
  ActionIntent, TreasuryDecision, payload_bytes, envelope_bytes, decision_bytes, encode_envelope,
  encode_decision,
}
use looping_agent.Enclave.Delimited.{u64le-delimited, append-delimited, ∷-tail}
use looping_agent.Enclave.Signed.{some-injective, address32-length}

-- The fields fit into 64 bits.
pub record InRange (d : TreasuryDecision) : Type 0 where
  pub timestamp_ms : d.timestamp_ms < 18446744073709551616
  pub decided_amount : d.decided_amount < 18446744073709551616
  pub decided_nonce : d.decided_nonce < 18446744073709551616

-- The two decisions agree on every field but the spelling of the address.
pub record SameFields (d e : TreasuryDecision) : Type 0 where
  pub timestamp_ms : d.timestamp_ms ≡ e.timestamp_ms
  pub decided_amount : d.decided_amount ≡ e.decided_amount
  pub decided_nonce : d.decided_nonce ≡ e.decided_nonce

length-++ : (x y : Bytes) → length (x ++ y) ≡ length x + length y
length-++ [] y = omega arith
length-++ (a ∷ x) y = omega (arith, length-++ x y)

length-little_endian : (n v : ℕ) → length (little_endian n v) ≡ n
unfolding little_endian
length-little_endian zero v = refl
length-little_endian (suc n) v = omega (arith, length-little_endian n (v / 256))

-- A payload with two addresses of 32 bytes is longer than 100 bytes.
payload_bytes-long :
    (a : ActionIntent) (treasury cap : Bytes)
    → length treasury ≡ 32
    → length cap ≡ 32
    → 100 < length (payload_bytes a treasury cap)
unfolding payload_bytes
payload_bytes-long a treasury cap p q = simp (length-++, length-little_endian) (omega (arith, p, q))

envelope_bytes-long :
    (a : ActionIntent) (t : ℕ) (treasury cap : Option Bytes) (m : Bytes)
    → ((x : Bytes) → treasury ≡ some x → length x ≡ 32)
    → ((x : Bytes) → cap ≡ some x → length x ≡ 32)
    → envelope_bytes a t treasury cap ≡ some m
    → 100 < length m
unfolding envelope_bytes
envelope_bytes-long a t none cap m p q h = cc
envelope_bytes-long a t (some x) none m p q h = cc
envelope_bytes-long a t (some x) (some y) m p q h = omega (
  arith,
  ap length (some-injective _ _ h),
  length-++ (u64le t) (payload_bytes a x y),
  payload_bytes-long a x y (p x refl) (q y refl),
)

decision_bytes-length :
    (d : TreasuryDecision) (treasury : Option Bytes) (m : Bytes)
    → ((x : Bytes) → treasury ≡ some x → length x ≡ 32)
    → decision_bytes d treasury ≡ some m
    → length m ≡ 57
unfolding decision_bytes
decision_bytes-length d none m p h = cc
decision_bytes-length d (some x) m p h =
    ap length (sym (some-injective _ _ h))
    ∙ simp (length-++, length-little_endian) (omega (arith, p x refl))

decision_bytes_injective :
    (d e : TreasuryDecision) (td te : Option Bytes) (m : Bytes)
    → ((x : Bytes) → td ≡ some x → length x ≡ 32)
    → ((x : Bytes) → te ≡ some x → length x ≡ 32)
    → InRange d
    → InRange e
    → decision_bytes d td ≡ some m
    → decision_bytes e te ≡ some m
    → SameFields d e × (td ≡ te)
unfolding decision_bytes
decision_bytes_injective d e none te m p q u v h k = cc
decision_bytes_injective d e (some x) none m p q u v h k = cc
decision_bytes_injective d e (some x) (some y) m p q u v h k =
    let (time, h1) =
      u64le-delimited _ _ _ _ u.timestamp_ms v.timestamp_ms
        (∷-tail 0 0 _ _ (some-injective _ _ (h ∙ sym k))) in
    let (treasury, h2) = append-delimited x y _ _ (p x refl ∙ sym (q y refl)) h1 in
    let (amount, h3) = u64le-delimited _ _ _ _ u.decided_amount v.decided_amount h2 in
    let (nonce, h4) =
      u64le-delimited _ _ [] [] u.decided_nonce v.decided_nonce (ap (λ z. z ++ []) h3) in
    (
      record { timestamp_ms = time; decided_amount = amount; decided_nonce = nonce },
      ap (λ z. some z) treasury,
    )

module _ (hex_to_bytes : String → Option Bytes) where
  -- No action intent has the same envelope as a decision. `hexToBytes` is only known to give one
  -- byte for two digits.
  pub envelopes_apart :
      (a : ActionIntent) (t : ℕ) (d : TreasuryDecision) (m n : Bytes)
      → ((s : String) (y : Bytes) → hex_to_bytes s ≡ some y → length y * 2 ≡ text_length s)
      → encode_envelope hex_to_bytes a t ≡ some m
      → encode_decision hex_to_bytes d ≡ some n
      → m ≢ n
  unfolding encode_envelope encode_decision
  envelopes_apart a t d m n law h k e = absurd (
      omega (
        arith,
        ap length e,
        envelope_bytes-long a t _ _ m (λ x. address32-length hex_to_bytes a.treasury_id x law)
            (λ x. address32-length hex_to_bytes a.agent_cap_id x law) h,
        decision_bytes-length d _ n (λ x. address32-length hex_to_bytes d.treasury x law) k,
      ))

  -- If two decisions, with fields of 64 bits, have the same envelope, then they have the same
  -- fields, and the addresses of their treasuries have the same bytes. `hexToBytes` is only known
  -- to give one byte for two digits.
  pub encode_decision_injective :
      (d e : TreasuryDecision) (m : Bytes)
      → ((s : String) (y : Bytes) → hex_to_bytes s ≡ some y → length y * 2 ≡ text_length s)
      → InRange d
      → InRange e
      → encode_decision hex_to_bytes d ≡ some m
      → encode_decision hex_to_bytes e ≡ some m
      → SameFields d e × (address32 hex_to_bytes d.treasury ≡ address32 hex_to_bytes e.treasury)
  unfolding encode_decision
  encode_decision_injective d e m law p q h k =
      decision_bytes_injective d e _ _ m (λ x. address32-length hex_to_bytes d.treasury x law)
        (λ x. address32-length hex_to_bytes e.treasury x law) p q h k
