-- ===== src/Enclave.antt =====
-- What the enclave signs: the bytes (enclave/app/action_intent.ts and enclave/app/decision.ts, which
-- write BCS by hand) and the decision (enclave/app/decide.ts). A byte is a number, a `Uint8Array` a
-- list of them, and a `bigint` here is never negative. `hexToBytes` of the hashing library is a
-- parameter, `none` where it throws.
pub mod Bytes
pub mod Envelopes
pub mod Delimited
pub mod Signed
pub mod Apart
pub mod Decide
pub mod Signing
