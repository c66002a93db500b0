-- ===== src/Enclave/Bytes.antt =====
-- The encoders of the parts, which both files of the enclave share.
use Prim.Native.Char.{code}
use Prim.Native.String.{◌++◌ as append}
use looping_agent.Prelude.{
  ℕ, zero, suc, ◌-◌, ◌+◌, ◌/◌, ◌%◌, String, ◌&&◌, Option, none, List, [], ◌∷◌, ◌++◌, ◌==◌, nat_eq,
  if◌then◌else◌, length,
}
use looping_agent.Js.Text.{text_length}

abbrev pub Bytes : Type 0
Bytes = List ℕ

-- The `n` low bytes of `v`, the lowest first: `u16le` for 2, `u64le` for 8.
unfoldable pub little_endian : ℕ → ℕ → Bytes
little_endian zero v = []
little_endian (suc n) v = v % 256 ∷ little_endian n (v / 256)

abbrev pub u16le : ℕ → Bytes
u16le = little_endian 2

abbrev pub u64le : ℕ → Bytes
u64le = little_endian 8

-- The loop of `uleb128`. `x >>>= 7` reads its number modulo 2^32, so five rounds end it.
unfoldable pub uleb_rounds : ℕ → ℕ → Bytes
uleb_rounds zero x = []
uleb_rounds (suc fuel) x =
    let rest = uleb_rounds fuel (x % 4294967296 / 128) in
    if x % 4294967296 / 128 == 0 then x % 128 ∷ [] else (x % 128 + 128) ∷ rest

abbrev pub uleb128 : ℕ → Bytes
uleb128 = uleb_rounds 5

-- `bytesVec`
unfoldable pub bytes_vec : Bytes → Bytes
bytes_vec b = uleb128 (length b) ++ b

-- `hex.replace(/^0x/, '')`
unfoldable pub strip_0x : String → String
strip_0x String.[] = ""
strip_0x (String.◌∷◌ c String.[]) = String.◌∷◌ c ""
strip_0x (String.◌∷◌ c (String.◌∷◌ d s)) =
    if code c == b'0' && code d == b'x' then s else String.◌∷◌ c (String.◌∷◌ d s)

unfoldable pub zeros_onto : ℕ → String → String
zeros_onto zero s = s
zeros_onto (suc n) s = append "0" (zeros_onto n s)

-- `padStart(64, '0')`
unfoldable pub pad_start : String → String
pad_start s = zeros_onto (64 - text_length s) s

module _ (hex_to_bytes : String → Option Bytes) where
  -- The bytes of a padded address.
  unfoldable pub padded_bytes : String → Option Bytes
  padded_bytes clean = if text_length clean == 64 then hex_to_bytes clean else none

  unfoldable pub address32 : String → Option Bytes
  address32 hex = padded_bytes (pad_start (strip_0x hex))
