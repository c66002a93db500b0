-- ===== src/Js/Text.antt =====
-- Text as the program handles it: template literals, decimal printing, `BigInt` of a text, and
-- letter case (of the ASCII letters, which the program's asset and protocol names are made of).
pub mod RoundTrip
use Prim.Native.Char.{Char, code}
use Prim.Native.String.{char_at, ◌++◌ as append}
use looping_agent.Prelude.{
  ℕ, zero, suc, ◌+◌, ◌-◌, ◌*◌, ◌/◌, ◌%◌, String, Bool, true, false, ◌&&◌, ◌||◌, Option, none, some,
  List, [], ◌∷◌, ltb, leb, ◌==◌, nat_eq, if◌then◌else◌,
}
use looping_agent.Js.Int.{ℤ, pos, negate}

-- A template literal, by its parts in order.
unfoldable pub template : List String → String
template [] = ""
template (s ∷ parts) = append s (template parts)

abbrev letters_lower : String
letters_lower = "abcdefghijklmnopqrstuvwxyz"

abbrev letters_upper : String
letters_upper = "ABCDEFGHIJKLMNOPQRSTUVWXYZ"

abbrev in_range : ℕ → ℕ → ℕ → Bool
in_range lo hi c = leb lo c && leb c hi

-- `s.length`, for texts without surrogate pairs.
unfoldable pub text_length : String → ℕ
text_length String.[] = 0
text_length (String.◌∷◌ c s) = suc (text_length s)

-- `s.slice(0, n)`
unfoldable pub text_slice : ℕ → String → String
text_slice zero s = ""
text_slice (suc n) String.[] = ""
text_slice (suc n) (String.◌∷◌ c s) = String.◌∷◌ c (text_slice n s)

-- `s.toLowerCase()`
unfoldable pub lower : String → String
lower String.[] = ""
lower (String.◌∷◌ c s) =
    String.◌∷◌ (if in_range b'A' b'Z' (code c) then char_at letters_lower (code c - b'A') else c)
      (lower s)

-- `s.toUpperCase()`
unfoldable pub upper : String → String
upper String.[] = ""
upper (String.◌∷◌ c s) =
    String.◌∷◌ (if in_range b'a' b'z' (code c) then char_at letters_upper (code c - b'a') else c)
      (upper s)

-- The white space that `trim` and `BigInt` remove.
is_space : ℕ → Bool
is_space c =
    in_range 9 13 c
    || c == 32
    || c == 160
    || c == 5760
    || in_range 8192 8202 c
    || c == 8232
    || c == 8233
    || c == 8239
    || c == 8287
    || c == 12288
    || c == 65279

trim_start : String → String
trim_start String.[] = ""
trim_start (String.◌∷◌ c s) =
    let rest = trim_start s in if is_space (code c) then rest else String.◌∷◌ c s

is_empty : String → Bool
is_empty String.[] = true
is_empty (String.◌∷◌ c s) = false

trim_end : String → String
trim_end String.[] = ""
trim_end (String.◌∷◌ c s) =
    let rest = trim_end s in if is_space (code c) && is_empty rest then "" else String.◌∷◌ c rest

-- `s.trim()`
unfoldable pub trim : String → String
unfolding trim_start trim_end is_space is_empty
trim s = trim_end (trim_start s)

-- The value of a digit up to base 36; 99 is no digit.
digit_value : ℕ → ℕ
digit_value c =
    if in_range b'0' b'9' c
    then c - b'0'
    else if in_range b'a' b'z' c
    then c - 87
    else if in_range b'A' b'Z' c
    then c - 55
    else 99

digits_in : ℕ → ℕ → String → Option ℕ
digits_in base acc String.[] = some acc
digits_in base acc (String.◌∷◌ c s) =
    let rest = digits_in base (acc * base + digit_value (code c)) s in
    if ltb (digit_value (code c)) base then rest else none

-- One digit at least.
digits1 : ℕ → String → Option ℕ
digits1 base String.[] = none
digits1 base (String.◌∷◌ c s) = digits_in base 0 (String.◌∷◌ c s)

map_option : {A B : Type 0} → (A → B) → Option A → Option B
map_option f none = none
map_option f (some a) = some (f a)

-- What follows a leading `0`: a prefix `x`, `o` or `b` in either case, or more decimal digits.
after_zero : String → Option ℕ
after_zero String.[] = some 0
after_zero (String.◌∷◌ c s) =
    if code c == b'x' || code c == b'X'
    then digits1 16 s
    else if code c == b'o' || code c == b'O'
    then digits1 8 s
    else if code c == b'b' || code c == b'B'
    then digits1 2 s
    else digits_in 10 0 (String.◌∷◌ c s)

read_integer : String → Option ℤ
read_integer String.[] = some (pos 0)
read_integer (String.◌∷◌ c s) =
    if code c == b'-'
    then map_option negate (digits1 10 s)
    else if code c == b'+'
    then map_option pos (digits1 10 s)
    else if code c == b'0'
    then map_option pos (after_zero s)
    else map_option pos (digits_in 10 0 (String.◌∷◌ c s))

-- `BigInt(s)`, `none` where it throws.
unfoldable pub big_int : String → Option ℤ
unfolding trim read_integer after_zero digits1 digits_in digit_value map_option
big_int s = read_integer (trim s)

-- A text of one or more decimal digits, as `safeBigInt` reads it.
unfoldable pub safe_big_int : String → Option ℕ
unfolding digits1 digits_in digit_value
safe_big_int s = digits1 10 s

-- Decimal printing, the last digits first onto what follows. The fuel bounds the digits.
decimal_onto : ℕ → ℕ → String → String
decimal_onto zero n rest = rest
decimal_onto (suc fuel) n rest =
    let more = decimal_onto fuel (n / 10) (String.◌∷◌ (char_at "0123456789" (n % 10)) rest) in
    if ltb n 10 then String.◌∷◌ (char_at "0123456789" (n % 10)) rest else more

-- `n.toString()` and `${n}` of a natural number.
unfoldable pub decimal : ℕ → String
unfolding decimal_onto
decimal n = decimal_onto (suc n) n ""
