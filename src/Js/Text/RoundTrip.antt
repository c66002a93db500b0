-- ===== src/Js/Text/RoundTrip.antt =====
-- `BigInt(n.toString())` is `n`.
use Prim.Native.Char.{Char, code}
use Prim.Native.String.{char_at}
use looping_agent.Prelude.{
  ℕ, zero, suc, ◌+◌, ◌-◌, ◌*◌, ◌/◌, ◌%◌, ◌≤◌, ◌<◌, String, ◌≡◌, refl, Bool, true, false, ◌&&◌, some,
  arith, ltb, ◌==◌, nat_eq, nat_beq_iff, Bool-cases, inl, inr, sym, ap, ◌∙◌,
}
use looping_agent.Js.Int.{pos}
use looping_agent.Js.Text.{
  big_int, safe_big_int, decimal, decimal_onto, digits_in, digit_value, trim, trim_end, is_space,
  read_integer, after_zero, map_option,
}

abbrev IsDigit : ℕ → Type 0
IsDigit c = (48 ≤ c) × (c ≤ 57)

abbrev AllDigits : String → Type 0
AllDigits String.[] = Unit
AllDigits (String.◌∷◌ c s) = IsDigit (code c) × AllDigits s

digit_table : ℕ → Bool
digit_table zero = true
digit_table (suc n) = code (char_at "0123456789" n) == 48 + n && digit_table n

digit_table_sound :
    (n d : ℕ) → digit_table n ≡ true → d < n → code (char_at "0123456789" d) ≡ 48 + d
unfolding digit_table
digit_table_sound zero d h lt = absurd (omega arith)
digit_table_sound (suc n) d h lt =
    ground (arith, digit_table_sound n d, nat_beq_iff (code (char_at "0123456789" n)) (48 + n))

digit_table_ten : digit_table 10 ≡ true
unfolding digit_table
digit_table_ten = refl

code-digit : (n : ℕ) → code (char_at "0123456789" (n % 10)) ≡ 48 + n % 10
code-digit n = digit_table_sound 10 (n % 10) digit_table_ten (omega arith)

digit_value_lem : (c : ℕ) → IsDigit c → digit_value c ≡ c - 48
unfolding digit_value
digit_value_lem c h = ground arith

decimal_onto-AllDigits :
    (fuel n : ℕ) (rest : String) → AllDigits rest → AllDigits (decimal_onto fuel n rest)
unfolding decimal_onto
decimal_onto-AllDigits zero n rest h = h
decimal_onto-AllDigits (suc fuel) n rest h = ground (
  arith,
  code-digit n,
  decimal_onto-AllDigits fuel (n / 10) (String.◌∷◌ (char_at "0123456789" (n % 10)) rest),
)

digits_in-digit :
    (acc d : ℕ) (c : Char) (rest : String)
    → code c ≡ 48 + d
    → d < 10
    → digits_in 10 acc (String.◌∷◌ c rest) ≡ digits_in 10 (acc * 10 + d) rest
unfolding digits_in
digits_in-digit acc d c rest e h =
    let v : digit_value (code c) ≡ d = rw (digit_value_lem (code c) (omega arith)) (omega arith) in
    rw v (ground arith)

digits_in-decimal_onto :
    (fuel n : ℕ) (rest : String)
    → n < fuel
    → digits_in 10 0 (decimal_onto fuel n rest) ≡ digits_in 10 n rest
unfolding decimal_onto
digits_in-decimal_onto zero n rest h = absurd (omega arith)
digits_in-decimal_onto (suc fuel) n rest h = elim (Bool-cases (ltb n 10)) [
  | inl small ↦ rw small (
      digits_in-digit 0 (n % 10) (char_at "0123456789" (n % 10)) rest (code-digit n) (omega arith)
      ∙ ap (λ k. digits_in 10 k rest) (ground arith))
  | inr large ↦ rw large (
      digits_in-decimal_onto fuel (n / 10) (String.◌∷◌ (char_at "0123456789" (n % 10)) rest)
        (ground arith)
      ∙ digits_in-digit (n / 10) (n % 10) (char_at "0123456789" (n % 10)) rest (code-digit n)
          (omega arith)
      ∙ ap (λ k. digits_in 10 k rest) (omega arith))
]

-- A text that begins with a digit.
abbrev IsNumeral : String → Type 0
IsNumeral String.[] = ⊥
IsNumeral (String.◌∷◌ c s) = IsDigit (code c) × AllDigits s

decimal_onto-IsNumeral :
    (fuel n : ℕ) (rest : String) → AllDigits rest → IsNumeral (decimal_onto (suc fuel) n rest)
unfolding decimal_onto
decimal_onto-IsNumeral zero n rest h = ground (arith, code-digit n)
decimal_onto-IsNumeral (suc fuel) n rest h = ground (
  arith,
  code-digit n,
  decimal_onto-IsNumeral fuel (n / 10) (String.◌∷◌ (char_at "0123456789" (n % 10)) rest),
)

not-is_space : (c : ℕ) → IsDigit c → is_space c ≡ false
unfolding is_space
not-is_space c h = ground arith

trim_end-AllDigits : (s : String) → AllDigits s → trim_end s ≡ s
unfolding trim_end
trim_end-AllDigits String.[] h = refl
trim_end-AllDigits (String.◌∷◌ c s) h =
    rw (not-is_space (code c) h.0) (ap (λ r. String.◌∷◌ c r) (trim_end-AllDigits s h.1))

trim-IsNumeral : (s : String) → IsNumeral s → trim s ≡ s
unfolding trim
trim-IsNumeral String.[] h = elim h [ ]
trim-IsNumeral (String.◌∷◌ c s) h =
    rw (not-is_space (code c) h.0) (trim_end-AllDigits (String.◌∷◌ c s) h)

after_zero-AllDigits :
    (c : Char) (s : String)
    → code c ≡ 48
    → AllDigits s
    → after_zero s ≡ digits_in 10 0 (String.◌∷◌ c s)
unfolding after_zero digits_in
after_zero-AllDigits c String.[] e h = sym (digits_in-digit 0 0 c "" (omega arith) (omega arith))
after_zero-AllDigits c (String.◌∷◌ d s) e h =
    rw (digits_in-digit 0 0 c (String.◌∷◌ d s) (omega arith) (omega arith)) (ground arith)

read_integer-IsNumeral :
    (s : String) → IsNumeral s → read_integer s ≡ map_option pos (digits_in 10 0 s)
unfolding read_integer
read_integer-IsNumeral String.[] h = elim h [ ]
read_integer-IsNumeral (String.◌∷◌ c s) h = elim (Bool-cases (code c == 48)) [
  | inl e ↦ ground (arith, nat_beq_iff (code c) 48, after_zero-AllDigits c s)
  | inr e ↦ ground arith
]

decimal-IsNumeral : (n : ℕ) → IsNumeral (decimal n)
unfolding decimal
decimal-IsNumeral n = decimal_onto-IsNumeral n n "" tt

digits_in-decimal : (n : ℕ) → digits_in 10 0 (decimal n) ≡ some n
unfolding decimal digits_in
digits_in-decimal n = digits_in-decimal_onto (suc n) n "" (omega arith)

big_int-IsNumeral : (s : String) → IsNumeral s → big_int s ≡ map_option pos (digits_in 10 0 s)
unfolding big_int
big_int-IsNumeral s h = rw (trim-IsNumeral s h) (read_integer-IsNumeral s h)

pub big_int-decimal : (n : ℕ) → big_int (decimal n) ≡ some (pos n)
unfolding map_option
big_int-decimal n =
    big_int-IsNumeral (decimal n) (decimal-IsNumeral n) ∙ ap (map_option pos) (digits_in-decimal n)

safe_big_int-IsNumeral : (s : String) → IsNumeral s → safe_big_int s ≡ digits_in 10 0 s
unfolding safe_big_int
safe_big_int-IsNumeral String.[] h = elim h [ ]
safe_big_int-IsNumeral (String.◌∷◌ c s) h = refl

-- Reading the decimal digits of a natural number gives the number back.
pub safe_big_int-decimal : (n : ℕ) → safe_big_int (decimal n) ≡ some n
safe_big_int-decimal n =
    safe_big_int-IsNumeral (decimal n) (decimal-IsNumeral n) ∙ digits_in-decimal n
