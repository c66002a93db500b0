-- ===== src/Js/Number.antt =====
-- JavaScript numbers (doubles) as an interface: their type and the operations that the program
-- uses. A decimal literal such as 0.7 is written as the quotient 7 / 10, which is the same double.
use looping_agent.Prelude.{ℕ, String, Bool}

pub record Number (F : Type 0) : Type 0 where
  pub lt : F → F → Bool  -- a < b, false on NaN
  pub le : F → F → Bool  -- a <= b, false on NaN
  pub add : F → F → F
  pub sub : F → F → F
  pub mul : F → F → F
  pub div : F → F → F
  pub min : F → F → F
  pub max : F → F → F
  pub round : F → F  -- Math.round
  pub floor : F → ℕ  -- BigInt(Math.max(0, Math.floor(x)))
  pub is_finite : F → Bool  -- Number.isFinite
  pub of_ℕ : ℕ → F  -- an integer literal, and Number(n) of a bigint
  pub to_fixed : ℕ → F → String  -- x.toFixed(n)
  pub infinity : F
  pub neg_infinity : F
  pub abs : F → F  -- Math.abs
