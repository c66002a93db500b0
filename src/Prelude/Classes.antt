-- ===== src/Prelude/Classes.antt =====
-- Equality tests as an interface: `===` on the types of the program.
use Prim.Native.Nat.{ℕ}
use Prim.Native.String.{String}
use mathlib.Core.Path.{◌≡◌}
use mathlib.Core.Logic.{◌↔◌}
use mathlib.Core.Bool.{Bool, true}
use text.Mathlib.Text.{◌==◌ as same_text}
use text.Mathlib.TextEquality.{eq_iff}
use looping_agent.Prelude.Tests.{nat_beq, nat_beq_iff}

-- A test for `x === y` on `T`, with what it decides.
pub record HasEq {ℓ} (T : Type ℓ) : Type ℓ where
  pub same : T → T → Bool
  pub same_iff : (x y : T) → (same x y ≡ true) ↔ (x ≡ y)

instance abbrev pub string_eq : HasEq String
string_eq = record { same = same_text; same_iff = eq_iff }

infix 50 ◌==◌
abbrev pub ◌==◌ {ℓ} : {T : Type ℓ} ⦃test : HasEq T⦄ → T → T → Bool
◌==◌ ⦃test⦄ x y = test.same x y

instance abbrev pub nat_eq : HasEq ℕ
nat_eq = record { same_iff = nat_beq_iff; same = nat_beq }
