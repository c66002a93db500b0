-- ===== src/Prelude/Tests.antt =====
-- Boolean tests on the native numbers, the conditional, and the case lemmas.
use Prim.Native.Nat.{ℕ, compare, Ordering}
use mathlib.Core.Path.{◌≡◌, refl}
use mathlib.Core.Logic.{◌↔◌, ◌⊎◌, inl, inr}
use mathlib.Core.Bool.{Bool, true, false, not, ◌&&◌}
use mathlib.Core.Option.{Option, none, some}
use native.Mathlib.Omega.{arith}

abbrev pub ltb : ℕ → ℕ → Bool
ltb a b = elim (compare a b) [ Ordering.lt ↦ true | _ ↦ false ]

abbrev pub leb : ℕ → ℕ → Bool
leb a b = elim (compare a b) [ Ordering.gt ↦ false | _ ↦ true ]

abbrev pub nat_beq : ℕ → ℕ → Bool
nat_beq a b = elim (compare a b) [ Ordering.eq ↦ true | _ ↦ false ]

infix 1 if◌then◌else◌
abbrev pub if◌then◌else◌ {ℓ} : {A : Type ℓ} → Bool → A → A → A
if true then x else y = x
if false then x else y = y

pub nat_beq_iff : (a b : ℕ) → (nat_beq a b ≡ true) ↔ (a ≡ b)
nat_beq_iff a b = ground arith

pub Bool-cases : (b : Bool) → (b ≡ true) ⊎ (b ≡ false)
Bool-cases true = inl refl
Bool-cases false = inr refl

pub Option-cases {ℓ} : {A : Type ℓ} (o : Option A) → (o ≡ none) ⊎ ((a : A) × (o ≡ some a))
Option-cases none = inl refl
Option-cases (some a) = inr (a, refl)

-- What holds on every branch of an if, and of two in turn.
pub three_ways :
    {A : Type 0} (P : A → Type 0) (ok dry : Bool) (x y z : A)
    → P x
    → P y
    → (ok ≡ true → dry ≡ false → P z)
    → P (if not ok && not dry then x else if dry then y else z)
three_ways P false false x y z p q r = p
three_ways P false true x y z p q r = q
three_ways P true true x y z p q r = q
three_ways P true false x y z p q r = r refl refl

pub in_turn :
    {A : Type 0} (P : A → Type 0) (b c : Bool) (x y z : A)
    → P x
    → (c ≡ true → P y)
    → P z
    → P (if b then x else if c then y else z)
in_turn P true c x y z p q r = p
in_turn P false true x y z p q r = q refl
in_turn P false false x y z p q r = r

pub two_ways :
    {A : Type 0} (P : A → Type 0) (b : Bool) (x y : A) → P x → P y → P (if b then x else y)
two_ways P true x y p q = p
two_ways P false x y p q = q
