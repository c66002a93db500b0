-- ===== src/Enclave/Delimited.antt =====
-- Each part of an envelope ends where its own bytes say, so what follows a part is determined.
use looping_agent.Prelude.{
  ℕ, zero, suc, ◌+◌, ◌*◌, ◌/◌, ◌%◌, ◌<◌, ◌≡◌, refl, ap, sym, ◌∙◌, [], ◌∷◌, ◌++◌, length, arith,
  ◌==◌, nat_eq, nat_beq_iff, Bool-cases, inl, inr, ◌⊎◌, ◌≤◌, ltb,
}
use looping_agent.Enclave.Bytes.{
  Bytes, little_endian, uleb_rounds, bytes_vec, u64le, u16le, uleb128,
}

-- 256 ^ n, and 128 ^ n.
abbrev pub bytes_bound : ℕ → ℕ
bytes_bound zero = 1
bytes_bound (suc n) = bytes_bound n * 256

abbrev pub uleb_bound : ℕ → ℕ
uleb_bound zero = 1
uleb_bound (suc n) = uleb_bound n * 128

pub ∷-head : (a b : ℕ) (x y : Bytes) → (a ∷ x) ≡ (b ∷ y) → a ≡ b
∷-head a b x y h = cc

pub ∷-tail : (a b : ℕ) (x y : Bytes) → (a ∷ x) ≡ (b ∷ y) → x ≡ y
∷-tail a b x y h = cc

lt_or_le : (a b : ℕ) → (a < b) ⊎ (b ≤ a)
lt_or_le a b = elim (Bool-cases (ltb a b)) [
  | inl e ↦ inl (ground arith)
  | inr e ↦ inr (ground arith)
]

-- The same equation between what both sides compute to.
ends :
    (r s : Bytes) {x x' y y' : Bytes}
    → x ≡ x'
    → y ≡ y'
    → (x ++ r) ≡ (y ++ s)
    → (x' ++ r) ≡ (y' ++ s)
ends r s e f h = sym (ap (λ t. t ++ r) e) ∙ h ∙ ap (λ t. t ++ s) f

pub ++_assoc : (x y z : Bytes) → ((x ++ y) ++ z) ≡ (x ++ (y ++ z))
++_assoc [] y z = refl
++_assoc (a ∷ x) y z = ap (λ r. a ∷ r) (++_assoc x y z)

pub little_endian-delimited :
    (n a b : ℕ) (r s : Bytes)
    → a < bytes_bound n
    → b < bytes_bound n
    → (little_endian n a ++ r) ≡ (little_endian n b ++ s)
    → (a ≡ b) × (r ≡ s)
unfolding little_endian
little_endian-delimited zero a b r s p q h = (omega arith, h)
little_endian-delimited (suc n) a b r s p q h =
    let first = ∷-head _ _ _ _ h in
    let (rest, end) =
      little_endian-delimited n (a / 256) (b / 256) r s (omega arith) (omega arith)
        (∷-tail _ _ _ _ h) in
    (omega arith, end)

uleb_rounds_last : (n a : ℕ) → a < 128 → uleb_rounds (suc n) a ≡ (a ∷ [])
unfolding uleb_rounds
uleb_rounds_last n a h =
    rw ((nat_beq_iff (a % 4294967296 / 128) 0).1 (omega arith)) (ap (λ x. x ∷ []) (omega arith))

uleb_rounds_more :
    (n a : ℕ)
    → 128 ≤ a
    → a < 4294967296
    → uleb_rounds (suc n) a ≡ ((a % 128 + 128) ∷ uleb_rounds n (a / 128))
unfolding uleb_rounds
uleb_rounds_more n a h k = elim (Bool-cases (a % 4294967296 / 128 == 0)) [
  | inl e ↦ absurd (omega (arith, (nat_beq_iff (a % 4294967296 / 128) 0).0 e))
  | inr e ↦ rw e (ap (λ x. (a % 128 + 128) ∷ uleb_rounds n x) (omega arith))
]

pub uleb_rounds-delimited :
    (n a b : ℕ) (r s : Bytes)
    → a < uleb_bound n
    → b < uleb_bound n
    → a < 4294967296
    → b < 4294967296
    → (uleb_rounds n a ++ r) ≡ (uleb_rounds n b ++ s)
    → (a ≡ b) × (r ≡ s)
unfolding uleb_rounds
uleb_rounds-delimited zero a b r s p q u v h = (omega arith, h)
uleb_rounds-delimited (suc n) a b r s p q u v h = elim (lt_or_le a 128) [
  | inl e ↦ elim (lt_or_le b 128) [
    | inl f ↦
        let h' = ends r s (uleb_rounds_last n a e) (uleb_rounds_last n b f) h in
        (∷-head _ _ _ _ h', ∷-tail _ _ _ _ h')
    | inr f ↦ absurd (
        omega
          (arith, ∷-head _ _ _ _ (ends r s (uleb_rounds_last n a e) (uleb_rounds_more n b f v) h)))
  ]
  | inr e ↦ elim (lt_or_le b 128) [
    | inl f ↦ absurd (
        omega
          (arith, ∷-head _ _ _ _ (ends r s (uleb_rounds_more n a e u) (uleb_rounds_last n b f) h)))
    | inr f ↦
        let h' = ends r s (uleb_rounds_more n a e u) (uleb_rounds_more n b f v) h in
        let first = ∷-head _ _ _ _ h' in
        let (rest, end) =
          uleb_rounds-delimited n (a / 128) (b / 128) r s (omega arith) (omega arith) (omega arith)
            (omega arith) (∷-tail _ _ _ _ h') in
        (omega arith, end)
  ]
]

pub append-delimited :
    (x y r s : Bytes) → length x ≡ length y → (x ++ r) ≡ (y ++ s) → (x ≡ y) × (r ≡ s)
append-delimited [] [] r s e h = (refl, h)
append-delimited [] (b ∷ y) r s e h = absurd (omega arith)
append-delimited (a ∷ x) [] r s e h = absurd (omega arith)
append-delimited (a ∷ x) (b ∷ y) r s e h =
    let (same, rest) = append-delimited x y r s (omega arith) (∷-tail _ _ _ _ h) in
    (ground arith, rest)

pub u16le-delimited :
    (a b : ℕ) (r s : Bytes)
    → a < 65536
    → b < 65536
    → (u16le a ++ r) ≡ (u16le b ++ s)
    → (a ≡ b) × (r ≡ s)
u16le-delimited = little_endian-delimited 2

pub u64le-delimited :
    (a b : ℕ) (r s : Bytes)
    → a < 18446744073709551616
    → b < 18446744073709551616
    → (u64le a ++ r) ≡ (u64le b ++ s)
    → (a ≡ b) × (r ≡ s)
u64le-delimited = little_endian-delimited 8

pub bytes_vec-delimited :
    (x y r s : Bytes)
    → length x < 4294967296
    → length y < 4294967296
    → (bytes_vec x ++ r) ≡ (bytes_vec y ++ s)
    → (x ≡ y) × (r ≡ s)
unfolding bytes_vec
bytes_vec-delimited x y r s p q h =
    let (same, rest) =
      uleb_rounds-delimited 5 (length x) (length y) (x ++ r) (y ++ s) (omega arith) (omega arith) p
        q (sym (++_assoc (uleb128 (length x)) x r) ∙ h ∙ ++_assoc (uleb128 (length y)) y s) in
    append-delimited x y r s same rest
