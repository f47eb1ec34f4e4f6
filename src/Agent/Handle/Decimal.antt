-- ===== src/Agent/Handle/Decimal.antt =====
-- The decimal digits of a row id, as std::format writes them and `parse_agent_handle` reads them.
use ragger_cpp.Agent.Handle.{int_max, parse_digits}
use ragger_cpp.Prelude.{
  All, Bool-cases, Bytes, [], arith, false, if◌then◌else◌, inl, inr, is_digit, ltb, refl, some, suc,
  true, zero, ℕ, ◌%◌, ◌*◌, ◌++◌, ◌+◌, ◌-◌, ◌/◌, ◌<◌, ◌==◌, ◌∷◌, ◌≡◌, ◌≤◌,
}

-- The number that digits stand for, read on from `v`.
abbrev pub value : ℕ → Bytes → ℕ
value v [] = v
value v (c ∷ s) = value (v * 10 + (c - b'0')) s

abbrev pub IsDigits : Bytes → Type 0
IsDigits = All (λ c. is_digit c ≡ true)

value-ge : (v : ℕ) (s : Bytes) → v ≤ value v s
value-ge v [] = omega arith
value-ge v (c ∷ s) = omega (arith, value-ge (v * 10 + (c - b'0')) s)

pub parse_digits-value :
    (v : ℕ) (s : Bytes) → IsDigits s → value v s ≤ int_max → parse_digits v s ≡ some (value v s)
unfolding parse_digits
parse_digits-value v [] d h = refl
parse_digits-value v (c ∷ s) (d, ds) h =
    ground
      (arith, value-ge (v * 10 + (c - b'0')) s, parse_digits-value (v * 10 + (c - b'0')) s ds h)

pub parse_digits_sound :
    (v : ℕ) (s : Bytes) (n : ℕ)
    → v ≤ int_max
    → parse_digits v s ≡ some n
    → IsDigits s × (n ≡ value v s) × (n ≤ int_max)
unfolding parse_digits
parse_digits_sound v [] n k h = (tt, ground arith, ground arith)
parse_digits_sound v (c ∷ s) n k h = elim (Bool-cases (is_digit c)) [
  | inr d ↦ absurd (ground arith)
  | inl d ↦ elim (Bool-cases (ltb int_max (v * 10 + (c - b'0')))) [
    | inl o ↦ absurd (ground arith)
    | inr o ↦
        let ih = parse_digits_sound (v * 10 + (c - b'0')) s n (ground arith) (ground arith) in
        ((d, ih.0), ih.1, ih.2)
  ]
]

-- Decimal digits, most significant first, as `std::format("{}")` writes them. The fuel is enough if it
-- is above the number.
abbrev pub decimal : ℕ → ℕ → Bytes
decimal zero n = []
decimal (suc fuel) n =
    let rest = decimal fuel (n / 10) in
    if ltb n 10 then (b'0' + n) ∷ [] else rest ++ (b'0' + n % 10) ∷ []

value-append : (v : ℕ) (a : Bytes) (c : ℕ) → value v (a ++ c ∷ []) ≡ value v a * 10 + (c - b'0')
value-append v [] c = refl
value-append v (x ∷ a) c = value-append (v * 10 + (x - b'0')) a c

IsDigits-append : (a : Bytes) (c : ℕ) → IsDigits a → is_digit c ≡ true → IsDigits (a ++ c ∷ [])
IsDigits-append [] c d h = (h, tt)
IsDigits-append (x ∷ a) c d h = (d.0, IsDigits-append a c d.1 h)

digit-is_digit : (n : ℕ) → n < 10 → is_digit (b'0' + n) ≡ true
unfolding is_digit
digit-is_digit n h = ground arith

pub decimal-IsDigits : (fuel n : ℕ) → IsDigits (decimal fuel n)
decimal-IsDigits zero n = tt
decimal-IsDigits (suc fuel) n = elim (Bool-cases (ltb n 10)) [
  | inl e ↦ rw e (digit-is_digit n (ground arith), tt)
  | inr e ↦ rw e (
      IsDigits-append (decimal fuel (n / 10)) (b'0' + n % 10) (decimal-IsDigits fuel (n / 10))
        (digit-is_digit (n % 10) (omega arith)))
]

pub value-decimal : (fuel n : ℕ) → n < fuel → value 0 (decimal fuel n) ≡ n
value-decimal zero n h = absurd (omega arith)
value-decimal (suc fuel) n h = elim (Bool-cases (ltb n 10)) [
  | inl e ↦ rw e (omega arith)
  | inr e ↦
      let top = value-decimal fuel (n / 10) (ground arith) in
      rw e (omega (arith, value-append 0 (decimal fuel (n / 10)) (b'0' + n % 10), top))
]

-- A first byte that is not `0`.
abbrev pub Leads : Bytes → Type 0
Leads [] = ⊥
Leads (c ∷ s) = (c == b'0') ≡ false

Leads-append : (a b : Bytes) → Leads a → Leads (a ++ b)
Leads-append [] b h = absurd h
Leads-append (c ∷ a) b h = h

digit-nonzero : (n : ℕ) → 0 < n → (b'0' + n == b'0') ≡ false
digit-nonzero n h = ground arith

pub decimal-Leads : (fuel n : ℕ) → 0 < n → n < fuel → Leads (decimal fuel n)
decimal-Leads zero n p h = absurd (omega arith)
decimal-Leads (suc fuel) n p h = elim (Bool-cases (ltb n 10)) [
  | inl e ↦ rw e (digit-nonzero n p)
  | inr e ↦ rw e (
      Leads-append (decimal fuel (n / 10)) _
        (decimal-Leads fuel (n / 10) (ground arith) (ground arith)))
]
