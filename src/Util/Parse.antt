-- ===== src/Util/Parse.antt =====
-- include/util/parse.h: row ids in routes and queries.
use ragger_cpp.Agent.Handle.Decimal.{value, IsDigits, parse_digits-value, parse_digits_sound}
use ragger_cpp.Agent.Handle.{int_max, parse_digits, parse_rowid}
use ragger_cpp.Prelude.{
  Bool, Bool-cases, Bytes, Option, Option-cases, [], arith, false, if◌then◌else◌, inl, inr,
  is_digit, ltb, none, not, refl, some, true, within, ℕ, ◌==◌, ◌∷◌, ◌≡◌,
}

unfoldable pub digits_only : Bytes → Bool
digits_only [] = true
digits_only (c ∷ s) = if not (is_digit c) then false else digits_only s

-- `std::from_chars` of an `int` on digits: an error on overflow.
pub from_digits : Bytes → Option ℕ
from_digits s = if ltb int_max (value 0 s) then none else some (value 0 s)

unfoldable pub parse_positive_int : Bytes → Option ℕ
unfolding digits_only from_digits
parse_positive_int [] = none
parse_positive_int (c ∷ s) =
    if not (within b'1' b'9' c)
    then none
    else if not (digits_only (c ∷ s))
    then none
    else from_digits (c ∷ s)

digits_only-IsDigits : (s : Bytes) → digits_only s ≡ true → IsDigits s
unfolding digits_only
digits_only-IsDigits [] h = tt
digits_only-IsDigits (c ∷ s) h = (ground arith, digits_only-IsDigits s (ground arith))

IsDigits-digits_only : (s : Bytes) → IsDigits s → digits_only s ≡ true
unfolding digits_only
IsDigits-digits_only [] h = refl
IsDigits-digits_only (c ∷ s) h = ground (arith, h.0, IsDigits-digits_only s h.1)

parse_digits-from_digits :
    (s : Bytes) → parse_digits 0 s ≡ (if not (digits_only s) then none else from_digits s)
unfolding from_digits
parse_digits-from_digits s = elim (Bool-cases (digits_only s)) [
  | inr e ↦ elim (Option-cases (parse_digits 0 s)) [
    | inl f ↦ rw e f
    | inr (n, f) ↦
        let d = parse_digits_sound 0 s n (omega arith) f in
        absurd (ground (arith, e, IsDigits-digits_only s d.0))
  ]
  | inl e ↦ elim (Bool-cases (ltb int_max (value 0 s))) [
    | inr g ↦ rw (e, g) (parse_digits-value 0 s (digits_only-IsDigits s e) (ground arith))
    | inl g ↦ elim (Option-cases (parse_digits 0 s)) [
      | inl f ↦ rw (e, g) f
      | inr (n, f) ↦
          let d = parse_digits_sound 0 s n (omega arith) f in absurd (ground (arith, g, d.1, d.2))
    ]
  ]
]

first_digit : (c : ℕ) (s : Bytes) → is_digit c ≡ false → digits_only (c ∷ s) ≡ false
unfolding digits_only
first_digit c s e = rw e refl

digit_cases : (c : ℕ) → is_digit c ≡ true → within b'1' b'9' c ≡ not (c == b'0')
unfolding is_digit
digit_cases c e = ground arith

no_digit : (c : ℕ) → is_digit c ≡ false → within b'1' b'9' c ≡ false
unfolding is_digit
no_digit c e = ground arith

-- On every text, the ids of routes are read as the row ids of handles are.
parse_positive_int-parse_rowid : (s : Bytes) → parse_positive_int s ≡ parse_rowid s
unfolding parse_positive_int parse_rowid
parse_positive_int-parse_rowid [] = refl
parse_positive_int-parse_rowid (c ∷ s) = elim (Bool-cases (is_digit c)) [
  | inl e ↦ ground (arith, parse_digits-from_digits (c ∷ s), digit_cases c e)
  | inr e ↦ ground (arith, parse_digits-from_digits (c ∷ s), no_digit c e, first_digit c s e)
]
