-- ===== src/Auth/Base64/Alphabet.antt =====
-- The characters of a token.
use ragger_cpp.Auth.Base64.{base64_char, quartet, encode_groups, base64url_encode}
use ragger_cpp.Prelude.{
  All, Bool, Bool-cases, Bytes, [], arith, false, inl, inr, is_alnum, is_alpha, is_digit, is_lower,
  is_upper, length, length-take, ltb, refl, suc, take, true, zero, ℕ, ◌%◌, ◌&&◌, ◌*◌, ◌+◌, ◌-◌, ◌/◌,
  ◌<◌, ◌==◌, ◌^◌, ◌||◌, ◌∷◌, ◌≡◌,
}

-- A character that needs no escape in a URL.
abbrev pub is_url_safe : ℕ → Bool
is_url_safe c = is_alnum c || c == b'-' || c == b'_'

abbrev pub IsUrlSafe : Bytes → Type 0
IsUrlSafe = All (λ c. is_url_safe c ≡ true)

-- The test holds of all numbers below.
abbrev pub below : (ℕ → Bool) → ℕ → Bool
below p zero = true
below p (suc n) = p n && below p n

pub below-lt : (p : ℕ → Bool) (n k : ℕ) → below p n ≡ true → k < n → p k ≡ true
below-lt p zero k h lt = absurd (omega arith)
below-lt p (suc n) k h lt = elim (Bool-cases (k == n)) [
  | inl e ↦ let same : k ≡ n = ground arith in rw same (ground arith)
  | inr e ↦ below-lt p n k (ground arith) (ground arith)
]

base64_char-safe : (k : ℕ) → k < 64 → is_url_safe (base64_char k) ≡ true
unfolding is_alnum is_alpha is_upper is_lower is_digit
base64_char-safe k h = below-lt (λ n. is_url_safe (base64_char n)) 64 k refl h

sextet-safe : (n : ℕ) → is_url_safe (base64_char (n % 64)) ≡ true
sextet-safe n = base64_char-safe (n % 64) (omega arith)

quartet-IsUrlSafe : (a b c : ℕ) (rest : Bytes) → IsUrlSafe rest → IsUrlSafe (quartet a b c rest)
unfolding quartet
quartet-IsUrlSafe a b c rest h =
    let triple = a * 2 ^ 16 + b * 2 ^ 8 + c in
    (
      sextet-safe (triple / 2 ^ 18),
      (sextet-safe (triple / 2 ^ 12), (sextet-safe (triple / 2 ^ 6), (sextet-safe triple, h))),
    )

encode_groups-IsUrlSafe : (s : Bytes) → IsUrlSafe (encode_groups s)
unfolding encode_groups
encode_groups-IsUrlSafe [] = tt
encode_groups-IsUrlSafe (a ∷ []) = quartet-IsUrlSafe a 0 0 [] tt
encode_groups-IsUrlSafe (a ∷ b ∷ []) = quartet-IsUrlSafe a b 0 [] tt
encode_groups-IsUrlSafe (a ∷ b ∷ c ∷ rest) =
    quartet-IsUrlSafe a b c (encode_groups rest) (encode_groups-IsUrlSafe rest)

take-IsUrlSafe : (n : ℕ) (s : Bytes) → IsUrlSafe s → IsUrlSafe (take n s)
take-IsUrlSafe zero s h = tt
take-IsUrlSafe (suc n) [] h = tt
take-IsUrlSafe (suc n) (c ∷ s) h = (h.0, take-IsUrlSafe n s h.1)

pub length-encode_groups : (s : Bytes) → length (encode_groups s) ≡ (length s + 2) / 3 * 4
unfolding encode_groups quartet
length-encode_groups [] = omega arith
length-encode_groups (a ∷ []) = omega arith
length-encode_groups (a ∷ b ∷ []) = omega arith
length-encode_groups (a ∷ b ∷ c ∷ rest) = omega (arith, length-encode_groups rest)

pub no_padding : (n : ℕ) → ltb 0 ((3 - n % 3) % 3) ≡ false → n % 3 ≡ 0
no_padding n e = ground arith

-- A token needs no escape in a URL, and has four characters for three bytes, rounded up, with no
-- padding.
pub base64url_encode-IsUrlSafe :
    (s : Bytes)
    → IsUrlSafe (base64url_encode s) × (length (base64url_encode s) ≡ (length s * 4 + 2) / 3)
unfolding base64url_encode
base64url_encode-IsUrlSafe s =
    let padding = (3 - length s % 3) % 3 in
    let n = length (encode_groups s) - padding in
    elim (Bool-cases (ltb 0 padding)) [
      | inl e ↦ rw e (
        take-IsUrlSafe n (encode_groups s) (encode_groups-IsUrlSafe s),
        omega (arith, length-take n (encode_groups s), length-encode_groups s),
      )
      | inr e ↦ rw e (
        encode_groups-IsUrlSafe s,
        omega (arith, length-encode_groups s, no_padding (length s) e),
      )
    ]
