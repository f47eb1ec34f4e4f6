-- ===== src/Auth/Hex.antt =====
-- `bytes_to_hex` and `hex_to_bytes` of src/auth.cpp.
use ragger_cpp.Auth.Base64.Alphabet.{below-lt}
use ragger_cpp.Prelude.{
  ==_iff, All, Bool, Bytes, Option, [], ap, arith, false, if◌then◌else◌, is_digit, ltb, none, refl,
  some, true, within, ℕ, ◌%◌, ◌*◌, ◌+◌, ◌-◌, ◌/◌, ◌<◌, ◌==◌, ◌∷◌, ◌≡◌,
}

-- A digit of `std::hex`.
abbrev pub hex_digit : ℕ → ℕ
hex_digit n = if ltb n 10 then b'0' + n else b'a' + (n - 10)

-- Two digits a byte: `setw(2)` and `setfill('0')`.
unfoldable pub bytes_to_hex : Bytes → Bytes
bytes_to_hex [] = []
bytes_to_hex (c ∷ s) = hex_digit (c / 16) ∷ hex_digit (c % 16) ∷ bytes_to_hex s

-- The digit that a character stands for.
abbrev pub hex_value : ℕ → Option ℕ
hex_value c =
    if is_digit c
    then some (c - b'0')
    else if within b'a' b'f' c
    then some (c - b'a' + 10)
    else if within b'A' b'F' c
    then some (c - b'A' + 10)
    else none

abbrev pub hex_pair : Option ℕ → Option ℕ → Option ℕ
hex_pair none y = none
hex_pair (some x) none = none
hex_pair (some x) (some y) = some (x * 16 + y)

abbrev pub push_value : Option ℕ → Option Bytes → Option Bytes
push_value none rest = none
push_value (some c) none = none
push_value (some c) (some rest) = some (c ∷ rest)

-- `sscanf("%02x")` on each pair. On a pair that is not two digits the code reads a byte that it has not
-- set, or goes beyond the pair: that is `none` here. An odd character at the end is not read.
unfoldable pub hex_to_bytes : Bytes → Option Bytes
unfolding is_digit
hex_to_bytes [] = some []
hex_to_bytes (x ∷ []) = some []
hex_to_bytes (x ∷ y ∷ hex) = push_value (hex_pair (hex_value x) (hex_value y)) (hex_to_bytes hex)

abbrev is_value : ℕ → Option ℕ → Bool
is_value n none = false
is_value n (some m) = m == n

is_value-some : (n : ℕ) (o : Option ℕ) → is_value n o ≡ true → o ≡ some n
is_value-some n none h = cc
is_value-some n (some m) h = ap some ((==_iff m n).0 h)

hex_value-hex_digit : (n : ℕ) → n < 16 → hex_value (hex_digit n) ≡ some n
unfolding is_digit
hex_value-hex_digit n h =
    is_value-some n _ (below-lt (λ k. is_value k (hex_value (hex_digit k))) 16 n refl h)

-- The bytes of a key are read back from its digits.
pub hex_to_bytes-bytes_to_hex :
    (s : Bytes) → All (λ c. c < 256) s → hex_to_bytes (bytes_to_hex s) ≡ some s
unfolding hex_to_bytes bytes_to_hex
hex_to_bytes-bytes_to_hex [] h = refl
hex_to_bytes-bytes_to_hex (c ∷ s) h =
    let high = hex_value-hex_digit (c / 16) (omega (arith, h.0)) in
    let low = hex_value-hex_digit (c % 16) (omega arith) in
    rw (high, low, hex_to_bytes-bytes_to_hex s h.1) (ap (λ n. some (n ∷ s)) (omega arith))
