-- ===== src/Auth/Base64.antt =====
-- `base64url_encode` of src/auth.cpp.
pub mod Alphabet
pub mod RoundTrip
use ragger_cpp.Prelude.{
  Bytes, [], codes, get_or, if◌then◌else◌, length, ltb, take, ℕ, ◌%◌, ◌*◌, ◌+◌, ◌-◌, ◌/◌, ◌^◌, ◌∷◌,
}

abbrev pub base64_chars : Bytes
base64_chars = codes "ABCDEFGHIJKLMNOPQRSTUVWXYZabcdefghijklmnopqrstuvwxyz0123456789-_"

abbrev pub base64_char : ℕ → ℕ
base64_char n = get_or base64_chars n 0

-- The four characters of three bytes: `(triple >> k) & 0x3F`.
pub quartet : ℕ → ℕ → ℕ → Bytes → Bytes
quartet a b c rest =
    let triple = a * 2 ^ 16 + b * 2 ^ 8 + c in
    base64_char (triple / 2 ^ 18 % 64)
    ∷ base64_char (triple / 2 ^ 12 % 64)
    ∷ base64_char (triple / 2 ^ 6 % 64)
    ∷ base64_char (triple % 64)
    ∷ rest

-- The loop; bytes that are missing are 0.
pub encode_groups : Bytes → Bytes
unfolding quartet
encode_groups [] = []
encode_groups (a ∷ []) = quartet a 0 0 []
encode_groups (a ∷ b ∷ []) = quartet a b 0 []
encode_groups (a ∷ b ∷ c ∷ rest) = quartet a b c (encode_groups rest)

unfoldable pub base64url_encode : Bytes → Bytes
unfolding encode_groups
base64url_encode data_bytes =
    let result = encode_groups data_bytes in
    let padding = (3 - length data_bytes % 3) % 3 in
    if ltb 0 padding then take (length result - padding) result else result
