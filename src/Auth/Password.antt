-- ===== src/Auth/Password.antt =====
-- Passwords in src/auth.cpp. OpenSSL's PBKDF2 is a parameter.
pub mod Check
use ragger_cpp.Agent.Handle.{colon, int_max}
use ragger_cpp.Auth.Hex.{bytes_to_hex, hex_to_bytes}
use ragger_cpp.Prelude.{
  Bool, Bytes, Option, [], codes, drop, drop_while, equal, false, find_from, if◌then◌else◌,
  is_digit, is_space, length, ltb, min, negsuc, none, not, pos, some, starts_with, suc, take, zero,
  ℕ, ℤ, ◌*◌, ◌++◌, ◌+◌, ◌-◌, ◌==◌, ◌∷◌,
}

-- The number that digits stand for, read on from `v`, and whether there is one.
pub leading_digits : ℕ → Bytes → ℕ
leading_digits v [] = v
leading_digits v (c ∷ s) =
    let rest = leading_digits (v * 10 + (c - b'0')) s in if is_digit c then rest else v

abbrev pub starts_with_digit : Bytes → Bool
starts_with_digit [] = false
starts_with_digit (c ∷ s) = is_digit c

abbrev pub negative : ℕ → ℤ
negative zero = pos 0
negative (suc n) = negsuc n

pub unsigned_int : Bytes → Option ℤ
unfolding leading_digits
unsigned_int s =
    if not (starts_with_digit s)
    then none
    else if ltb int_max (leading_digits 0 s)
    then none
    else some (pos (leading_digits 0 s))

pub signed_int : Bytes → Option ℤ
unfolding leading_digits
signed_int s =
    if not (starts_with_digit s)
    then none
    else if ltb (int_max + 1) (leading_digits 0 s)
    then none
    else some (negative (leading_digits 0 s))

-- `std::stoi`; `none` is one of its exceptions.
pub stoi_from : Bytes → Option ℤ
unfolding unsigned_int signed_int
stoi_from [] = none
stoi_from (c ∷ s) =
    if c == b'-' then signed_int s else if c == b'+' then unsigned_int s else unsigned_int (c ∷ s)

pub stoi : Bytes → Option ℤ
unfolding stoi_from
stoi s = stoi_from (drop_while is_space s)

abbrev pub pbkdf2_iterations : ℕ
pbkdf2_iterations = 600_000

abbrev pub pbkdf2_key_len : ℕ
pbkdf2_key_len = 32

-- "pbkdf2:iterations:salt_hex:key_hex", cut at its colons.
pub password_fields : Bytes → Option (Bytes × Bytes × Bytes)
password_fields stored_hash =
    if not (starts_with (codes "pbkdf2:") stored_hash)
    then none
    else elim (find_from colon stored_hash 7) [
      | none ↦ none
      | some pos2 ↦ elim (find_from colon stored_hash (pos2 + 1)) [
        | none ↦ none
        | some pos3 ↦ some (
          take (pos2 - 7) (drop 7 stored_hash),
          take (pos3 - pos2 - 1) (drop (pos2 + 1) stored_hash),
          drop (pos3 + 1) stored_hash,
        )
      ]
    ]

-- What PKCS5_PBKDF2_HMAC gives for a password, a salt and a number of iterations; `none` is a failure.
abbrev pub Kdf : Type 0
Kdf = Bytes → Bytes → ℤ → Option Bytes

-- CRYPTO_memcmp over the shorter length.
pub same_key : Bytes → Bytes → Bool
same_key key expected =
    let n = min pbkdf2_key_len (length expected) in equal (take n key) (take n expected)

pub check_key : Option Bytes → Bytes → Bool
unfolding same_key
check_key none expected = false
check_key (some key) expected = same_key key expected

pub check_parts : Kdf → Bytes → Option ℤ → Option Bytes → Option Bytes → Option Bool
unfolding check_key
check_parts kdf password (some n) (some salt) (some expected) =
    some (check_key (kdf password salt n) expected)
check_parts kdf password _ _ _ = none

pub check_fields : Kdf → Bytes → Option (Bytes × Bytes × Bytes) → Option Bool
unfolding check_parts stoi hex_to_bytes
check_fields kdf password none = some false
check_fields kdf password (some (iterations, salt, key)) =
    check_parts kdf password (stoi iterations) (hex_to_bytes salt) (hex_to_bytes key)

-- `none` is an exception, or a field of digits that is not well formed.
unfoldable pub verify_password : Kdf → Bytes → Bytes → Option Bool
unfolding check_fields password_fields
verify_password kdf password stored_hash = check_fields kdf password (password_fields stored_hash)

abbrev pub stored_form : Bytes → Bytes → Bytes
stored_form salt key = codes "pbkdf2:600000:" ++ (bytes_to_hex salt ++ b':' ∷ bytes_to_hex key)

-- With the salt that RAND_bytes gives; `none` is the exception.
unfoldable pub hash_password : Kdf → Bytes → Bytes → Option Bytes
hash_password kdf salt password = elim (kdf password salt (pos pbkdf2_iterations)) [
  | none ↦ none
  | some key ↦ some (stored_form salt key)
]
