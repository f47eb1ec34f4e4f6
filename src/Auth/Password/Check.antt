-- ===== src/Auth/Password/Check.antt =====
-- Checking a password against what was stored.
use ragger_cpp.Agent.Handle.{colon}
use ragger_cpp.Auth.Hex.{hex_digit, bytes_to_hex, hex_to_bytes-bytes_to_hex}
use ragger_cpp.Auth.Password.{
  stoi, stoi_from, unsigned_int, leading_digits, password_fields, Kdf, same_key, check_key,
  check_parts, check_fields, verify_password, stored_form, hash_password, pbkdf2_iterations,
}
use ragger_cpp.Prelude.{
  All, Bytes, Option-cases, [], ap, arith, codes, drop, drop-append_one, drop-drop, drop_while,
  equal, equal_self, false, find, inl, inr, is_digit, is_space, length, pos, refl, some,
  some-injective, starts_with, sym, take, take-append_left, take_long, true, ℕ, ℤ, ◌%◌, ◌++◌, ◌+◌,
  ◌-◌, ◌/◌, ◌<◌, ◌==◌, ◌∙◌, ◌∷◌, ◌≡◌,
}

abbrev pub IsBytes : Bytes → Type 0
IsBytes = All (λ c. c < 256)

hex_digit-colon : (n : ℕ) → n < 16 → (hex_digit n == b':') ≡ false
hex_digit-colon n h = ground arith

find-hex :
    (s rest : Bytes)
    → IsBytes s
    → find colon (bytes_to_hex s ++ b':' ∷ rest) ≡ some (length (bytes_to_hex s))
unfolding find starts_with bytes_to_hex
find-hex [] rest h = refl
find-hex (c ∷ s) rest h = ground (
  arith,
  hex_digit-colon (c / 16) (omega (arith, h.0)),
  hex_digit-colon (c % 16) (omega arith),
  find-hex s rest h.1,
)

password_fields-stored :
    (s rest : Bytes)
    → find colon (s ++ b':' ∷ rest) ≡ some (length s)
    → password_fields (codes "pbkdf2:600000:" ++ (s ++ b':' ∷ rest))
      ≡ some (codes "600000", s, rest)
unfolding password_fields find starts_with
password_fields-stored s rest h = rw h (rw (salt, key) refl)
  where
    text : Bytes
    text = codes "pbkdf2:600000:" ++ (s ++ b':' ∷ rest)

    salt : take (14 + length s - 13 - 1) (s ++ b':' ∷ rest) ≡ s
    salt = ap (λ n. take n (s ++ b':' ∷ rest)) (omega arith) ∙ take-append_left s (b':' ∷ rest)

    key : drop (14 + length s + 1) text ≡ rest
    key =
        ap (λ n. drop n text) (omega arith)
        ∙ drop-drop 14 (length s + 1) text
        ∙ drop-append_one s rest b':'

stoi-iterations : stoi (codes "600000") ≡ some (pos pbkdf2_iterations)
unfolding stoi stoi_from unsigned_int leading_digits drop_while is_space is_digit
stoi-iterations = refl

take_key : (n : ℕ) (key : Bytes) → length key ≡ n → take n key ≡ key
take_key n key h = take_long n key (omega arith)

same_key-equal : (a b : Bytes) → length a ≡ 32 → length b ≡ 32 → same_key a b ≡ equal a b
unfolding same_key
same_key-equal a b h k = rw (k, take_key 32 a h, take_key 32 b k) refl

-- What is known of PBKDF2: its keys are 32 bytes.
module _ (kdf : Kdf)
    (kdf-bytes : (p s : Bytes) (n : ℤ) (key : Bytes)
      → kdf p s n ≡ some key
      → (length key ≡ 32) × IsBytes key) where
  hash_password-some :
      (salt password stored : Bytes)
      → hash_password kdf salt password ≡ some stored
      → (key : Bytes) × (kdf password salt (pos pbkdf2_iterations) ≡ some key)
        × (stored ≡ stored_form salt key)
  unfolding hash_password
  hash_password-some salt password stored h =
      elim (Option-cases (kdf password salt (pos pbkdf2_iterations))) [
        | inl e ↦ absurd (ground (arith, e))
        | inr (key, e) ↦ (key, e, ground (arith, e))
      ]

  verify_password-stored :
      (salt key password derived : Bytes)
      → IsBytes salt
      → IsBytes key
      → kdf password salt (pos pbkdf2_iterations) ≡ some derived
      → verify_password kdf password (stored_form salt key) ≡ some (same_key derived key)
  unfolding verify_password check_fields check_parts check_key
  verify_password-stored salt key password derived hs hk e =
      let fields =
        password_fields-stored (bytes_to_hex salt) (bytes_to_hex key)
          (find-hex salt (bytes_to_hex key) hs) in
      rw fields (
        rw (stoi-iterations, hex_to_bytes-bytes_to_hex salt hs, hex_to_bytes-bytes_to_hex key hk, e)
          refl)

  -- Provided that PBKDF2 gives keys of 32 bytes: a password is accepted against what
  -- `hash_password` stored for it with a salt of bytes, and another one, for which PBKDF2
  -- gives a key, is accepted exactly if that is the same key.
  pub verify_password-hash_password :
      (salt password other stored key key' : Bytes)
      → IsBytes salt
      → hash_password kdf salt password ≡ some stored
      → kdf password salt (pos pbkdf2_iterations) ≡ some key
      → kdf other salt (pos pbkdf2_iterations) ≡ some key'
      → (verify_password kdf password stored ≡ some true)
        × (verify_password kdf other stored ≡ some (equal key' key))
  verify_password-hash_password salt password other stored key key' hs h e e' =
      let s = hash_password-some salt password stored h in
      let same : s.0 ≡ key = some-injective s.0 key (sym s.1 ∙ e) in
      let form : stored ≡ stored_form salt key = s.2 ∙ ap (stored_form salt) same in
      let b = kdf-bytes password salt (pos pbkdf2_iterations) key e in
      let b' = kdf-bytes other salt (pos pbkdf2_iterations) key' e' in
      rw form (
        verify_password-stored salt key password key hs b.1 e
            ∙ ap some (same_key-equal key key b.0 b.0 ∙ equal_self key),
        verify_password-stored salt key other key' hs b.1 e'
            ∙ ap some (same_key-equal key' key b'.0 b.0),
      )

  -- A stored entry with a salt of bytes and no key accepts every password for which PBKDF2
  -- gives a key; it is provided that those keys have 32 bytes.
  pub verify_password-no_key :
      (salt password derived : Bytes)
      → IsBytes salt
      → kdf password salt (pos pbkdf2_iterations) ≡ some derived
      → verify_password kdf password (stored_form salt []) ≡ some true
  unfolding same_key equal
  verify_password-no_key salt password derived hs e =
      verify_password-stored salt [] password derived hs tt e
