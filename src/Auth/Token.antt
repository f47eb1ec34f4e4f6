-- ===== src/Auth/Token.antt =====
-- The token file of src/auth.cpp: `load_token` and `ensure_token`.
use ragger_cpp.Auth.Base64.Alphabet.{IsUrlSafe, is_url_safe, base64url_encode-IsUrlSafe}
use ragger_cpp.Auth.Base64.{base64url_encode}
use ragger_cpp.Prelude.{
  Bool-cases, Bytes, Option, [], ap, arith, drop_end_while, drop_while, false, if◌then◌else◌, inl,
  inr, is_alnum, is_alpha, is_blank, is_digit, is_lower, is_upper, keep_unless, length, none, not,
  null, refl, some, true, ℕ, ◌++◌, ◌<◌, ◌==◌, ◌∷◌, ◌≡◌,
}

-- `std::getline`: up to the first newline.
pub first_line : Bytes → Bytes
first_line [] = []
first_line (c ∷ s) = if c == b'\n' then [] else c ∷ first_line s

-- The file is `none` if it is not there or cannot be opened.
unfoldable pub load_token : Option Bytes → Bytes
unfolding first_line
load_token none = []
load_token (some content) = drop_end_while is_blank (drop_while is_blank (first_line content))

-- The token, and the file behind it. `random` is what /dev/urandom gives; a file that cannot be written
-- is an exception, which is not modelled.
unfoldable pub ensure_token : Option Bytes → Bytes → Bytes × Option Bytes
unfolding load_token base64url_encode
ensure_token file random =
    if not (null (load_token file))
    then (load_token file, file)
    else (base64url_encode random, some (base64url_encode random ++ b'\n' ∷ []))

safe-newline : (c : ℕ) → is_url_safe c ≡ true → (c == b'\n') ≡ false
unfolding is_alnum is_alpha is_upper is_lower is_digit
safe-newline c h = ground arith

safe-is_blank : (c : ℕ) → is_url_safe c ≡ true → is_blank c ≡ false
unfolding is_alnum is_alpha is_upper is_lower is_digit is_blank
safe-is_blank c h = ground arith

first_line-safe : (s : Bytes) → IsUrlSafe s → first_line (s ++ b'\n' ∷ []) ≡ s
unfolding first_line
first_line-safe [] h = refl
first_line-safe (c ∷ s) h = rw (safe-newline c h.0) (ap (◌∷◌ c) (first_line-safe s h.1))

drop_while-safe : (s : Bytes) → IsUrlSafe s → drop_while is_blank s ≡ s
unfolding drop_while
drop_while-safe [] h = refl
drop_while-safe (c ∷ s) h = rw (safe-is_blank c h.0) refl

drop_end_while-safe : (s : Bytes) → IsUrlSafe s → drop_end_while is_blank s ≡ s
unfolding drop_end_while
drop_end_while-safe [] h = refl
drop_end_while-safe (c ∷ s) h = rw (drop_end_while-safe s h.1, safe-is_blank c h.0) (kept s)
  where
    kept : (s : Bytes) → keep_unless false c s ≡ c ∷ s
    kept [] = refl
    kept (d ∷ s) = refl

load_token-safe : (s : Bytes) → IsUrlSafe s → load_token (some (s ++ b'\n' ∷ [])) ≡ s
unfolding load_token
load_token-safe s h = rw (first_line-safe s h, drop_while-safe s h) (drop_end_while-safe s h)

filled : (s : Bytes) → 0 < length s → null s ≡ false
filled [] h = absurd (omega arith)
filled (c ∷ s) h = refl

-- If at least one random byte is given, the token that `ensure_token` returns is the one then
-- read from the file, and a second call with any random bytes returns the same token and
-- leaves the file.
ensure_token-again :
    (file : Option Bytes) (random random' : Bytes)
    → 0 < length random
    → (load_token (ensure_token file random).1 ≡ (ensure_token file random).0)
      × (ensure_token (ensure_token file random).1 random' ≡ ensure_token file random)
unfolding ensure_token
ensure_token-again file random random' h = elim (Bool-cases (null (load_token file))) [
  | inr e ↦ rw e (refl, rw e refl)
  | inl e ↦
      let t = base64url_encode-IsUrlSafe random in
      let read = load_token-safe (base64url_encode random) t.0 in
      let some_bytes = filled (base64url_encode random) (omega (arith, t.1)) in
      rw e (read, rw (read, some_bytes) refl)
]
