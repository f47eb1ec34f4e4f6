-- ===== src/Tests/Access.antt =====
-- src/auth.cpp and src/util/fs.cpp at small inputs.
use ragger_cpp.Auth.Base64.RoundTrip.{decode, decode-base64url_encode}
use ragger_cpp.Auth.Base64.{base64url_encode}
use ragger_cpp.Auth.Origin.{request_origin_allowed, request_origin_allowed-lower}
use ragger_cpp.Auth.Password.Check.{IsBytes, verify_password-hash_password, verify_password-no_key}
use ragger_cpp.Auth.Password.{Kdf, verify_password, stored_form, hash_password}
use ragger_cpp.Agent.Handle.{is_one_of}
use ragger_cpp.Config.{ConfigMeta, CfgType, Accepts}
use ragger_cpp.Prelude.{
  Bytes, [], arith, codes, equal, false, find, get_or, is_alpha, is_digit, length, lower, null,
  refl, some, subst, suc, to_lower, true, zero, ℕ, ℤ, ◌%◌, ◌++◌, ◌<◌, ◌∷◌, ◌≡◌, ◌≤◌,
}
use ragger_cpp.Util.Fs.Quote.{Mode, shell_word, shell_quote_path-word}
use ragger_cpp.Util.Fs.Repo.{IsSegment, is_safe_model_repo-IsSegment}
use ragger_cpp.Util.Fs.{is_safe_model_repo, shell_quote_path}

decode-base64url_encode_example :
    decode (base64url_encode (1 ∷ 200 ∷ 3 ∷ 77 ∷ [])) ≡ 1 ∷ 200 ∷ 3 ∷ 77 ∷ []
decode-base64url_encode_example =
    decode-base64url_encode (1 ∷ 200 ∷ 3 ∷ 77 ∷ [])
      (omega arith, (omega arith, (omega arith, (omega arith, tt))))

base64_test : base64url_encode (0xFB ∷ 0xFF ∷ []) ≡ codes "-_8"
unfolding base64url_encode
base64_test = refl

request_origin_allowed-lower_example :
    (null (codes "Localhost:80") ≡ false)
    × (lower (codes "Localhost:80") ≡ lower (codes "localhost:80"))
unfolding is_one_of equal request_origin_allowed ragger_cpp.Prelude.find ragger_cpp.Prelude.to_lower
request_origin_allowed-lower_example =
    request_origin_allowed-lower (codes "POST") (codes "http") (codes "Localhost:80")
      (codes "localhost:80") refl (refl, (refl, (refl, (refl, tt)))) refl

-- Thirty-two bytes that start with the first byte of the password.
abbrev bytes_of : ℕ → ℕ → Bytes
bytes_of zero c = []
bytes_of (suc n) c = c ∷ bytes_of n c

abbrev toy : Kdf
toy password salt n = some (bytes_of 32 (get_or password 0 0 % 256))

bytes_of-IsBytes : (n c : ℕ) → c < 256 → IsBytes (bytes_of n c)
bytes_of-IsBytes zero c h = tt
bytes_of-IsBytes (suc n) c h = (h, bytes_of-IsBytes n c h)

length-bytes_of : (n c : ℕ) → length (bytes_of n c) ≡ n
length-bytes_of zero c = refl
length-bytes_of (suc n) c = omega (arith, length-bytes_of n c)

toy-bytes :
    (p s : Bytes) (n : ℤ) (key : Bytes) → toy p s n ≡ some key → (length key ≡ 32) × IsBytes key
toy-bytes p s n key h =
    subst (λ k. (length k ≡ 32) × IsBytes k) (same (bytes_of 32 (get_or p 0 0 % 256)) h)
      (
        length-bytes_of 32 (get_or p 0 0 % 256),
        bytes_of-IsBytes 32 (get_or p 0 0 % 256) (omega arith),
      )
  where
    same : (x : Bytes) → some x ≡ some key → x ≡ key
    same x e = cc

abbrev salt : Bytes
salt = 1 ∷ 2 ∷ []

salt-IsBytes : IsBytes salt
salt-IsBytes = (omega arith, (omega arith, tt))

verify_password-hash_password_example :
    (verify_password toy (codes "a") (stored_form salt (bytes_of 32 97)) ≡ some true)
    × (verify_password toy (codes "b") (stored_form salt (bytes_of 32 97))
        ≡ some (equal (bytes_of 32 98) (bytes_of 32 97)))
unfolding hash_password
verify_password-hash_password_example =
    verify_password-hash_password toy toy-bytes salt (codes "a") (codes "b")
      (stored_form salt (bytes_of 32 97)) (bytes_of 32 97) (bytes_of 32 98) salt-IsBytes refl refl
      refl

verify_password-no_key_example : verify_password toy (codes "b") (stored_form salt []) ≡ some true
verify_password-no_key_example =
    verify_password-no_key toy toy-bytes salt (codes "b") (bytes_of 32 98) salt-IsBytes refl

is_safe_model_repo-IsSegment_example :
    (provider model : Bytes) × (codes "org/model-1.b" ≡ provider ++ b'/' ∷ model)
    × IsSegment provider
    × IsSegment model
    × (length (codes "org/model-1.b") ≤ 200)
unfolding is_safe_model_repo ragger_cpp.Prelude.find equal ragger_cpp.Prelude.is_alpha
    ragger_cpp.Prelude.is_digit
is_safe_model_repo-IsSegment_example = is_safe_model_repo-IsSegment (codes "org/model-1.b") refl

climbing_test : is_safe_model_repo (codes "../x") ≡ false
unfolding is_safe_model_repo ragger_cpp.Prelude.find equal
climbing_test = refl

shell_quote_path-word_example :
    shell_word Mode.outside (shell_quote_path (codes "it's $HOME")) ≡ some (codes "it's $HOME")
shell_quote_path-word_example = shell_quote_path-word (codes "it's $HOME")

abbrev percent_meta : ConfigMeta
percent_meta = record { key = codes "summarizer_max_pct"; kind = CfgType.integer; options = [] }

abbrev accepts : Accepts
accepts = record { strtod = λ s. true; vformat = λ s. true }
