-- ===== src/Auth/Base64/RoundTrip.antt =====
-- Tokens and the bytes that they are made of.
use ragger_cpp.Auth.Base64.Alphabet.{below-lt, length-encode_groups, no_padding}
use ragger_cpp.Auth.Base64.{base64_chars, base64_char, base64url_encode, encode_groups, quartet}
use ragger_cpp.Prelude.{
  ==_iff, All, Bool-cases, Bytes, [], ap, arith, find, inl, inr, length, ltb, none, refl, some,
  starts_with, suc, sym, take, take_long, ℕ, ◌%◌, ◌*◌, ◌+◌, ◌-◌, ◌/◌, ◌<◌, ◌==◌, ◌^◌, ◌∙◌, ◌∷◌, ◌≡◌,
}

-- RFC 4648, section 5: the place of a character in the alphabet.
abbrev pub place : ℕ → ℕ
place c = elim (find (c ∷ []) base64_chars) [ none ↦ 0 | some k ↦ k ]

-- RFC 4648: the bytes that characters without padding stand for.
abbrev pub decode : Bytes → Bytes
decode [] = []
decode (a ∷ []) = []
decode (a ∷ b ∷ []) = (place a * 4 + place b / 16) ∷ []
decode (a ∷ b ∷ c ∷ []) = (place a * 4 + place b / 16) ∷ (place b % 16 * 16 + place c / 4) ∷ []
decode (a ∷ b ∷ c ∷ d ∷ rest) =
    (place a * 4 + place b / 16)
    ∷ (place b % 16 * 16 + place c / 4)
    ∷ (place c % 4 * 64 + place d)
    ∷ decode rest

place-sextet : (n : ℕ) → place (base64_char (n % 64)) ≡ n % 64
unfolding find starts_with
place-sextet n =
    (==_iff _ _).0 (below-lt (λ k. place (base64_char k) == k) 64 (n % 64) refl (omega arith))

abbrev pub IsByte : ℕ → Type 0
IsByte c = c < 256

first_byte :
    (a b c t : ℕ)
    → IsByte a
    → IsByte b
    → IsByte c
    → t ≡ a * 65536 + b * 256 + c
    → t / 262144 % 64 * 4 + t / 4096 % 64 / 16 ≡ a
first_byte a b c t ha hb hc e = omega arith

second_byte :
    (a b c t : ℕ)
    → IsByte a
    → IsByte b
    → IsByte c
    → t ≡ a * 65536 + b * 256 + c
    → t / 4096 % 64 % 16 * 16 + t / 64 % 64 / 4 ≡ b
second_byte a b c t ha hb hc e = omega arith

third_byte :
    (a b c t : ℕ)
    → IsByte a
    → IsByte b
    → IsByte c
    → t ≡ a * 65536 + b * 256 + c
    → t / 64 % 64 % 4 * 64 + t % 64 ≡ c
third_byte a b c t ha hb hc e = omega arith

base64url_encode-take :
    (s : Bytes) → base64url_encode s ≡ take ((length s * 4 + 2) / 3) (encode_groups s)
unfolding base64url_encode
base64url_encode-take s = elim (Bool-cases (ltb 0 ((3 - length s % 3) % 3))) [
  | inl e ↦ rw e (ap (λ n. take n (encode_groups s)) (omega (arith, length-encode_groups s)))
  | inr e ↦ rw e (
      sym (
        take_long _ (encode_groups s)
          (omega (arith, length-encode_groups s, no_padding (length s) e))))
]

take_four :
    (n m w x y z : ℕ) (rest : Bytes)
    → n ≡ 4 + m
    → take n (w ∷ x ∷ y ∷ z ∷ rest) ≡ w ∷ x ∷ y ∷ z ∷ take m rest
take_four n m w x y z rest e = ap (λ k. take k (w ∷ x ∷ y ∷ z ∷ rest)) e'
  where
    e' : n ≡ suc (suc (suc (suc m)))
    e' = omega arith

sextets :
    (a b c t : ℕ)
    → IsByte a
    → IsByte b
    → IsByte c
    → t ≡ a * 2 ^ 16 + b * 2 ^ 8 + c
    → (place (base64_char (t / 2 ^ 18 % 64)) * 4 + place (base64_char (t / 2 ^ 12 % 64)) / 16 ≡ a)
      × (place (base64_char (t / 2 ^ 12 % 64)) % 16 * 16 + place (base64_char (t / 2 ^ 6 % 64)) / 4
          ≡ b)
      × (place (base64_char (t / 2 ^ 6 % 64)) % 4 * 64 + place (base64_char (t % 64)) ≡ c)
sextets a b c t ha hb hc e =
    rw
      (
        place-sextet (t / 2 ^ 18),
        place-sextet (t / 2 ^ 12),
        place-sextet (t / 2 ^ 6),
        place-sextet t,
      )
      (first_byte a b c t ha hb hc e, second_byte a b c t ha hb hc e, third_byte a b c t ha hb hc e)

decode-take :
    (s : Bytes) → All IsByte s → decode (take ((length s * 4 + 2) / 3) (encode_groups s)) ≡ s
unfolding encode_groups quartet
decode-take [] h = refl
decode-take (a ∷ []) h = ap (λ x. x ∷ []) (sextets a 0 0 _ h.0 (omega arith) (omega arith) refl).0
decode-take (a ∷ b ∷ []) h =
    let s = sextets a b 0 (a * 2 ^ 16 + b * 2 ^ 8 + 0) h.0 h.1.0 (omega arith) refl in
    rw (s.0, s.1) refl
decode-take (a ∷ b ∷ c ∷ rest) h =
    let t = a * 2 ^ 16 + b * 2 ^ 8 + c in
    let s = sextets a b c t h.0 h.1.0 h.1.1.0 refl in
    let m = (length rest * 4 + 2) / 3 in
    rw
      (take_four ((suc (suc (suc (length rest))) * 4 + 2) / 3) m _ _ _ _ (encode_groups rest)
        (omega arith))
      (rw (s.0, s.1, s.2, decode-take rest h.1.1.1) refl)

-- Decoding a token as RFC 4648, section 5, says gives back the bytes that it was made from.
pub decode-base64url_encode : (s : Bytes) → All IsByte s → decode (base64url_encode s) ≡ s
decode-base64url_encode s h = ap decode (base64url_encode-take s) ∙ decode-take s h
