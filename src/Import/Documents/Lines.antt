-- ===== src/Import/Documents/Lines.antt =====
-- What a cleaned line looks like.
use ragger_cpp.Import.Documents.{
  c_string, squeeze, normalize_whitespace, dashes, emit_run, cap_from, cap_dashes, is_mark,
  is_blank_space, clean_line,
}
use ragger_cpp.Prelude.{
  All, Bool, Bool-cases, Bytes, [], arith, drop_end_while, drop_end_while-drop_end_while,
  drop_while, drop_while-drop_end_while, false, inl, inr, is_space, keep_unless, leb, refl, suc,
  true, zero, ℕ, ◌==◌, ◌∷◌, ◌≡◌,
}

-- The only whitespace is the space.
abbrev pub IsSpaced : Bytes → Type 0
IsSpaced = All (λ c. is_space c ≡ true → c ≡ b' ')

squeeze-IsSpaced : (inside : Bool) (s : Bytes) → IsSpaced (squeeze inside s)
unfolding squeeze
squeeze-IsSpaced inside [] = tt
squeeze-IsSpaced inside (c ∷ s) = elim (Bool-cases (is_space c)) [
  | inr e ↦ rw e ((λ h. cc), squeeze-IsSpaced false s)
  | inl e ↦ elim (Bool-cases inside) [
    | inl f ↦ rw (e, f) (squeeze-IsSpaced true s)
    | inr f ↦ rw (e, f) ((λ h. refl), squeeze-IsSpaced true s)
  ]
]

c_string-IsSpaced : (s : Bytes) → IsSpaced s → IsSpaced (c_string s)
unfolding c_string
c_string-IsSpaced [] h = tt
c_string-IsSpaced (c ∷ s) h = elim (Bool-cases (c == 0)) [
  | inl e ↦ rw e tt
  | inr e ↦ rw e (h.0, c_string-IsSpaced s h.1)
]

dash-space : (c : ℕ) → c ≡ b'-' → is_space c ≡ true → c ≡ b' '
unfolding is_space
dash-space c e h = ground arith

dashes-IsSpaced : (n : ℕ) (s : Bytes) → IsSpaced s → IsSpaced (dashes n s)
unfolding dashes
dashes-IsSpaced zero s h = h
dashes-IsSpaced (suc n) s h = (dash-space b'-' refl, dashes-IsSpaced n s h)

emit_run-IsSpaced : (n : ℕ) (s : Bytes) → IsSpaced s → IsSpaced (emit_run n s)
unfolding emit_run
emit_run-IsSpaced n s h = elim (Bool-cases (leb 5 n)) [
  | inl e ↦ rw e (dashes-IsSpaced 3 s h)
  | inr e ↦ rw e (dashes-IsSpaced n s h)
]

cap_from-IsSpaced : (n : ℕ) (s : Bytes) → IsSpaced s → IsSpaced (cap_from n s)
unfolding cap_from
cap_from-IsSpaced n [] h = emit_run-IsSpaced n [] tt
cap_from-IsSpaced n (c ∷ s) h = elim (Bool-cases (c == b'-')) [
  | inl e ↦ rw e (cap_from-IsSpaced (suc n) s h.1)
  | inr e ↦ rw e (emit_run-IsSpaced n (c ∷ cap_from 0 s) (h.0, cap_from-IsSpaced 0 s h.1))
]

drop_while-IsSpaced : (p : ℕ → Bool) (s : Bytes) → IsSpaced s → IsSpaced (drop_while p s)
unfolding drop_while
drop_while-IsSpaced p [] h = tt
drop_while-IsSpaced p (c ∷ s) h = elim (Bool-cases (p c)) [
  | inl e ↦ rw e (drop_while-IsSpaced p s h.1)
  | inr e ↦ rw e h
]

keep_unless-IsSpaced :
    (drops : Bool) (c : ℕ) (s : Bytes)
    → (is_space c ≡ true → c ≡ b' ')
    → IsSpaced s
    → IsSpaced (keep_unless drops c s)
keep_unless-IsSpaced true c [] h k = tt
keep_unless-IsSpaced false c [] h k = (h, tt)
keep_unless-IsSpaced drops c (d ∷ s) h k = (h, k)

drop_end_while-IsSpaced : (p : ℕ → Bool) (s : Bytes) → IsSpaced s → IsSpaced (drop_end_while p s)
unfolding drop_end_while
drop_end_while-IsSpaced p [] h = tt
drop_end_while-IsSpaced p (c ∷ s) h =
    keep_unless-IsSpaced (p c) c (drop_end_while p s) h.0 (drop_end_while-IsSpaced p s h.1)

-- A cleaned line has no space or `#` at its start, no space at its end, and no whitespace in it but
-- spaces.
pub clean_line-IsSpaced :
    (line : Bytes)
    → IsSpaced (clean_line line)
      × (drop_while is_mark (clean_line line) ≡ clean_line line)
      × (drop_end_while is_blank_space (clean_line line) ≡ clean_line line)
unfolding clean_line cap_dashes normalize_whitespace
clean_line-IsSpaced line =
    let body = cap_dashes (normalize_whitespace line) in
    let spaced =
      cap_from-IsSpaced 0 (c_string (normalize_whitespace line))
        (c_string-IsSpaced (normalize_whitespace line) (squeeze-IsSpaced false (c_string line))) in
    (
      drop_end_while-IsSpaced is_blank_space (drop_while is_mark body)
          (drop_while-IsSpaced is_mark body spaced),
      drop_while-drop_end_while is_mark is_blank_space body,
      drop_end_while-drop_end_while is_blank_space (drop_while is_mark body),
    )
