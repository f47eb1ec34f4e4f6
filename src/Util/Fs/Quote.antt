-- ===== src/Util/Fs/Quote.antt =====
-- Quoting for the shell, and paths in the home directory.
use ragger_cpp.Util.Fs.{quote_body, shell_quote_path, without_slash, collapse_home}
use ragger_cpp.Prelude.{
  ==_iff, Bool-cases, Bytes, Option, [], ap, append-nil, arith, drop, equal, equal_iff, get_or,
  if◌then◌else◌, inl, inr, length, ltb, none, null, refl, some, starts_with, starts_with-drop, sym,
  ℕ, ◌&&◌, ◌++◌, ◌==◌, ◌∙◌, ◌∷◌, ◌≡◌, ◌⊎◌,
}

-- Where a POSIX shell is in a word: outside quotes, behind a backslash there, or inside single quotes.
pub data Mode : Type 0 where
  outside : Mode
  escaped : Mode
  quoted : Mode

abbrev pub push : ℕ → Option Bytes → Option Bytes
push c none = none
push c (some s) = some (c ∷ s)

-- The word that a POSIX shell reads; `none` if a quote is left open or a byte stands unquoted, where it
-- may mean something else.
abbrev pub shell_word : Mode → Bytes → Option Bytes
shell_word outside [] = some []
shell_word escaped [] = none
shell_word quoted [] = none
shell_word outside (c ∷ s) =
    let q = shell_word quoted s in
    let e = shell_word escaped s in if c == b'\'' then q else if c == b'\\' then e else none
shell_word escaped (c ∷ s) = push c (shell_word outside s)
shell_word quoted (c ∷ s) =
    let o = shell_word outside s in
    let q = shell_word quoted s in if c == b'\'' then o else push c q

quote_body-word : (s : Bytes) → shell_word Mode.quoted (quote_body s ++ b'\'' ∷ []) ≡ some s
unfolding quote_body
quote_body-word [] = refl
quote_body-word (c ∷ s) = elim (Bool-cases (c == b'\'')) [
  | inl e ↦ rw e (rw (quote_body-word s) (ap (λ x. some (x ∷ s)) (sym ((==_iff c b'\'').0 e))))
  | inr e ↦ rw e (rw (e, quote_body-word s) refl)
]

-- A POSIX shell reads a quoted path as one word, the path itself, with no byte outside the
-- quotes but escaped ones.
pub shell_quote_path-word : (s : Bytes) → shell_word Mode.outside (shell_quote_path s) ≡ some s
unfolding shell_quote_path
shell_quote_path-word s = quote_body-word s

-- A collapsed path is the path, or a tilde and what stands behind the home directory in it.
pub collapse_home-append :
    (home path : Bytes)
    → (collapse_home home path ≡ path)
      ⊎ ((rest : Bytes) × (collapse_home home path ≡ b'~' ∷ rest)
          × (path ≡ without_slash home ++ rest))
unfolding collapse_home
collapse_home-append home path = elim (Bool-cases (null home)) [
  | inl e ↦ inl (rw e refl)
  | inr e ↦
      let h = without_slash home in
      elim (Bool-cases
        (ltb (length h) (length path) && starts_with h path && get_or path (length h) 0 == b'/')) [
          | inl f ↦
              inr (drop (length h) path, rw (e, f) refl, starts_with-drop h path (ground arith))
          | inr f ↦ elim (Bool-cases (equal path h)) [
            | inl g ↦ inr ([], rw (e, f, g) refl, (equal_iff path h).0 g ∙ sym (append-nil h))
            | inr g ↦ inl (rw (e, f, g) refl)
          ]
        ]
]
