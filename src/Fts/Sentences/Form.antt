-- ===== src/Fts/Sentences/Form.antt =====
-- The form of a sentence.
use ragger_cpp.Prelude.{
  All, Bool, Bool-cases, Bytes, List, [], ap, drop_end_while, drop_end_while-drop_end_while,
  drop_while, drop_while-drop_end_while, false, inl, inr, is_blank, keep_unless, null, refl, true,
  ℕ, ◌++◌, ◌∙◌, ◌∷◌, ◌≡◌,
}
use ragger_cpp.Fts.Sentences.{is_terminator, trimmed, push_sentence, split_from, split_sentences}

-- Every byte but the last one is no terminator.
abbrev pub IsInner : Bytes → Type 0
IsInner [] = Unit {0}
IsInner (c ∷ []) = Unit {0}
IsInner (c ∷ d ∷ s) = (is_terminator c ≡ false) × IsInner (d ∷ s)

-- Not empty, no blank at either end, and a terminator at its end only.
pub record IsSentence (s : Bytes) : Type 0 where
  pub filled : null s ≡ false
  pub inner : IsInner s
  pub tight : trimmed s ≡ s

IsInner-snoc :
    (current : Bytes) (c : ℕ)
    → All (λ d. is_terminator d ≡ false) current
    → IsInner (current ++ c ∷ [])
IsInner-snoc [] c h = tt
IsInner-snoc (d ∷ []) c h = (h.0, tt)
IsInner-snoc (d ∷ e ∷ current) c h = (h.0, IsInner-snoc (e ∷ current) c h.1)

IsInner-All : (s : Bytes) → All (λ d. is_terminator d ≡ false) s → IsInner s
IsInner-All [] h = tt
IsInner-All (c ∷ []) h = tt
IsInner-All (c ∷ d ∷ s) h = (h.0, IsInner-All (d ∷ s) h.1)

IsInner-tail : (c : ℕ) (s : Bytes) → IsInner (c ∷ s) → IsInner s
IsInner-tail c [] h = tt
IsInner-tail c (d ∷ s) h = h.1

IsInner-drop_while : (p : ℕ → Bool) (s : Bytes) → IsInner s → IsInner (drop_while p s)
unfolding drop_while
IsInner-drop_while p [] h = tt
IsInner-drop_while p (c ∷ s) h = elim (Bool-cases (p c)) [
  | inl e ↦ rw e (IsInner-drop_while p s (IsInner-tail c s h))
  | inr e ↦ rw e h
]

IsInner-keep_unless :
    (drops : Bool) (c : ℕ) (s r : Bytes)
    → IsInner (c ∷ s)
    → IsInner r
    → (null s ≡ true → r ≡ [])
    → IsInner (keep_unless drops c r)
IsInner-keep_unless true c s [] h k e = tt
IsInner-keep_unless false c s [] h k e = tt
IsInner-keep_unless drops c [] (d ∷ r) h k e = cc (e refl)
IsInner-keep_unless drops c (a ∷ s) (d ∷ r) h k e = (h.0, k)

IsInner-drop_end_while : (p : ℕ → Bool) (s : Bytes) → IsInner s → IsInner (drop_end_while p s)
unfolding drop_end_while
IsInner-drop_end_while p [] h = tt
IsInner-drop_end_while p (c ∷ s) h =
    IsInner-keep_unless (p c) c s (drop_end_while p s) h
      (IsInner-drop_end_while p s (IsInner-tail c s h)) (empty s)
  where
    empty : (s : Bytes) → null s ≡ true → drop_end_while p s ≡ []
    empty [] e = refl
    empty (a ∷ s) e = cc

pub trimmed-trimmed : (s : Bytes) → trimmed (trimmed s) ≡ trimmed s
unfolding trimmed
trimmed-trimmed s =
    ap (drop_end_while is_blank) (drop_while-drop_end_while is_blank is_blank s)
    ∙ drop_end_while-drop_end_while is_blank (drop_while is_blank s)

trimmed-IsInner : (s : Bytes) → IsInner s → IsInner (trimmed s)
unfolding trimmed
trimmed-IsInner s h = IsInner-drop_end_while is_blank _ (IsInner-drop_while is_blank s h)

push_sentence-All :
    (current : Bytes) (rest : List Bytes)
    → IsInner current
    → All IsSentence rest
    → All IsSentence (push_sentence current rest)
unfolding push_sentence
push_sentence-All current rest h k = elim (Bool-cases (null (trimmed current))) [
  | inl e ↦ rw e k
  | inr e ↦
      rw e (
        record { filled = e; inner = trimmed-IsInner current h; tight = trimmed-trimmed current },
        k,
      )
]

All-snoc :
    (current : Bytes) (c : ℕ)
    → All (λ d. is_terminator d ≡ false) current
    → is_terminator c ≡ false
    → All (λ d. is_terminator d ≡ false) (current ++ c ∷ [])
All-snoc [] c h e = (e, tt)
All-snoc (d ∷ current) c h e = (h.0, All-snoc current c h.1 e)

split_from-All :
    (current text : Bytes)
    → All (λ d. is_terminator d ≡ false) current
    → All IsSentence (split_from current text)
unfolding split_from
split_from-All current [] h = push_sentence-All current [] (IsInner-All current h) tt
split_from-All current (c ∷ text) h = elim (Bool-cases (is_terminator c)) [
  | inl e ↦ rw e (
      push_sentence-All (current ++ c ∷ []) (split_from [] text) (IsInner-snoc current c h)
        (split_from-All [] text tt))
  | inr e ↦ rw e (split_from-All (current ++ c ∷ []) text (All-snoc current c h e))
]

-- Every sentence is filled, has no blank at its ends, and no terminator but at its end: no pair of
-- words of one sentence lies across a terminator.
pub split_sentences-All : (text : Bytes) → All IsSentence (split_sentences text)
unfolding split_sentences
split_sentences-All text = split_from-All [] text tt
