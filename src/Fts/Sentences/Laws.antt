-- ===== src/Fts/Sentences/Laws.antt =====
-- What `split_sentences` keeps, and the form of a sentence.
use ragger_cpp.Prelude.{
  Bool-cases, Bytes, List, [], ap, append_assoc, arith, concat, drop_end_while, drop_while,
  if◌then◌else◌, inl, inr, is_blank, keep_unless, null, refl, sym, true, ◌++◌, ◌∙◌, ◌∷◌, ◌≡◌,
}
use ragger_cpp.Fts.Sentences.{is_terminator, trimmed, push_sentence, split_from, split_sentences}

-- The bytes of a text that are not blank.
abbrev pub solid : Bytes → Bytes
solid [] = []
solid (c ∷ s) = let rest = solid s in if is_blank c then rest else c ∷ rest

solid-append : (a b : Bytes) → solid (a ++ b) ≡ solid a ++ solid b
solid-append [] b = refl
solid-append (c ∷ a) b = ground (arith, solid-append a b)

solid-drop_while : (s : Bytes) → solid (drop_while is_blank s) ≡ solid s
unfolding drop_while
solid-drop_while [] = refl
solid-drop_while (c ∷ s) = ground (arith, solid-drop_while s)

solid-drop_end_while : (s : Bytes) → solid (drop_end_while is_blank s) ≡ solid s
unfolding drop_end_while
solid-drop_end_while [] = refl
solid-drop_end_while (c ∷ s) = kept (drop_end_while is_blank s) (solid-drop_end_while s)
  where
    kept : (r : Bytes) → solid r ≡ solid s → solid (keep_unless (is_blank c) c r) ≡ solid (c ∷ s)
    kept [] h = ground arith
    kept (d ∷ r) h = ground arith

solid-trimmed : (s : Bytes) → solid (trimmed s) ≡ solid s
unfolding trimmed
solid-trimmed s = solid-drop_end_while (drop_while is_blank s) ∙ solid-drop_while s

null-solid : (s : Bytes) → null (trimmed s) ≡ true → solid s ≡ []
null-solid s h = empty (trimmed s) h (solid-trimmed s)
  where
    empty : (t : Bytes) → null t ≡ true → solid t ≡ solid s → solid s ≡ []
    empty [] h e = sym e
    empty (c ∷ t) h e = cc

solid-push_sentence :
    (current : Bytes) (rest : List Bytes)
    → solid (concat (push_sentence current rest)) ≡ solid current ++ solid (concat rest)
unfolding push_sentence
solid-push_sentence current rest = elim (Bool-cases (null (trimmed current))) [
  | inl e ↦ rw e (rw (null-solid current e) refl)
  | inr e ↦ rw e (
      solid-append (trimmed current) (concat rest)
      ∙ ap (λ t. t ++ solid (concat rest)) (solid-trimmed current))
]

solid-split_from :
    (current text : Bytes) → solid (concat (split_from current text)) ≡ solid current ++ solid text
unfolding split_from
solid-split_from current [] = solid-push_sentence current []
solid-split_from current (c ∷ text) = elim (Bool-cases (is_terminator c)) [
  | inl e ↦ rw e (
      solid-push_sentence (current ++ c ∷ []) (split_from [] text)
      ∙ ap (λ t. solid (current ++ c ∷ []) ++ t) (solid-split_from [] text)
      ∙ joined)
  | inr e ↦ rw e (solid-split_from (current ++ c ∷ []) text ∙ joined)
]
  where
    joined : solid (current ++ c ∷ []) ++ solid text ≡ solid current ++ solid (c ∷ text)
    joined = rw (solid-append current (c ∷ [])) (
        rw (append_assoc (solid current) (solid (c ∷ [])) (solid text))
          (ap (◌++◌ (solid current)) (sym (solid-append (c ∷ []) text))))

-- The sentences of a text, one behind the other, have the bytes of the text in the same order,
-- blanks aside.
solid-split_sentences : (text : Bytes) → solid (concat (split_sentences text)) ≡ solid text
unfolding split_sentences
solid-split_sentences text = solid-split_from [] text
