-- ===== src/Summarizer/Thinking/Laws.antt =====
-- What `strip_thinking` leaves.
use native.Mathlib.Numerals.{add-one}
use ragger_cpp.Prelude.{
  Bool-cases, Bytes, Option, Option-cases, arith, codes, drop, drop_while, false, find, find-drop,
  find-drop_while, find-le, find_first_not, find_from, inl, inr, is_blank, length, length-append,
  length-drop, length-drop_while, length-take, ltb, none, refl, rfind, some, starts_with, suc, take,
  zero, ℕ, ◌+◌, ◌<◌, ◌∷◌, ◌≡◌, ◌≤◌,
}
use ragger_cpp.Summarizer.Thinking.{
  open_tag, close_tag, preamble, erase_block, strip_block, strip_blocks, after_blank,
  strip_preamble, strip_thinking,
}

find_from-ge : (p s : Bytes) (i k : ℕ) → find_from p s i ≡ some k → i ≤ k
find_from-ge p s i k h = ground arith

length-erase_block :
    (s : Bytes) (opening : ℕ) (close : Option ℕ)
    → opening + 7 ≤ length s
    → ((c : ℕ) → close ≡ some c → opening ≤ c)
    → length (erase_block s opening close) < length s
unfolding erase_block
length-erase_block s opening none h k = omega (arith, length-take opening s)
length-erase_block s opening (some c) h k = omega (
  arith,
  k c refl,
  length-append (take opening s) (drop (c + 8) s),
  length-take opening s,
  length-drop (c + 8) s,
)

-- Every round takes something away.
strip_block-lt : (s rest : Bytes) → strip_block s ≡ some rest → length rest < length s
unfolding strip_block
strip_block-lt s rest h = elim (Option-cases (find open_tag s)) [
  | inl e ↦ ground (arith, e)
  | inr (o, e) ↦
      let shorter =
        length-erase_block s o (find_from close_tag s o) (find-le open_tag s o e)
          (λ c. find_from-ge close_tag s o c) in
      ground (arith, e, shorter)
]

strip_block-none : (s : Bytes) → strip_block s ≡ none → find open_tag s ≡ none
unfolding strip_block
strip_block-none s h = ground arith

strip_blocks-done :
    (fuel : ℕ) (s : Bytes)
    → length s < fuel
    → (find open_tag (strip_blocks fuel s) ≡ none) × (length (strip_blocks fuel s) ≤ length s)
unfolding strip_blocks
strip_blocks-done zero s h = absurd (omega arith)
strip_blocks-done (suc fuel) s h = elim (Option-cases (strip_block s)) [
  | inl e ↦ rw (e, strip_blocks) (strip_block-none s e, omega arith)
  | inr (rest, e) ↦
      let shorter = strip_block-lt s rest e in
      let ih = strip_blocks-done fuel rest (omega arith) in rw (e, strip_blocks) (ih.0, omega arith)
]

-- What holds of a text and of its ends holds after the preamble is cut off.
after_blank-keeps :
    (P : Bytes → Type 0) (s : Bytes) (start : ℕ) (blank : Option ℕ)
    → P s
    → ((n : ℕ) → P (drop n s))
    → P (after_blank s start blank)
unfolding after_blank
after_blank-keeps P s start none h k = h
after_blank-keeps P s start (some b) h k = elim (Bool-cases (ltb start b)) [
  | inl e ↦ rw e (k (b + 2))
  | inr e ↦ rw e h
]

strip_preamble-keeps :
    (P : Bytes → Type 0) (s : Bytes) → P s → ((n : ℕ) → P (drop n s)) → P (strip_preamble s)
unfolding strip_preamble
strip_preamble-keeps P s h k = elim (Option-cases (find_first_not is_blank s)) [
  | inl e ↦ rw (e, strip_preamble) h
  | inr (start, e) ↦
      rw (e, strip_preamble)
        (elim (Bool-cases (starts_with preamble (drop start s))) [
          | inl y ↦ rw y (after_blank-keeps P s start (rfind (codes "\n\n") s) h k)
          | inr n ↦ rw n h
        ])
]

-- Whatever the model writes, the text that is kept of it has no opening tag of a thinking
-- block, and is not longer.
strip_thinking_clean :
    (s : Bytes) → (find open_tag (strip_thinking s) ≡ none) × (length (strip_thinking s) ≤ length s)
unfolding strip_thinking
strip_thinking_clean s =
    let done = strip_blocks-done (length s + 1) s (omega arith) in
    let blocks = strip_blocks (length s + 1) s in
    (
      find-drop_while open_tag (strip_preamble blocks) is_blank (
          strip_preamble-keeps (λ t. find open_tag t ≡ none) blocks done.0
            (λ n. find-drop open_tag blocks n done.0)),
      omega (
        arith,
        length-drop_while is_blank (strip_preamble blocks),
        strip_preamble-keeps (λ t. length t ≤ length s) blocks done.1
            (λ n. omega (arith, length-drop n blocks, done.1)),
      ),
    )

strip_blocks-untagged :
    (fuel : ℕ) (s : Bytes) → find open_tag s ≡ none → strip_blocks (suc fuel) s ≡ s
unfolding strip_blocks
strip_blocks-untagged fuel s h =
    let last : strip_block s ≡ none = unfold strip_block in rw (h, strip_block) refl in
    rw (last, strip_blocks)

strip_preamble-other :
    (c : ℕ) (s : Bytes)
    → is_blank c ≡ false
    → starts_with preamble (c ∷ s) ≡ false
    → strip_preamble (c ∷ s) ≡ c ∷ s
unfolding strip_preamble
strip_preamble-other c s blank pre =
    let first : find_first_not is_blank (c ∷ s) ≡ some 0 = unfold find_first_not in rw blank refl in
    rw (first, strip_preamble) (rw pre refl)

-- An answer with no tag, no preamble and no leading blank is kept as it is.
pub strip_thinking-plain :
    (c : ℕ) (s : Bytes)
    → is_blank c ≡ false
    → find open_tag (c ∷ s) ≡ none
    → starts_with preamble (c ∷ s) ≡ false
    → strip_thinking (c ∷ s) ≡ c ∷ s
unfolding strip_thinking
strip_thinking-plain c s blank tag pre = rw (add-one (length (c ∷ s))) (
    rw (strip_blocks-untagged (length (c ∷ s)) (c ∷ s) tag)
      (rw (strip_preamble-other c s blank pre) (unfold drop_while in rw blank refl)))
