-- ===== src/Summarizer/Markers/Stacked.antt =====
-- Notes with nested brackets, one behind the other.
use native.Mathlib.Numerals.{add-one}
use ragger_cpp.Prelude.{
  Bytes, [], append_assoc, arith, drop_while, equal, false, is_blank, length, length-append,
  length-drop_while, refl, some, suc, ℕ, ◌++◌, ◌+◌, ◌==◌, ◌∙◌, ◌∷◌, ◌≡◌,
}
use ragger_cpp.Summarizer.Markers.Laws.{strip_notes-fuel}
use ragger_cpp.Summarizer.Markers.{
  compaction, ltrim_view, leading_marker, after_close, after_note, strip_notes,
  strip_system_injected_prefix,
}

-- Text whose brackets are balanced.
pub data Balanced : Bytes → Type 0 where
  nil : Balanced []
  plain :
      {s : Bytes} (c : ℕ)
      → (c == b'[') ≡ false
      → (c == b']') ≡ false
      → Balanced s
      → Balanced (c ∷ s)
  nested : {s t : Bytes} → Balanced s → Balanced t → Balanced (b'[' ∷ (s ++ b']' ∷ t))

after_close_open :
    (depth : ℕ) (s : Bytes) → after_close depth (b'[' ∷ s) ≡ after_close (depth + 1) s
unfolding after_close
after_close_open depth s = refl

after_close_up :
    (depth : ℕ) (s : Bytes) → after_close (suc (suc depth)) (b']' ∷ s) ≡ after_close (suc depth) s
unfolding after_close
after_close_up depth s = ground arith

after_close_plain :
    (depth c : ℕ) (s : Bytes)
    → (c == b'[') ≡ false
    → (c == b']') ≡ false
    → after_close depth (c ∷ s) ≡ after_close depth s
unfolding after_close
after_close_plain depth c s o e = ground arith

-- Balanced text inside a note leaves the depth as it is.
after_close-Balanced :
    {s : Bytes} (depth : ℕ) (rest : Bytes)
    → Balanced s
    → after_close (suc depth) (s ++ rest) ≡ after_close (suc depth) rest
after_close-Balanced depth rest nil = refl
after_close-Balanced depth rest (plain {s} c o e b) =
    after_close_plain (suc depth) c (s ++ rest) o e ∙ after_close-Balanced depth rest b
after_close-Balanced depth rest (nested {s} {t} b d) =
    after_close_open (suc depth) ((s ++ b']' ∷ t) ++ rest)
    ∙ rw (add-one (suc depth)) (
        rw (append_assoc s (b']' ∷ t) rest) (
          after_close-Balanced (suc depth) (b']' ∷ (t ++ rest)) b
          ∙ after_close_up depth (t ++ rest)
          ∙ after_close-Balanced depth rest d))

after_note-Balanced :
    {note : Bytes} (marker t : Bytes)
    → equal marker compaction ≡ false
    → Balanced note
    → after_note marker (b'[' ∷ (note ++ b']' ∷ t)) ≡ some t
unfolding after_note
after_note-Balanced {note} marker t other b = rw other (
    after_close_open 0 (note ++ b']' ∷ t)
    ∙ after_close-Balanced 0 (b']' ∷ t) b
    ∙ unfold after_close in refl)

-- A note that opens with a marker other than that of a compaction, and whose brackets are
-- balanced, is cut off whole: what is left is what is left of the text behind it.
strip_system_injected_prefix-note :
    {note : Bytes} (marker t : Bytes)
    → leading_marker (b'[' ∷ (note ++ b']' ∷ t)) ≡ some marker
    → equal marker compaction ≡ false
    → Balanced note
    → strip_system_injected_prefix (b'[' ∷ (note ++ b']' ∷ t)) ≡ strip_system_injected_prefix t
unfolding strip_system_injected_prefix strip_notes drop_while is_blank
strip_system_injected_prefix-note {note} marker t found other b =
    rw (add-one (length (b'[' ∷ (note ++ b']' ∷ t)))) (
      rw (found, strip_notes)
        (rw (after_note-Balanced marker t other b, strip_notes)
          (strip_notes-fuel (length (b'[' ∷ (note ++ b']' ∷ t))) (length (ltrim_view t) + 1)
            (ltrim_view t)
            (omega (arith, length-append note (b']' ∷ t), length-drop_while is_blank t))
            (omega arith))))
