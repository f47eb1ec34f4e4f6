-- ===== src/Summarizer/Thinking.antt =====
-- `strip_thinking` of src/summarizer.cpp: the reasoning that a model writes before its answer.
pub mod Laws
use ragger_cpp.Prelude.{
  Bytes, Option, codes, drop, drop_while, find, find_first_not, find_from, if◌then◌else◌, is_blank,
  length, ltb, none, rfind, some, starts_with, suc, take, zero, ℕ, ◌++◌, ◌+◌,
}

abbrev pub open_tag : Bytes
open_tag = codes "<think>"

abbrev pub close_tag : Bytes
close_tag = codes "</think>"

abbrev pub preamble : Bytes
preamble = codes "Thinking Process:"

-- `out.erase(opening)`, or `out.erase(opening, close - opening + 8)`.
pub erase_block : Bytes → ℕ → Option ℕ → Bytes
erase_block s opening none = take opening s
erase_block s opening (some close) = take opening s ++ drop (close + 8) s

-- One round of the loop: `none` where no tag is left.
pub strip_block : Bytes → Option Bytes
unfolding erase_block
strip_block s = elim (find open_tag s) [
  | none ↦ none
  | some opening ↦ some (erase_block s opening (find_from close_tag s opening))
]

-- The `while (true)` loop, on fuel.
unfoldable pub strip_blocks : ℕ → Bytes → Bytes
unfolding strip_block
strip_blocks zero s = s
strip_blocks (suc fuel) s = elim (strip_block s) [ none ↦ s | some rest ↦ strip_blocks fuel rest ]

-- `out.erase(0, blank + 2)`, if the last blank line stands behind the start.
pub after_blank : Bytes → ℕ → Option ℕ → Bytes
after_blank s start none = s
after_blank s start (some blank) = if ltb start blank then drop (blank + 2) s else s

unfoldable pub strip_preamble : Bytes → Bytes
unfolding after_blank
strip_preamble s = elim (find_first_not is_blank s) [
  | none ↦ s
  | some start ↦
      if starts_with preamble (drop start s)
      then after_blank s start (rfind (codes "\n\n") s)
      else s
]

-- The left-trim at the end clears a text of blanks.
unfoldable pub strip_thinking : Bytes → Bytes
strip_thinking s = drop_while is_blank (strip_preamble (strip_blocks (length s + 1) s))
