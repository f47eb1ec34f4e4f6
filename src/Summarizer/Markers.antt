-- ===== src/Summarizer/Markers.antt =====
-- The notes that Hermes puts in front of a user turn: `is_system_injected_turn` and
-- `strip_system_injected_prefix` of src/summarizer.cpp.
pub mod Laws
pub mod Stacked
use ragger_cpp.Prelude.{
  Bool, Bytes, List, Option, [], codes, drop, drop_while, equal, false, find, find_from,
  if◌then◌else◌, is_blank, length, none, some, starts_with, suc, zero, ℕ, ◌+◌, ◌-◌, ◌==◌, ◌||◌, ◌∷◌,
}

abbrev pub compaction : Bytes
compaction = codes "[CONTEXT COMPACTION"

abbrev pub system_markers : List Bytes
system_markers =
    codes "[System note:"
    ∷ codes "[Note: model was just switched"
    ∷ compaction
    ∷ codes "[IMPORTANT: Background process"
    ∷ []

abbrev pub compaction_end : Bytes
compaction_end = codes "END OF CONTEXT SUMMARY"

abbrev pub ltrim_view : Bytes → Bytes
ltrim_view = drop_while is_blank

-- The first of the markers that `body` starts with.
unfoldable pub find_marker : List Bytes → Bytes → Option Bytes
find_marker [] body = none
find_marker (m ∷ ms) body = if starts_with m body then some m else find_marker ms body

abbrev pub leading_marker : Bytes → Option Bytes
leading_marker = find_marker system_markers

pub any_marker : List Bytes → Bytes → Bool
any_marker [] body = false
any_marker (m ∷ ms) body = starts_with m body || any_marker ms body

unfoldable pub is_system_injected_turn : Bytes → Bool
unfolding any_marker
is_system_injected_turn user_text = any_marker system_markers (ltrim_view user_text)

-- What follows the `]` that closes the first `[`. The text starts with a marker, hence with `[`, so
-- the depth is never 0 at a `]`.
pub after_close : ℕ → Bytes → Option Bytes
after_close depth [] = none
after_close depth (c ∷ s) =
    let deeper = after_close (depth + 1) s in
    let up = after_close (depth - 1) s in
    let same = after_close depth s in
    if c == b'[' then deeper else if c == b']' then if depth == 1 then some s else up else same

-- What follows the line on which the summary ends.
pub after_compaction : Bytes → Option Bytes
after_compaction body = elim (find compaction_end body) [
  | none ↦ none
  | some e ↦ elim (find_from (codes "\n") body e) [
    | none ↦ some []
    | some eol ↦ some (drop (eol + 1) body)
  ]
]

-- What follows the note that `marker` begins; `none` where the note does not end.
pub after_note : Bytes → Bytes → Option Bytes
unfolding after_compaction after_close
after_note marker body =
    if equal marker compaction then after_compaction body else after_close 0 body

-- The `for (;;)` loop, on fuel.
pub strip_notes : ℕ → Bytes → Bytes
strip_notes zero body = body
strip_notes (suc fuel) body = elim (leading_marker body) [
  | none ↦ body
  | some marker ↦ elim (after_note marker body) [
    | none ↦ []
    | some rest ↦ strip_notes fuel (ltrim_view rest)
  ]
]

unfoldable pub strip_system_injected_prefix : Bytes → Bytes
strip_system_injected_prefix user_text =
    let body = ltrim_view user_text in strip_notes (length body + 1) body
