-- ===== src/Agent/Handle.antt =====
-- The typed handles of src/sqlite/agent_common.cpp, "<layer>:<rowid>".
pub mod RoundTrip
pub mod Sound
pub mod Legacy
pub mod Decimal
use ragger_cpp.Fts.Words.{all_digits}
use ragger_cpp.Prelude.{
  Bool, Bytes, List, Option, [], codes, drop, equal, false, find, find_from, if◌then◌else◌,
  is_digit, leb, length, ltb, none, not, some, starts_with, take, ℕ, ◌&&◌, ◌*◌, ◌+◌, ◌-◌, ◌==◌,
  ◌||◌, ◌∷◌,
}

-- The layers of `kTextTables` in include/sqlite/tables.h.
abbrev pub known_layers : List Bytes
known_layers =
    codes "turn"
    ∷ codes "knowledge"
    ∷ codes "document"
    ∷ codes "turn_summary"
    ∷ codes "episode"
    ∷ []

unfoldable pub is_one_of : Bytes → List Bytes → Bool
is_one_of s [] = false
is_one_of s (t ∷ ts) = equal s t || is_one_of s ts

unfoldable pub is_known_agent_layer : Bytes → Bool
unfolding is_one_of
is_known_agent_layer layer = is_one_of layer known_layers

-- `std::numeric_limits<int>::max()`
abbrev pub int_max : ℕ
int_max = 2_147_483_647

-- The loop over the digits; `v` is the number read so far.
pub parse_digits : ℕ → Bytes → Option ℕ
parse_digits v [] = some v
parse_digits v (c ∷ s) =
    let v' = v * 10 + (c - b'0') in
    let rest = parse_digits v' s in
    if not (is_digit c) then none else if ltb int_max v' then none else rest

-- The row id: at least one byte, the first of which is not `0`.
unfoldable pub parse_rowid : Bytes → Option ℕ
unfolding parse_digits
parse_rowid [] = none
parse_rowid (c ∷ s) = if c == b'0' then none else parse_digits 0 (c ∷ s)

pub with_rowid : Bytes → Option ℕ → Option (Bytes × ℕ)
with_rowid layer none = none
with_rowid layer (some n) = some (layer, n)

abbrev pub colon : Bytes
colon = b':' ∷ []

-- The part in front of the first colon at `at`, and the row id behind it.
unfoldable pub parse_parts : Bytes → ℕ → Option (Bytes × ℕ)
unfolding is_known_agent_layer parse_rowid with_rowid
parse_parts handle at =
    if is_known_agent_layer (take at handle)
    then with_rowid (take at handle) (parse_rowid (drop (at + 1) handle))
    else none

-- `none` is `false`.
unfoldable pub parse_agent_handle : Bytes → Option (Bytes × ℕ)
parse_agent_handle handle = elim (find colon handle) [
  | none ↦ none
  | some at ↦ elim (find_from colon handle (at + 1)) [
    | none ↦ parse_parts handle at
    | some _ ↦ none
  ]
]

-- Digits, with no leading zero, behind a prefix that has something behind it.
pub strict_suffix : Bytes → Bool
unfolding all_digits
strict_suffix [] = false
strict_suffix (c ∷ s) = if c == b'0' then false else all_digits (c ∷ s)

pub has_prefix : Bytes → Bytes → Bool
has_prefix prefix handle = not (leb (length handle) (length prefix)) && starts_with prefix handle

pub legacy_from : List Bytes → Bytes → Bool
unfolding has_prefix strict_suffix
legacy_from [] handle = false
legacy_from (p ∷ ps) handle =
    let rest = legacy_from ps handle in
    if has_prefix p handle then strict_suffix (drop (length p) handle) else rest

unfoldable pub is_legacy_knowledge_handle : Bytes → Bool
unfolding legacy_from
is_legacy_knowledge_handle = legacy_from (codes "decision:" ∷ codes "insight:" ∷ [])

unfoldable pub is_legacy_summary_handle : Bytes → Bool
unfolding legacy_from
is_legacy_summary_handle = legacy_from (codes "summary:" ∷ [])
