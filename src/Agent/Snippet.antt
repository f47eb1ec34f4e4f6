-- ===== src/Agent/Snippet.antt =====
-- `agent_snippet` of src/sqlite/agent_common.cpp. Walking back to a lead byte is the same loop as in
-- include/util/utf8.h.
pub mod Laws
use ragger_cpp.Prelude.{
  Bytes, Option, [], if◌then◌else◌, is_blank, leb, length, none, some, suc, take, zero, ℕ, ◌++◌,
  ◌∷◌,
}
use ragger_cpp.Util.Utf8.{byte_at, walk_back}

abbrev pub snippet_max : ℕ
snippet_max = 240

-- `text.find_last_of(" \t\n\r", i)`
pub find_last_blank : Bytes → ℕ → Option ℕ
find_last_blank s zero = if is_blank (byte_at s zero) then some zero else none
find_last_blank s (suc i) =
    let rest = find_last_blank s i in if is_blank (byte_at s (suc i)) then some (suc i) else rest

-- The number of bytes kept, given the last blank: it serves if it is not the first byte.
pub snippet_cut : Bytes → Option ℕ → ℕ
snippet_cut s none = walk_back s snippet_max
snippet_cut s (some zero) = walk_back s snippet_max
snippet_cut s (some (suc i)) = suc i

-- `…` in UTF-8.
abbrev pub ellipsis : Bytes
ellipsis = 0xE2 ∷ 0x80 ∷ 0xA6 ∷ []

unfoldable pub agent_snippet : Bytes → Bytes
agent_snippet text =
    if leb (length text) snippet_max
    then text
    else take (snippet_cut text (find_last_blank text snippet_max)) text ++ ellipsis
