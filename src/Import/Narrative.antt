-- ===== src/Import/Narrative.antt =====
-- `split_memory_narrative` of src/import.cpp: a memory file under **bold** and *italic* headings.
use ragger_cpp.Import.Chunks.{get_lines, guillemet}
use ragger_cpp.Prelude.{
  Bool, Bytes, List, Option, [], drop, drop_end_while, drop_while, equal, false, find_from,
  if◌then◌else◌, is_space, leb, length, ltb, none, null, some, starts_with, take, ℕ, ◌&&◌, ◌*◌,
  ◌++◌, ◌-◌, ◌==◌, ◌∷◌,
}

pub trim_ws : Bytes → Bytes
trim_ws s = drop_end_while is_space (drop_while is_space s)

-- `line.substr(line.size() - n) == p`, for an `n` within the line.
abbrev pub ends_as : Bytes → ℕ → Bytes → Bool
ends_as line n p = equal (drop (length line - n) line) p

abbrev pub finds_at : Option ℕ → ℕ → Bool
finds_at none k = false
finds_at (some j) k = j == k

abbrev pub star : Bytes
star = b'*' ∷ []

abbrev pub two_stars : Bytes
two_stars = b'*' ∷ b'*' ∷ []

-- 2 for a line in **, 1 for a line in *, 0 for any other.
pub bare_emphasis_marker_len : Bytes → ℕ
bare_emphasis_marker_len line =
    if leb 4 (length line)
      && equal (take 2 line) two_stars
      && ends_as line 2 two_stars
      && finds_at (find_from two_stars line 2) (length line - 2)
    then 2
    else if leb 2 (length line)
        && starts_with star line
        && ends_as line 1 star
        && finds_at (find_from star line 1) (length line - 1)
    then 1
    else 0

pub strip_emphasis : Bytes → ℕ → Bytes
strip_emphasis line marker_len =
    if ltb (length line) (2 * marker_len)
    then line
    else take (length line - 2 * marker_len) (drop marker_len line)

pub record MemoryChunk : Type 0 where
  pub text : Bytes
  pub heading_path : Bytes

-- The headings in force and the paragraph so far.
pub record Narrative : Type 0 where
  pub bold_heading : Bytes
  pub italic_heading : Bytes
  pub current : Bytes

pub breadcrumb : Narrative → Bytes
breadcrumb st =
    if null st.bold_heading
    then st.italic_heading
    else if null st.italic_heading
    then st.bold_heading
    else st.bold_heading ++ guillemet ++ st.italic_heading

-- `flush`, in front of the chunks that follow.
pub flush_chunk : Narrative → List MemoryChunk → List MemoryChunk
unfolding trim_ws breadcrumb
flush_chunk st rest =
    let t = trim_ws st.current in
    if null t then rest else record { text = t; heading_path = breadcrumb st } ∷ rest

pub under_heading : Narrative → ℕ → Bytes → Narrative
unfolding strip_emphasis trim_ws
under_heading st mlen t =
    let heading = trim_ws (strip_emphasis t mlen) in
    if mlen == 2
    then record { bold_heading = heading; italic_heading = []; current = [] }
    else record st { italic_heading = heading; current = [] }

-- `if (!current.empty()) current += " "; current += t;`
pub add_words : Bytes → Bytes → Bytes
add_words [] t = t
add_words (c ∷ current) t = c ∷ (current ++ b' ' ∷ t)

pub split_lines : Narrative → List Bytes → List MemoryChunk
unfolding flush_chunk under_heading add_words trim_ws bare_emphasis_marker_len
split_lines st [] = flush_chunk st []
split_lines st (line ∷ rest) =
    let t = trim_ws line in
    let mlen = bare_emphasis_marker_len t in
    let ended = split_lines (record st { current = [] }) rest in
    let below = split_lines (under_heading st mlen t) rest in
    let longer = split_lines (record st { current = add_words st.current t }) rest in
    if null t then flush_chunk st ended else if ltb 0 mlen then flush_chunk st below else longer

unfoldable pub split_memory_narrative : Bytes → List MemoryChunk
unfolding split_lines get_lines
split_memory_narrative text =
    split_lines (record { bold_heading = []; italic_heading = []; current = [] }) (get_lines text)
