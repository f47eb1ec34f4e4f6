-- ===== src/Import/Chunks.antt =====
-- The chunking of a document in src/import.cpp, from the text on that `chunk_markdown` has cleaned.
pub mod Nesting
pub mod Bodies
use ragger_cpp.Prelude.{
  Bool, Bytes, List, [], drop, drop_end_while, equal, false, find, get_or, if◌then◌else◌, leb,
  length, ltb, none, not, null, some, suc, true, zero, ℕ, ◌&&◌, ◌++◌, ◌+◌, ◌==◌, ◌||◌, ◌∷◌,
}

-- The `#`s at the start of a line, `n` of them at most.
pub count_hashes : ℕ → Bytes → ℕ
count_hashes zero s = 0
count_hashes (suc n) [] = 0
count_hashes (suc n) (c ∷ s) = if c == b'#' then suc (count_hashes n s) else 0

-- A level of 0 is no heading.
unfoldable pub heading_level : Bytes → ℕ
unfolding count_hashes
heading_level line =
    let level = count_hashes 6 line in
    if ltb 0 level && get_or line level 0 == b' ' then level else 0

unfoldable pub heading_text : Bytes → Bytes
heading_text line = elim (find (b' ' ∷ []) line) [
  | none ↦ line
  | some space ↦ drop (space + 1) line
]

-- `std::getline` until the end: a last line that is empty is none.
abbrev pub push_byte : ℕ → List Bytes → List Bytes
push_byte c [] = (c ∷ []) ∷ []
push_byte c (line ∷ rest) = (c ∷ line) ∷ rest

unfoldable pub get_lines : Bytes → List Bytes
get_lines [] = []
get_lines (c ∷ s) = if c == b'\n' then [] ∷ get_lines s else push_byte c (get_lines s)

-- A line that ends a paragraph.
pub is_empty_line : Bytes → Bool
is_empty_line [] = true
is_empty_line (c ∷ []) = c == b'\r'
is_empty_line (c ∷ d ∷ s) = false

pub trim_paragraph : Bytes → Bytes
trim_paragraph = drop_end_while (λ c. c == b'\n' || c == b'\r' || c == b' ')

pub flush_paragraph : Bytes → List Bytes → List Bytes
unfolding trim_paragraph
flush_paragraph [] rest = rest
flush_paragraph (c ∷ buffer) rest = trim_paragraph (c ∷ buffer) ∷ rest

pub add_line : Bytes → Bytes → Bytes
add_line [] line = line
add_line (c ∷ buffer) line = c ∷ (buffer ++ b'\n' ∷ line)

-- The loop over the lines; the buffer is the paragraph so far.
pub paragraphs_from : Bytes → List Bytes → List Bytes
unfolding flush_paragraph add_line is_empty_line
paragraphs_from buffer [] = flush_paragraph buffer []
paragraphs_from buffer (line ∷ rest) =
    let ended = paragraphs_from [] rest in
    let more = paragraphs_from (add_line buffer line) rest in
    if is_empty_line line then flush_paragraph buffer ended else more

pub record Heading : Type 0 where
  pub level : ℕ
  pub text : Bytes

-- The headings that a paragraph stands under, the innermost first; in the code, last.
abbrev pub Headings : Type 0
Headings = List Heading

pub pop_headings : ℕ → Headings → Headings
pop_headings level [] = []
pop_headings level (h ∷ stack) = if leb level h.level then pop_headings level stack else h ∷ stack

pub enter_heading : ℕ → Bytes → Headings → Headings
unfolding pop_headings heading_text
enter_heading level para stack =
    record { level = level; text = heading_text para } ∷ pop_headings level stack

pub join_under : Bytes → Bytes → Bytes → Bytes
join_under separator [] t = t
join_under separator (c ∷ s) t = c ∷ (s ++ separator ++ t)

-- ` » ` in UTF-8.
abbrev pub guillemet : Bytes
guillemet = 0x20 ∷ 0xC2 ∷ 0xBB ∷ 0x20 ∷ []

abbrev pub blank_line : Bytes
blank_line = b'\n' ∷ b'\n' ∷ []

pub current_section : Headings → Bytes
unfolding join_under
current_section [] = []
current_section (h ∷ stack) = join_under guillemet (current_section stack) h.text

pub hashes : ℕ → Bytes
hashes zero = []
hashes (suc n) = b'#' ∷ hashes n

pub current_heading_block : Headings → Bytes
unfolding join_under hashes
current_heading_block [] = []
current_heading_block (h ∷ stack) =
    join_under blank_line (current_heading_block stack) (hashes h.level ++ b' ' ∷ h.text)

pub record Annotated : Type 0 where
  pub body : Bytes
  pub heading_block : Bytes
  pub section : Bytes

-- The loop over the paragraphs.
pub annotate : Headings → List Bytes → List Annotated
unfolding enter_heading current_section current_heading_block heading_level
annotate stack [] = []
annotate stack (para ∷ rest) =
    let below = annotate (enter_heading (heading_level para) para stack) rest in
    let beside = annotate stack rest in
    if ltb 0 (heading_level para)
    then below
    else record {
      body = para;
      heading_block = current_heading_block stack;
      section = current_section stack;
    }
      ∷ beside

pub record ImportChunk : Type 0 where
  pub text : Bytes
  pub section : Bytes

-- The start of a chunk.
pub opening : Annotated → Bytes
opening a = if null a.heading_block then a.body else a.heading_block ++ blank_line ++ a.body

-- A chunk that goes on with another paragraph, which may stand under other headings.
pub extended : Bytes → Bytes → Annotated → Bytes
extended current current_sec a =
    if not (equal a.section current_sec) && not (null a.heading_block)
    then current ++ blank_line ++ a.heading_block ++ blank_line ++ a.body
    else current ++ blank_line ++ a.body

-- The loop that merges: `current` is empty before the first paragraph. A minimum below 0 acts as 0.
pub merge_from : ℕ → Bytes → Bytes → List Annotated → List ImportChunk
unfolding opening extended
merge_from least current current_sec [] =
    if null current then [] else record { text = current; section = current_sec } ∷ []
merge_from least current current_sec (a ∷ rest) =
    let opened = merge_from least (opening a) a.section rest in
    let longer = merge_from least (extended current current_sec a) a.section rest in
    if null current
    then opened
    else if leb least (length current)
    then record { text = current; section = current_sec } ∷ opened
    else longer

unfoldable pub chunk_paragraphs : ℕ → Bytes → List ImportChunk
unfolding merge_from annotate paragraphs_from get_lines
chunk_paragraphs least text =
    merge_from least [] [] (annotate [] (paragraphs_from [] (get_lines text)))
