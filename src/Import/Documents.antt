-- ===== src/Import/Documents.antt =====
-- `clean_document_text` of src/import.cpp.
pub mod Lines
use ragger_cpp.Import.Chunks.{get_lines}
use ragger_cpp.Prelude.{
  Bool, Bytes, List, [], drop_end_while, drop_while, false, if◌then◌else◌, is_space, leb, map, suc,
  true, zero, ℕ, ◌++◌, ◌==◌, ◌||◌, ◌∷◌,
}

-- `s.c_str()`: what is in front of the first zero byte.
pub c_string : Bytes → Bytes
c_string [] = []
c_string (c ∷ s) = if c == 0 then [] else c ∷ c_string s

-- A run of whitespace becomes a space; the flag says that one is being read.
pub squeeze : Bool → Bytes → Bytes
squeeze inside [] = []
squeeze inside (c ∷ s) =
    let more = squeeze true s in
    let next = squeeze false s in
    if is_space c then if inside then more else b' ' ∷ more else c ∷ next

pub normalize_whitespace : Bytes → Bytes
unfolding squeeze c_string
normalize_whitespace s = squeeze false (c_string s)

pub dashes : ℕ → Bytes → Bytes
dashes zero rest = rest
dashes (suc n) rest = b'-' ∷ dashes n rest

-- A run of so many dashes: five or more become three.
pub emit_run : ℕ → Bytes → Bytes
unfolding dashes
emit_run n rest = if leb 5 n then dashes 3 rest else dashes n rest

-- `n` dashes are being read.
pub cap_from : ℕ → Bytes → Bytes
unfolding emit_run
cap_from n [] = emit_run n []
cap_from n (c ∷ s) =
    let more = cap_from (suc n) s in
    let next = cap_from 0 s in if c == b'-' then more else emit_run n (c ∷ next)

pub cap_dashes : Bytes → Bytes
unfolding cap_from c_string
cap_dashes s = cap_from 0 (c_string s)

abbrev pub is_mark : ℕ → Bool
is_mark c = c == b' ' || c == b'#'

abbrev pub is_blank_space : ℕ → Bool
is_blank_space c = c == b' '

pub clean_line : Bytes → Bytes
unfolding normalize_whitespace cap_dashes
clean_line line =
    drop_end_while is_blank_space (drop_while is_mark (cap_dashes (normalize_whitespace line)))

pub join_lines : List Bytes → Bytes
join_lines [] = []
join_lines (l ∷ []) = l
join_lines (l ∷ m ∷ rest) = l ++ b'\n' ∷ join_lines (m ∷ rest)

unfoldable pub clean_document_text : Bytes → Bytes
unfolding clean_line join_lines get_lines
clean_document_text text = join_lines (map clean_line (get_lines text))
