-- ===== src/Fts/Words.antt =====
-- `normalize_words` of src/fts_tokenize.cpp, with the tables of include/lang/en.h.
pub mod Tables
pub mod Filled
use Tables.{
  plus_minus, not_equal, almost_equal, minus_sign, apostrophe, small_number_words, math_symbols,
  contractions,
}
use ragger_cpp.Prelude.{
  Bool, Bytes, List, Option, [], codes, drop, equal, false, if◌then◌else◌, is_alnum, is_alpha,
  is_digit, leb, length, ltb, map, none, not, null, some, suc, take, to_lower, true, zero, ℕ, ◌&&◌,
  ◌++◌, ◌-◌, ◌==◌, ◌||◌, ◌∷◌,
}

-- What the lexer does at a byte: it joins the word, it is an operator that takes `skip` more bytes
-- along, or it ends the word.
pub data Lexeme : Type 0 where
  joins : Lexeme
  operator : Bytes → ℕ → Lexeme
  ends : Lexeme

-- The operators that start with `E2 89`, by their third byte.
pub third_byte : ℕ → Lexeme
third_byte b =
    if b == 0xA0
    then operator not_equal 2
    else if b == 0x88
    then operator almost_equal 2
    else if b == 0x92
    then operator minus_sign 2
    else ends

-- `std::isalpha(lower_sent[i + 1])`, where there is such a byte.
pub next_alpha : Bytes → Bool
next_alpha [] = false
next_alpha (d ∷ s) = is_alpha d

-- At an `E2`: is it followed by `89` and one more byte?
pub after_e2 : Bytes → Lexeme
unfolding third_byte
after_e2 (b ∷ d ∷ s) = if b == 0x89 then third_byte d else ends
after_e2 _ = ends

pub after_c2 : Bytes → Lexeme
after_c2 [] = ends
after_c2 (b ∷ s) = if b == 0xB1 then operator plus_minus 1 else ends

-- The ladder of tests at byte `c`; `first` is `i == 0`, and `rest` is what follows.
pub classify : Bool → ℕ → Bytes → Lexeme
unfolding after_c2 after_e2 next_alpha
classify first c rest =
    if is_alnum c
    then joins
    else if c == b'+' || c == b'=' || c == b'-'
    then operator (c ∷ []) 0
    else if c == 0xC2
    then after_c2 rest
    else if c == 0xE2
    then after_e2 rest
    else if c == apostrophe && (not first && next_alpha rest)
    then joins
    else ends

-- `if (!current_word.empty()) result.push_back(current_word)`
pub flush : Bytes → List Bytes → List Bytes
flush word rest = if null word then rest else word ∷ rest

-- The loop: bytes to skip, `i == 0`, the word read so far, and the rest of the lower-case text.
pub scan : ℕ → Bool → Bytes → Bytes → List Bytes
scan skip first word [] = flush word []
scan (suc skip) first word (c ∷ s) = scan skip false word s
scan zero first word (c ∷ s) = elim (classify first c s) [
  | joins ↦ scan zero false (word ++ c ∷ []) s
  | operator symbol skip ↦ flush word (symbol ∷ scan skip false [] s)
  | ends ↦ flush word (scan zero false [] s)
]

-- `w.erase(w.size() - 2)`, if `w` is longer than 2 and ends in `'s`.
pub strip_possessive : Bytes → Bytes
strip_possessive w =
    let stem_size = length w - 2 in
    if ltb 2 (length w) && equal (drop stem_size w) (apostrophe ∷ b's' ∷ [])
    then take stem_size w
    else w

-- `std::remove_if(…, empty)`
pub drop_empty : List Bytes → List Bytes
drop_empty [] = []
drop_empty (w ∷ ws) = if null w then drop_empty ws else w ∷ drop_empty ws

unfoldable pub all_digits : Bytes → Bool
all_digits [] = true
all_digits (c ∷ s) = is_digit c && all_digits s

-- The value of a word in a table, by the first entry that matches.
pub lookup_word : Bytes → List (Bytes × Bytes) → Option Bytes
lookup_word w [] = none
lookup_word w ((k, v) ∷ table) = if equal w k then some v else lookup_word w table

abbrev pub is_some : Option Bytes → Bool
is_some none = false
is_some (some v) = true

pub is_small_number : Bytes → Bool
unfolding all_digits lookup_word
is_small_number s =
    if null s || ltb 2 (length s)
    then false
    else all_digits s && is_some (lookup_word s small_number_words)

pub is_minus : Bytes → Bool
is_minus w = equal w (codes "-") || equal w minus_sign

pub is_plus : Bytes → Bool
is_plus w = equal w (codes "+") || equal w plus_minus

pub small_number_next : List Bytes → Bool
small_number_next [] = false
small_number_next (w ∷ ws) = is_small_number w

-- The second pass: an operator in front of a small number becomes a word, any other minus is dropped.
pub operators : List Bytes → List Bytes
unfolding is_minus is_plus small_number_next is_small_number
operators [] = []
operators (w ∷ ws) =
    let rest = operators ws in
    if (is_minus w || is_plus w) && small_number_next ws
    then (if is_minus w then codes "minus" else codes "plus") ∷ rest
    else if is_minus w
    then rest
    else w ∷ rest

-- `iss >> part`, for text whose only blanks are spaces.
pub split_spaces : Bytes → Bytes → List Bytes
split_spaces word [] = flush word []
split_spaces word (c ∷ s) =
    let closed = flush word (split_spaces [] s) in
    let more = split_spaces (word ++ c ∷ []) s in if c == b' ' then closed else more

abbrev pub first_of_two {ℓ} : {A : Type ℓ} → Option A → A → A
first_of_two none d = d
first_of_two (some a) d = a

-- The third pass at one word: small numbers, then symbols, then contractions.
pub expand_word : Bytes → List Bytes
unfolding is_small_number lookup_word split_spaces flush
expand_word w =
    if leb (length w) 2 && is_small_number w
    then first_of_two (lookup_word w small_number_words) w ∷ []
    else elim (lookup_word w math_symbols) [
      | some words ↦ split_spaces [] words
      | none ↦ first_of_two (lookup_word w contractions) w ∷ []
    ]

pub expand : List Bytes → List Bytes
expand [] = []
expand (w ∷ ws) = expand_word w ++ expand ws

unfoldable pub normalize_words : Bytes → List Bytes
normalize_words sentence =
    expand (operators (drop_empty (map strip_possessive (scan 0 true [] (map to_lower sentence)))))
