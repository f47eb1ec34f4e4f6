-- ===== src/Fts/Tokens.antt =====
-- `unigrams`, `bigrams` and their filters in src/fts_tokenize.cpp.
use ragger_cpp.Fts.Words.{all_digits}
use ragger_cpp.Prelude.{
  Bool, Bytes, List, Option, [], codes, drop, equal, false, get_or, if◌then◌else◌, is_digit, leb,
  length, ltb, none, null, some, to_lower, true, within, ℕ, ◌&&◌, ◌++◌, ◌==◌, ◌||◌, ◌∷◌,
}

-- The stemmer and the phonetic coder of c_lib, which the repository only calls.
pub record Engine : Type 0 where
  pub stem : Bytes → Bytes
  pub double_metaphone : Bytes → List Bytes

pub record Token : Type 0 where
  pub literal : Bytes
  pub phonetic : Bytes

-- A `StopSet`, as its words.
pub is_stop : List Bytes → Bytes → Bool
is_stop [] w = false
is_stop (s ∷ stops) w = equal s w || is_stop stops w

-- The primary code; an empty one is the same as none.
pub primary : List Bytes → Bytes
primary [] = []
primary (code ∷ codes) = code

unfoldable pub metaphone : Engine → Bytes → Bytes
unfolding primary
metaphone e stem = if null stem then [] else primary (e.double_metaphone stem)

unfoldable pub is_all_digits : Bytes → Bool
unfolding all_digits
is_all_digits s = if null s then false else all_digits s

abbrev pub is_x : ℕ → Bool
is_x c = c == b'x' || c == b'X'

pub hex_digits : Bytes → Bool
hex_digits [] = true
hex_digits (c ∷ s) = (is_digit c || within b'a' b'f' (to_lower c)) && hex_digits s

-- What follows a prefix `0x` or `x`, if there is one and something follows it.
pub hex_body : Bytes → Option Bytes
hex_body s =
    if ltb 2 (length s) && (get_or s 0 0 == b'0' && is_x (get_or s 1 0))
    then some (drop 2 s)
    else if ltb 1 (length s) && is_x (get_or s 0 0)
    then some (drop 1 s)
    else none

unfoldable pub is_hex_token : Bytes → Bool
unfolding hex_body hex_digits
is_hex_token s = elim (hex_body s) [
  | none ↦ false
  | some body ↦ if leb (length body) 4 then false else hex_digits body
]

-- The words that `unigrams` leaves out.
pub is_unwanted : List Bytes → Bytes → Bool
unfolding is_stop is_all_digits is_hex_token
is_unwanted stops w = is_stop stops w || (is_all_digits w || is_hex_token w)

unfoldable pub unigrams : Engine → List Bytes → List Bytes → List Token
unfolding is_unwanted metaphone
unigrams e stops [] = []
unigrams e stops (w ∷ ws) =
    let rest = unigrams e stops ws in
    let stemmed = e.stem w in
    if is_unwanted stops w
    then rest
    else if null stemmed
    then rest
    else record { literal = stemmed; phonetic = metaphone e stemmed } ∷ rest

-- A word that no bigram holds.
unfoldable pub is_barrier : List Bytes → Bytes → Bool
unfolding is_stop is_all_digits
is_barrier stops w = is_stop stops w || is_all_digits w

abbrev pub underscore : Bytes → Bytes → Bytes
underscore a b = a ++ b'_' ∷ b

pub join_codes : Bytes → Bytes → Bytes
join_codes a b = if null a || null b then [] else underscore a b

-- The bigram of two words that stand side by side, in front of the others.
pub pair_token : Engine → List Bytes → Bytes → Bytes → List Token
unfolding is_barrier join_codes metaphone
pair_token e stops a b =
    let stem_a = e.stem a in
    let stem_b = e.stem b in
    if is_barrier stops a || is_barrier stops b
    then []
    else if null stem_a || null stem_b
    then []
    else record {
      literal = underscore stem_a stem_b;
      phonetic = join_codes (metaphone e stem_a) (metaphone e stem_b);
    }
      ∷ []

unfoldable pub bigrams : Engine → List Bytes → List Bytes → List Token
unfolding pair_token
bigrams e stops [] = []
bigrams e stops (a ∷ []) = []
bigrams e stops (a ∷ b ∷ ws) = pair_token e stops a b ++ bigrams e stops (b ∷ ws)
