-- ===== src/Fts/Words/Tables.antt =====
-- The tables of include/lang/en.h that `normalize_words` reads, and the operators in UTF-8.
use ragger_cpp.Prelude.{Bytes, List, [], codes, ℕ, ◌∷◌}

-- `± ≠ ≈ −` in UTF-8.
abbrev pub plus_minus : Bytes
plus_minus = 0xC2 ∷ 0xB1 ∷ []

abbrev pub not_equal : Bytes
not_equal = 0xE2 ∷ 0x89 ∷ 0xA0 ∷ []

abbrev pub almost_equal : Bytes
almost_equal = 0xE2 ∷ 0x89 ∷ 0x88 ∷ []

abbrev pub minus_sign : Bytes
minus_sign = 0xE2 ∷ 0x88 ∷ 0x92 ∷ []

abbrev pub apostrophe : ℕ
apostrophe = 39

abbrev pub small_number_words : List (Bytes × Bytes)
small_number_words =
    (codes "0", codes "zero")
    ∷ (codes "1", codes "one")
    ∷ (codes "2", codes "two")
    ∷ (codes "3", codes "three")
    ∷ (codes "4", codes "four")
    ∷ (codes "5", codes "five")
    ∷ (codes "6", codes "six")
    ∷ (codes "7", codes "seven")
    ∷ (codes "8", codes "eight")
    ∷ (codes "9", codes "nine")
    ∷ (codes "10", codes "ten")
    ∷ (codes "11", codes "eleven")
    ∷ (codes "12", codes "twelve")
    ∷ []

-- The array has six places; the sixth holds the empty word.
abbrev pub math_symbols : List (Bytes × Bytes)
math_symbols =
    (codes "+", codes "plus")
    ∷ (plus_minus, codes "plus or minus")
    ∷ (codes "=", codes "equals")
    ∷ (not_equal, codes "not equal to")
    ∷ (almost_equal, codes "approximately equal to")
    ∷ ([], [])
    ∷ []

abbrev pub contractions : List (Bytes × Bytes)
contractions =
    (codes "isn't", codes "not")
    ∷ (codes "aren't", codes "not")
    ∷ (codes "wasn't", codes "not")
    ∷ (codes "weren't", codes "not")
    ∷ (codes "don't", codes "not")
    ∷ (codes "doesn't", codes "not")
    ∷ (codes "didn't", codes "not")
    ∷ (codes "can't", codes "not")
    ∷ (codes "couldn't", codes "not")
    ∷ (codes "won't", codes "not")
    ∷ (codes "wouldn't", codes "not")
    ∷ (codes "shouldn't", codes "not")
    ∷ (codes "hasn't", codes "not")
    ∷ (codes "haven't", codes "not")
    ∷ (codes "mustn't", codes "not")
    ∷ []
