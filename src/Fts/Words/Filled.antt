-- ===== src/Fts/Words/Filled.antt =====
-- What no word of `normalize_words` is.
use ragger_cpp.Prelude.{
  All, All-append, Bool, Bool-cases, Bytes, List, Option, Option-cases, [], arith, codes, equal,
  false, if◌then◌else◌, inl, inr, is_digit, leb, length, none, not, null, refl, some, subst, true,
  ◌&&◌, ◌||◌, ◌∷◌, ◌≡◌, ◌≢◌,
}
use ragger_cpp.Fts.Words.Tables.{small_number_words, math_symbols, contractions}
use ragger_cpp.Fts.Words.{
  flush, drop_empty, lookup_word, is_small_number, is_minus, is_plus, small_number_next, operators,
  split_spaces, first_of_two, expand_word, expand, normalize_words,
}

-- Not empty, no bare minus, no small number in digits.
pub record IsTerm (w : Bytes) : Type 0 where
  pub filled : null w ≡ false
  pub no_minus : is_minus w ≡ false
  pub no_number : is_small_number w ≡ false

-- What holds of every value of a table holds of what is found in it.
lookup_word-All :
    (P : Bytes → Type 0) (w v : Bytes) (table : List (Bytes × Bytes))
    → All (λ e. P e.1) table
    → lookup_word w table ≡ some v
    → P v
unfolding lookup_word
lookup_word-All P w v [] h e = cc
lookup_word-All P w v ((k, u) ∷ table) (h, hs) e = elim (Bool-cases (equal w k)) [
  | inl y ↦ subst P (ground arith) h
  | inr n ↦ lookup_word-All P w v table hs (ground arith)
]

-- Words in front of which `operators` leaves nothing to do.
abbrev IsKept : Bytes → Type 0
IsKept w = (null w ≡ false) × (is_minus w ≡ false)

drop_empty-All : (ws : List Bytes) → All (λ w. null w ≡ false) (drop_empty ws)
unfolding drop_empty
drop_empty-All [] = tt
drop_empty-All (w ∷ ws) = elim (Bool-cases (null w)) [
  | inl e ↦ rw e (drop_empty-All ws)
  | inr e ↦ rw e (e, drop_empty-All ws)
]

named-IsKept : (b : Bool) → IsKept (if b then codes "minus" else codes "plus")
unfolding is_minus equal
named-IsKept true = (refl, refl)
named-IsKept false = (refl, refl)

operators-All : (ws : List Bytes) → All (λ w. null w ≡ false) ws → All IsKept (operators ws)
unfolding operators
operators-All [] h = tt
operators-All (w ∷ ws) (h, hs) =
    elim (Bool-cases ((is_minus w || is_plus w) && small_number_next ws)) [
      | inl e ↦ rw e (named-IsKept (is_minus w), operators-All ws hs)
      | inr e ↦ rw e (elim (Bool-cases (is_minus w)) [
        | inl m ↦ rw m (operators-All ws hs)
        | inr m ↦ rw m ((h, m), operators-All ws hs)
      ])
    ]

is_term : Bytes → Bool
is_term w = not (null w) && (not (is_minus w) && not (is_small_number w))

is_term-IsTerm : (w : Bytes) → is_term w ≡ true → IsTerm w
unfolding is_term
is_term-IsTerm w h = record {
  filled = ground arith;
  no_minus = ground arith;
  no_number = ground arith;
}

abbrev all_terms : List Bytes → Bool
all_terms [] = true
all_terms (w ∷ ws) = is_term w && all_terms ws

all_terms-All : (ws : List Bytes) → all_terms ws ≡ true → All IsTerm ws
all_terms-All [] h = tt
all_terms-All (w ∷ ws) h = (is_term-IsTerm w (ground arith), all_terms-All ws (ground arith))

-- All the words of all the values of a table.
abbrev table_terms : (Bytes → List Bytes) → List (Bytes × Bytes) → Bool
table_terms f [] = true
table_terms f ((k, v) ∷ table) = all_terms (f v) && table_terms f table

table_terms-All :
    (f : Bytes → List Bytes) (table : List (Bytes × Bytes))
    → table_terms f table ≡ true
    → All (λ e. All IsTerm (f e.1)) table
table_terms-All f [] h = tt
table_terms-All f ((k, v) ∷ table) h =
    (all_terms-All (f v) (ground arith), table_terms-All f table (ground arith))

abbrev one : Bytes → List Bytes
one v = v ∷ []

numbers-All : All (λ e. All IsTerm (one e.1)) small_number_words
unfolding is_term is_minus is_small_number equal is_digit
numbers-All = table_terms-All one small_number_words refl

symbols-All : All (λ e. All IsTerm (split_spaces [] e.1)) math_symbols
unfolding is_term is_minus is_small_number equal is_digit split_spaces flush
symbols-All = table_terms-All (split_spaces []) math_symbols refl

contractions-All : All (λ e. All IsTerm (one e.1)) contractions
unfolding is_term is_minus is_small_number equal is_digit
contractions-All = table_terms-All one contractions refl

found-All :
    (w : Bytes) (table : List (Bytes × Bytes)) (found : Option Bytes)
    → lookup_word w table ≡ found
    → All (λ e. All IsTerm (one e.1)) table
    → (found ≡ none → IsTerm w)
    → IsTerm (first_of_two found w)
found-All w table none e h k = k refl
found-All w table (some v) e h k = (lookup_word-All (λ u. All IsTerm (one u)) w v table h e).0

small_number-found :
    (w : Bytes) → is_small_number w ≡ true → lookup_word w small_number_words ≢ none
unfolding is_small_number
small_number-found w h e = ground (arith, e)

is_small_number-le : (w : Bytes) → is_small_number w ≡ true → leb (length w) 2 ≡ true
unfolding is_small_number
is_small_number-le w h = ground arith

expand_word-All : (w : Bytes) → IsKept w → All IsTerm (expand_word w)
unfolding expand_word
expand_word-All w (h, m) = elim (Bool-cases (leb (length w) 2 && is_small_number w)) [
  | inl e ↦ rw e (
    found-All w small_number_words (lookup_word w small_number_words) refl numbers-All
        (λ n. absurd (small_number-found w (ground arith) n)),
    tt,
  )
  | inr e ↦ rw e (elim (Option-cases (lookup_word w math_symbols)) [
    | inr (v, f) ↦
        rw (f, expand_word)
          (lookup_word-All (λ u. All IsTerm (split_spaces [] u)) w v math_symbols symbols-All f)
    | inl f ↦
        rw (f, expand_word)
          (
            found-All w contractions (lookup_word w contractions) refl contractions-All (λ n.
                record {
                  filled = h;
                  no_minus = m;
                  no_number = ground (arith, is_small_number-le w);
                }),
            tt,
          )
  ])
]

expand-All : (ws : List Bytes) → All IsKept ws → All IsTerm (expand ws)
unfolding expand
expand-All [] h = tt
expand-All (w ∷ ws) (h, hs) =
    All-append IsTerm (expand_word w) (expand ws) (expand_word-All w h) (expand-All ws hs)

-- No word of a normalized sentence is empty, a bare minus, or a number up to twelve in digits.
normalize_words-All : (sentence : Bytes) → All IsTerm (normalize_words sentence)
unfolding normalize_words
normalize_words-All sentence = expand-All _ (operators-All _ (drop_empty-All _))
