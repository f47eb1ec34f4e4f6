-- ===== src/TextIndex.antt =====
-- `TextIndex::index_record` of src/text_index.cpp. A map is the list of its entries; which order
-- `std::unordered_map` gives them in does not matter, since only sums are taken.
pub mod Counts
use ragger_cpp.Fts.Sentences.{split_sentences}
use ragger_cpp.Fts.Tokens.{Engine, Token, unigrams, bigrams}
use ragger_cpp.Fts.Words.{normalize_words}
use ragger_cpp.Prelude.{
  Bool, Bytes, List, [], equal, false, if◌then◌else◌, ltb, not, null, ℕ, ◌&&◌, ◌+◌, ◌==◌, ◌||◌, ◌∷◌,
}

abbrev pub Counts : Type 0
Counts = List (Bytes × ℕ)

-- `counts_by_term[term]++`
pub count_term : Bytes → Counts → Counts
count_term w [] = (w, 1) ∷ []
count_term w ((v, n) ∷ m) = if equal v w then (v, n + 1) ∷ m else (v, n) ∷ count_term w m

-- The running counts of `index_record`.
pub record Tally : Type 0 where
  pub counts_by_term : Counts
  pub unigram_count : ℕ
  pub bigram_count : ℕ

pub count_filled : Bytes → Counts → Counts
unfolding count_term
count_filled w m = if null w then m else count_term w m

-- One more, if the literal is not empty.
pub add_filled : Bytes → ℕ → ℕ
add_filled w n = if null w then n else n + 1

pub tally_unigrams : List Token → Tally → Tally
tally_unigrams [] a = a
tally_unigrams (t ∷ ts) a = tally_unigrams ts (record a {
  counts_by_term = count_filled t.phonetic (count_filled t.literal a.counts_by_term);
  unigram_count = add_filled t.literal a.unigram_count;
})

-- `metaphone.find('_') != npos`
pub has_underscore : Bytes → Bool
has_underscore [] = false
has_underscore (c ∷ s) = c == b'_' || has_underscore s

pub count_code : Bytes → Counts → Counts
unfolding count_term has_underscore
count_code w m = if not (null w) && has_underscore w then count_term w m else m

pub tally_bigrams : List Token → Tally → Tally
tally_bigrams [] a = a
tally_bigrams (t ∷ ts) a = tally_bigrams ts (record a {
  counts_by_term = count_code t.phonetic (count_filled t.literal a.counts_by_term);
  bigram_count = add_filled t.literal a.bigram_count;
})

-- The stop words of include/lang/en.h, which are tables.
pub record StopWords : Type 0 where
  pub unigram : List Bytes
  pub bigram : List Bytes

pub tally_sentences : Engine → StopWords → List Bytes → Tally → Tally
tally_sentences e stops [] a = a
tally_sentences e stops (s ∷ sentences) a =
    let words = normalize_words s in
    tally_sentences e stops sentences (
      tally_bigrams (bigrams e stops.bigram words)
        (tally_unigrams (unigrams e stops.unigram words) a))

-- `counts_by_id[tid] += c`
pub add_count : ℕ → ℕ → List (ℕ × ℕ) → List (ℕ × ℕ)
add_count id c [] = (id, c) ∷ []
add_count id c ((k, n) ∷ m) = if k == id then (k, n + c) ∷ m else (k, n) ∷ add_count id c m

-- `upsert_term` gives the id of a term, and 0 where the term cannot be stored.
pub fold_ids : (Bytes → ℕ) → Counts → List (ℕ × ℕ) → List (ℕ × ℕ)
fold_ids upsert [] m = m
fold_ids upsert ((w, c) ∷ counts) m =
    let id = upsert w in fold_ids upsert counts (if ltb 0 id then add_count id c m else m)

-- What the hooks `replace_record_terms` and `set_counts` are called with.
pub record IndexEntry : Type 0 where
  pub counts_by_id : List (ℕ × ℕ)
  pub unigram_total : ℕ
  pub bigram_total : ℕ

abbrev pub empty_tally : Tally
empty_tally = record { counts_by_term = []; unigram_count = 0; bigram_count = 0 }

unfoldable pub index_record : Engine → StopWords → (Bytes → ℕ) → Bytes → IndexEntry
index_record e stops upsert text =
    let a = tally_sentences e stops (split_sentences text) empty_tally in
    record {
      counts_by_id = fold_ids upsert a.counts_by_term [];
      unigram_total = a.unigram_count;
      bigram_total = a.bigram_count;
    }
