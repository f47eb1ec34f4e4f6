-- ===== src/TextIndex/Counts.antt =====
-- The postings of a record, against the terms that it emits.
use ragger_cpp.Fts.Sentences.{split_sentences}
use ragger_cpp.Fts.Tokens.{Engine, Token, unigrams, bigrams}
use ragger_cpp.Fts.Words.{normalize_words}
use ragger_cpp.Prelude.{
  Bool-cases, Bytes, List, [], arith, equal, equal_iff, if◌then◌else◌, inl, inr, ltb, ℕ, ◌++◌, ◌+◌,
  ◌<◌, ◌==◌, ◌∷◌, ◌≡◌,
}
use ragger_cpp.TextIndex.{
  Counts, count_term, Tally, count_filled, add_filled, tally_unigrams, has_underscore, count_code,
  tally_bigrams, StopWords, tally_sentences, add_count, fold_ids, empty_tally, index_record,
}

-- The terms that a record emits, in order: for each token its literal and its code, if not empty.
abbrev filled : Bytes → List Bytes
filled [] = []
filled (c ∷ s) = (c ∷ s) ∷ []

abbrev paired : Bytes → List Bytes
paired w = if has_underscore w then filled w else []

abbrev unigram_terms : List Token → List Bytes
unigram_terms [] = []
unigram_terms (t ∷ ts) = filled t.literal ++ (filled t.phonetic ++ unigram_terms ts)

abbrev bigram_terms : List Token → List Bytes
bigram_terms [] = []
bigram_terms (t ∷ ts) = filled t.literal ++ (paired t.phonetic ++ bigram_terms ts)

abbrev pub sentence_terms : Engine → StopWords → List Bytes → List Bytes
sentence_terms e stops [] = []
sentence_terms e stops (s ∷ sentences) =
    unigram_terms (unigrams e stops.unigram (normalize_words s))
    ++ (bigram_terms (bigrams e stops.bigram (normalize_words s))
        ++ sentence_terms e stops sentences)

-- How many of the terms have the id.
abbrev pub count_with_id : (Bytes → ℕ) → ℕ → List Bytes → ℕ
count_with_id upsert id [] = 0
count_with_id upsert id (w ∷ ws) = (if upsert w == id then 1 else 0) + count_with_id upsert id ws

abbrev pub count_of : ℕ → List (ℕ × ℕ) → ℕ
count_of id [] = 0
count_of id ((k, n) ∷ m) = if k == id then n else count_of id m

-- The counts of the terms with the id, over a map by terms.
abbrev weight : (Bytes → ℕ) → ℕ → Counts → ℕ
weight upsert id [] = 0
weight upsert id ((w, n) ∷ m) = (if upsert w == id then n else 0) + weight upsert id m

module _ (upsert : Bytes → ℕ) (id : ℕ) where
  abbrev one : Bytes → ℕ
  one w = if upsert w == id then 1 else 0

  weight-count_term :
      (w : Bytes) (m : Counts) → weight upsert id (count_term w m) ≡ one w + weight upsert id m
  unfolding count_term
  weight-count_term w [] = omega arith
  weight-count_term w ((v, n) ∷ m) = elim (Bool-cases (equal v w)) [
    | inl e ↦ rw e (rw ((equal_iff v w).0 e) (ground arith))
    | inr e ↦ rw e (omega (arith, weight-count_term w m))
  ]

  count_with_id-append :
      (xs ys : List Bytes)
      → count_with_id upsert id (xs ++ ys) ≡ count_with_id upsert id xs + count_with_id upsert id ys
  count_with_id-append [] ys = omega arith
  count_with_id-append (x ∷ xs) ys = omega (arith, count_with_id-append xs ys)

  weight-count_filled :
      (w : Bytes) (m : Counts)
      → weight upsert id (count_filled w m)
        ≡ count_with_id upsert id (filled w) + weight upsert id m
  unfolding count_filled
  weight-count_filled [] m = omega arith
  weight-count_filled (c ∷ s) m = omega (arith, weight-count_term (c ∷ s) m)

  weight-count_code :
      (w : Bytes) (m : Counts)
      → weight upsert id (count_code w m) ≡ count_with_id upsert id (paired w) + weight upsert id m
  unfolding count_code
  weight-count_code [] m = omega arith
  weight-count_code (c ∷ s) m = elim (Bool-cases (has_underscore (c ∷ s))) [
    | inl e ↦ rw e (omega (arith, weight-count_term (c ∷ s) m))
    | inr e ↦ rw e (omega arith)
  ]

  weight-tally_unigrams :
      (ts : List Token) (a : Tally)
      → weight upsert id (tally_unigrams ts a).counts_by_term
        ≡ count_with_id upsert id (unigram_terms ts) + weight upsert id a.counts_by_term
  unfolding tally_unigrams
  weight-tally_unigrams [] a = omega arith
  weight-tally_unigrams (t ∷ ts) a =
      let once = count_filled t.literal a.counts_by_term in
      let after = record a {
        counts_by_term = count_filled t.phonetic once;
        unigram_count = add_filled t.literal a.unigram_count;
      } in
      omega (
        arith,
        weight-tally_unigrams ts after,
        weight-count_filled t.phonetic once,
        weight-count_filled t.literal a.counts_by_term,
        count_with_id-append (filled t.literal) (filled t.phonetic ++ unigram_terms ts),
        count_with_id-append (filled t.phonetic) (unigram_terms ts),
      )

  weight-tally_bigrams :
      (ts : List Token) (a : Tally)
      → weight upsert id (tally_bigrams ts a).counts_by_term
        ≡ count_with_id upsert id (bigram_terms ts) + weight upsert id a.counts_by_term
  unfolding tally_bigrams
  weight-tally_bigrams [] a = omega arith
  weight-tally_bigrams (t ∷ ts) a =
      let once = count_filled t.literal a.counts_by_term in
      let after = record a {
        counts_by_term = count_code t.phonetic once;
        bigram_count = add_filled t.literal a.bigram_count;
      } in
      omega (
        arith,
        weight-tally_bigrams ts after,
        weight-count_code t.phonetic once,
        weight-count_filled t.literal a.counts_by_term,
        count_with_id-append (filled t.literal) (paired t.phonetic ++ bigram_terms ts),
        count_with_id-append (paired t.phonetic) (bigram_terms ts),
      )

  weight-tally_sentences :
      (e : Engine) (stops : StopWords) (sentences : List Bytes) (a : Tally)
      → weight upsert id (tally_sentences e stops sentences a).counts_by_term
        ≡ count_with_id upsert id (sentence_terms e stops sentences)
          + weight upsert id a.counts_by_term
  unfolding tally_sentences
  weight-tally_sentences e stops [] a = omega arith
  weight-tally_sentences e stops (s ∷ sentences) a =
      let words = normalize_words s in
      let ones = unigrams e stops.unigram words in
      let twos = bigrams e stops.bigram words in
      let read = tally_unigrams ones a in
      omega (
        arith,
        weight-tally_sentences e stops sentences (tally_bigrams twos read),
        weight-tally_bigrams twos read,
        weight-tally_unigrams ones a,
        count_with_id-append (unigram_terms ones)
            (bigram_terms twos ++ sentence_terms e stops sentences),
        count_with_id-append (bigram_terms twos) (sentence_terms e stops sentences),
      )

  count_of-add_count :
      (k c : ℕ) (m : List (ℕ × ℕ))
      → count_of id (add_count k c m) ≡ (if k == id then c else 0) + count_of id m
  unfolding add_count
  count_of-add_count k c [] = ground arith
  count_of-add_count k c ((j, n) ∷ m) = ground (arith, count_of-add_count k c m)

  count_of-fold_ids :
      (counts : Counts) (m : List (ℕ × ℕ))
      → 0 < id
      → count_of id (fold_ids upsert counts m) ≡ weight upsert id counts + count_of id m
  unfolding fold_ids
  count_of-fold_ids [] m h = omega arith
  count_of-fold_ids ((w, c) ∷ counts) m h = elim (Bool-cases (ltb 0 (upsert w))) [
    | inl e ↦ rw e (
        omega (
          arith,
          count_of-fold_ids counts (add_count (upsert w) c m) h,
          count_of-add_count (upsert w) c m,
        ))
    | inr e ↦ rw e (ground (arith, count_of-fold_ids counts m h))
  ]

  -- For a positive id of a term, the posting of a record counts how many of the terms that
  -- the record emits have that id; 0 stands for a term that could not be stored.
  pub index_record-counts :
      (e : Engine) (stops : StopWords) (text : Bytes)
      → 0 < id
      → count_of id (index_record e stops upsert text).counts_by_id
        ≡ count_with_id upsert id (sentence_terms e stops (split_sentences text))
  unfolding index_record
  index_record-counts e stops text h =
      let a = tally_sentences e stops (split_sentences text) empty_tally in
      omega (
        arith,
        count_of-fold_ids a.counts_by_term [] h,
        weight-tally_sentences e stops (split_sentences text) empty_tally,
      )
