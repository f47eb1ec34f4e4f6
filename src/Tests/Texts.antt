-- ===== src/Tests/Texts.antt =====
-- The tokenizer, the text index and the chunks of src/import.cpp at small inputs.
use ragger_cpp.Fts.Sentences.{split_sentences}
use ragger_cpp.Fts.Tokens.{Engine}
use ragger_cpp.Import.Chunks.Bodies.{AllKept, merge_from-AllKept}
use ragger_cpp.Import.Chunks.Nesting.{Under, annotate-Under}
use ragger_cpp.Import.Chunks.{Annotated, annotate, merge_from}
use ragger_cpp.Import.Documents.{clean_document_text}
use ragger_cpp.Prelude.{
  All, List, [], arith, codes, drop_end_while, drop_while, is_blank, is_space, length, refl, take,
  ◌∷◌, ◌≡◌,
}
use ragger_cpp.TextIndex.Counts.{count_of, count_with_id, sentence_terms, index_record-counts}
use ragger_cpp.TextIndex.{StopWords, index_record}

abbrev engine : Engine
engine = record { stem = λ w. w; double_metaphone = λ w. take 1 w ∷ [] }

abbrev stop_words : StopWords
stop_words = record { unigram = codes "the" ∷ []; bigram = codes "the" ∷ [] }

sentences_test :
    split_sentences (codes "One. Two: three") ≡ codes "One." ∷ codes "Two:" ∷ codes "three" ∷ []
unfolding split_sentences ragger_cpp.Fts.Sentences.split_from ragger_cpp.Fts.Sentences.is_terminator
    ragger_cpp.Fts.Sentences.push_sentence ragger_cpp.Fts.Sentences.trimmed drop_end_while
    drop_while ragger_cpp.Prelude.is_blank
sentences_test = refl

index_record-counts_example :
    count_of 3 (index_record engine stop_words length (codes "red dog. the cat")).counts_by_id
    ≡ count_with_id length 3
        (sentence_terms engine stop_words (split_sentences (codes "red dog. the cat")))
index_record-counts_example =
    index_record-counts length 3 engine stop_words (codes "red dog. the cat") (omega arith)

abbrev paragraphs : List Annotated
paragraphs =
    record { body = codes "aaa"; heading_block = codes "# A"; section = codes "A" }
    ∷ record { body = codes "bbb"; heading_block = codes "# B"; section = codes "B" }
    ∷ record { body = codes "ccc"; heading_block = codes "# B"; section = codes "B" }
    ∷ []

merge_from-AllKept_example : AllKept (merge_from 10 [] [] paragraphs) paragraphs
merge_from-AllKept_example = merge_from-AllKept 10 [] [] paragraphs

annotate-Under_example :
    All Under
      (annotate [] (codes "# A" ∷ codes "## B" ∷ codes "text" ∷ codes "# C" ∷ codes "more" ∷ []))
annotate-Under_example =
    annotate-Under [] (codes "# A" ∷ codes "## B" ∷ codes "text" ∷ codes "# C" ∷ codes "more" ∷ [])
      tt

-- Four dashes are kept, five become three.
dashes_test : clean_document_text (codes "# a ----\n\tb -----") ≡ codes "a ----\nb ---"
unfolding clean_document_text ragger_cpp.Prelude.drop_end_while ragger_cpp.Prelude.drop_while
    ragger_cpp.Prelude.is_space
dashes_test = refl
