-- ===== src/Sqlite/Terms/Postings.antt =====
-- The postings of a row.
use ragger_cpp.Prelude.{
  Bool-cases, List, [], arith, if◌then◌else◌, inl, inr, refl, true, ℕ, ◌&&◌, ◌==◌, ◌∙◌, ◌∷◌, ◌≡◌,
}
use ragger_cpp.Sqlite.Terms.{
  Posting, delete_terms, insert_posting, insert_counts, replace_record_terms, posting_count,
}

-- The count that the last entry for a term gives, or `n` where there is none.
unfoldable pub final_count : ℕ → ℕ → List (ℕ × ℕ) → ℕ
final_count term n [] = n
final_count term n ((t, m) ∷ counts) = final_count term (if t == term then m else n) counts

posting_count-delete_terms :
    (term row r : ℕ) (ps : List Posting)
    → posting_count term r (delete_terms row ps) ≡ (if r == row then 0 else posting_count term r ps)
unfolding posting_count delete_terms
posting_count-delete_terms term row r [] = ground arith
posting_count-delete_terms term row r (p ∷ ps) =
    ground (arith, posting_count-delete_terms term row r ps)

posting_count-insert_posting :
    (term r : ℕ) (q : Posting) (ps : List Posting)
    → posting_count term r (insert_posting q ps)
      ≡ (if q.term_id == term && q.row_id == r then q.count else posting_count term r ps)
unfolding posting_count insert_posting
posting_count-insert_posting term r q [] = refl
posting_count-insert_posting term r q (p ∷ ps) =
    ground (arith, posting_count-insert_posting term r q ps)

posting_count-insert_counts :
    (term row r : ℕ) (counts : List (ℕ × ℕ)) (ps : List Posting)
    → posting_count term r (insert_counts row counts ps) ≡ (
        if r == row
        then final_count term (posting_count term r ps) counts
        else posting_count term r ps)
unfolding insert_counts final_count
posting_count-insert_counts term row r [] ps = ground arith
posting_count-insert_counts term row r ((t, n) ∷ counts) ps =
    let q : Posting = record { term_id = t; row_id = row; count = n } in
    posting_count-insert_counts term row r counts (insert_posting q ps)
    ∙ rw (posting_count-insert_posting term r q ps) (elim (Bool-cases (r == row)) [
      | inl same ↦
          let back : row == r ≡ true = ground (arith, same) in
          elim (Bool-cases (t == term)) [
            | inl this ↦ rw (same, back, this) refl
            | inr other ↦ rw (same, back, other) refl
          ]
      | inr away ↦ ground (arith, away)
    ])

pub replace_record_terms_lem :
    (term row r : ℕ) (counts : List (ℕ × ℕ)) (ps : List Posting)
    → posting_count term r (replace_record_terms row counts ps)
      ≡ (if r == row then final_count term 0 counts else posting_count term r ps)
unfolding replace_record_terms
replace_record_terms_lem term row r counts ps =
    posting_count-insert_counts term row r counts (delete_terms row ps)
    ∙ rw (posting_count-delete_terms term row r ps)
        (elim (Bool-cases (r == row)) [ inl same ↦ rw same refl | inr away ↦ rw away refl ])
