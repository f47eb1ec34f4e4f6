-- ===== src/Sqlite/Terms.antt =====
-- The storage hooks of src/sqlite/text_index.cpp: the table `terms` and the postings of one table,
-- "INSERT OR REPLACE" under the primary key (term_id, row). Failures of the database are left out.
pub mod Upsert
pub mod Postings
use ragger_cpp.Prelude.{Bytes, List, [], equal, if◌then◌else◌, not, ℕ, ◌&&◌, ◌++◌, ◌+◌, ◌==◌, ◌∷◌}

pub record Terms : Type 0 where
  pub terms : List (ℕ × Bytes)
  pub last_term : ℕ

pub record Posting : Type 0 where
  pub term_id : ℕ
  pub row_id : ℕ
  pub count : ℕ

-- `select_term_id`; 0 where the term is not there.
unfoldable pub lookup_term : List (ℕ × Bytes) → Bytes → ℕ
lookup_term [] term = 0
lookup_term ((id, t) ∷ rows) term = if equal t term then id else lookup_term rows term

-- `last_term` is the AUTOINCREMENT counter.
unfoldable pub upsert_term : Terms → Bytes → ℕ × Terms
upsert_term st term =
    let existing = lookup_term st.terms term in
    if not (existing == 0) then (existing, st) else (
      st.last_term + 1,
      record { terms = st.terms ++ (st.last_term + 1, term) ∷ []; last_term = st.last_term + 1 },
    )

-- `delete_terms_stmt`
unfoldable pub delete_terms : ℕ → List Posting → List Posting
delete_terms row [] = []
delete_terms row (p ∷ ps) =
    let rest = delete_terms row ps in if p.row_id == row then rest else p ∷ rest

-- `insert_terms_stmt`
unfoldable pub insert_posting : Posting → List Posting → List Posting
insert_posting q [] = q ∷ []
insert_posting q (p ∷ ps) =
    if p.term_id == q.term_id && p.row_id == q.row_id then q ∷ ps else p ∷ insert_posting q ps

unfoldable pub insert_counts : ℕ → List (ℕ × ℕ) → List Posting → List Posting
insert_counts row [] ps = ps
insert_counts row ((term, n) ∷ counts) ps =
    insert_counts row counts
      (insert_posting (record { term_id = term; row_id = row; count = n }) ps)

unfoldable pub replace_record_terms : ℕ → List (ℕ × ℕ) → List Posting → List Posting
replace_record_terms row counts ps = insert_counts row counts (delete_terms row ps)

-- The count of a term in a row, 0 where there is no posting.
unfoldable pub posting_count : ℕ → ℕ → List Posting → ℕ
posting_count term row [] = 0
posting_count term row (p ∷ ps) =
    if p.term_id == term && p.row_id == row then p.count else posting_count term row ps

-- `doc_freq_stmt`: the number of the postings of a term.
unfoldable pub doc_freq : ℕ → List Posting → ℕ
doc_freq term [] = 0
doc_freq term (p ∷ ps) = (if p.term_id == term then 1 else 0) + doc_freq term ps
