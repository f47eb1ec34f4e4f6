-- ===== src/Tests/Index.antt =====
-- The text index at a small table.
use ragger_cpp.Prelude.{
  [], ap, arith, codes, equal, length, map, some, true, ℕ, ◌+◌, ◌<◌, ◌∷◌, ◌≡◌, ◌≢◌,
}
use ragger_cpp.Sqlite.Terms.Upsert.{IsValid, upsert_term-IsValid}
use ragger_cpp.Sqlite.Terms.{Terms, upsert_term, lookup_term}
use ragger_cpp.Sqlite.Reindex.Batches.{call_of, reindex_table-All}
use ragger_cpp.Sqlite.Reindex.{IndexRow, reindex_table}

abbrev two_terms : Terms
two_terms = record { terms = (2, codes "tea") ∷ (5, codes "cup") ∷ []; last_term = 7 }

other_word : codes "pot" ≢ codes "cup"
unfolding equal
other_word e = absurd (cc (ap (equal (codes "pot")) e))

upsert_term-IsValid_example :
    IsValid (upsert_term two_terms (codes "pot")).1
    × (0 < (upsert_term two_terms (codes "pot")).0)
    × (lookup_term (upsert_term two_terms (codes "pot")).1.terms (codes "pot")
        ≡ (upsert_term two_terms (codes "pot")).0)
    × (lookup_term (upsert_term two_terms (codes "pot")).1.terms (codes "cup")
        ≡ lookup_term two_terms.terms (codes "cup"))
    × ((upsert_term two_terms (codes "pot")).0
        ≢ lookup_term (upsert_term two_terms (codes "pot")).1.terms (codes "cup"))
upsert_term-IsValid_example =
    upsert_term-IsValid two_terms (codes "pot") (codes "cup") (omega arith) other_word

abbrev row_with : ℕ → IndexRow
row_with id = record { row_id = id; row_text = codes "hi"; answer = codes "yes" }

reindex_table-All_example :
    reindex_table (length (row_with 3 ∷ row_with 8 ∷ []) + 1) true (row_with 3 ∷ row_with 8 ∷ [])
    ≡ some (map (call_of true) (row_with 3 ∷ row_with 8 ∷ []))
reindex_table-All_example = reindex_table-All true (row_with 3 ∷ row_with 8 ∷ []) (omega arith)
