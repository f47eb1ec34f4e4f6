-- ===== src/Sqlite/Reindex.antt =====
-- `reindex_table` of src/sqlite/text_index.cpp: the rows of a table, indexed in batches. What a row
-- is indexed with is left to `index_record`; progress output is left out.
pub mod Batches
use ragger_cpp.Prelude.{
  Bool, Bytes, List, Option, [], codes, if◌then◌else◌, leb, map, none, not, null, some, suc, zero,
  ℕ, ◌&&◌, ◌++◌, ◌∷◌,
}

pub record IndexRow : Type 0 where
  pub row_id : ℕ
  pub row_text : Bytes
  pub answer : Bytes

abbrev pub batch_size : ℕ
batch_size = 200

-- The text of a row; `turns` says whether the table is `turns`.
pub text_to_index : Bool → IndexRow → Bytes
text_to_index turns r =
    if turns && not (null r.answer) then r.row_text ++ codes "\n" ++ r.answer else r.row_text

-- The SELECT, from behind `last_id`, and its first `room` rows.
unfoldable pub batch_after : ℕ → ℕ → List IndexRow → List IndexRow
batch_after last_id room [] = []
batch_after last_id zero (r ∷ rows) = []
batch_after last_id (suc room) (r ∷ rows) =
    let skipped = batch_after last_id (suc room) rows in
    let taken = r ∷ batch_after last_id room rows in if leb r.row_id last_id then skipped else taken

unfoldable pub last_of : ℕ → List IndexRow → ℕ
last_of last_id [] = last_id
last_of last_id (r ∷ rows) = last_of r.row_id rows

-- The loop, on fuel: the calls of `index_record`, an id and a text each, or `none` where the fuel
-- runs out. `done` is the number of the calls.
unfoldable pub reindex_from : ℕ → ℕ → Bool → ℕ → List IndexRow → Option (List (ℕ × Bytes))
reindex_from zero size turns last_id rows = none
reindex_from (suc fuel) size turns last_id rows =
    let batch = batch_after last_id size rows in
    let rest = reindex_from fuel size turns (last_of last_id batch) rows in
    elim batch [
      | [] ↦ some []
      | r ∷ more ↦ elim rest [
        | none ↦ none
        | some calls ↦ some (map (λ q. (q.row_id, text_to_index turns q)) (r ∷ more) ++ calls)
      ]
    ]

unfoldable pub reindex_table : ℕ → Bool → List IndexRow → Option (List (ℕ × Bytes))
reindex_table fuel turns rows = reindex_from fuel batch_size turns 0 rows
