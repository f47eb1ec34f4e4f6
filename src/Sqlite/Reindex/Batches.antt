-- ===== src/Sqlite/Reindex/Batches.antt =====
-- The batches of `reindex_table`.
use mathlib.Core.List.{map-append}
use ragger_cpp.Prelude.{
  All, All-append, All-imp, Bool, Bytes, List, [], ap, append_assoc, arith, drop, length,
  length-drop, map, refl, some, subst, suc, sym, take, take-append-drop, zero, ℕ, ◌++◌, ◌+◌, ◌<◌,
  ◌∙◌, ◌∷◌, ◌≡◌, ◌≤◌,
}
use ragger_cpp.Sqlite.Reindex.{
  IndexRow, batch_after, last_of, text_to_index, reindex_from, reindex_table,
}

-- The rows have rising ids, from above `id`: `ORDER BY` the primary key, which starts at 1.
abbrev pub Ascending : ℕ → List IndexRow → Type 0
Ascending id [] = Unit {0}
Ascending id (r ∷ rows) = (id < r.row_id) × Ascending r.row_id rows

Ascending-weaken : (a b : ℕ) (rows : List IndexRow) → a ≤ b → Ascending b rows → Ascending a rows
Ascending-weaken a b [] h r = tt
Ascending-weaken a b (q ∷ rows) h r = (omega arith, r.1)

batch_after-skips :
    (last n : ℕ) (before rows : List IndexRow)
    → All (λ r. r.row_id ≤ last) before
    → batch_after last (suc n) (before ++ rows) ≡ batch_after last (suc n) rows
unfolding batch_after
batch_after-skips last n [] rows h = refl
batch_after-skips last n (r ∷ before) rows h =
    ground (arith, h.0, batch_after-skips last n before rows h.1)

batch_after-take :
    (last n : ℕ) (rows : List IndexRow)
    → Ascending last rows
    → batch_after last n rows ≡ take n rows
unfolding batch_after
batch_after-take last zero [] h = refl
batch_after-take last (suc n) [] h = refl
batch_after-take last zero (r ∷ rows) h = refl
batch_after-take last (suc n) (r ∷ rows) h = ground (
  arith,
  h.0,
  batch_after-take last n rows (Ascending-weaken last r.row_id rows (omega (arith, h.0)) h.1),
)

last_of-le : (last : ℕ) (rows : List IndexRow) → Ascending last rows → last ≤ last_of last rows
unfolding last_of
last_of-le last [] h = omega arith
last_of-le last (r ∷ rows) h = omega (arith, h.0, last_of-le r.row_id rows h.1)

last_of-All :
    (last : ℕ) (rows : List IndexRow)
    → Ascending last rows
    → All (λ r. r.row_id ≤ last_of last rows) rows
unfolding last_of
last_of-All last [] h = tt
last_of-All last (r ∷ rows) h = (last_of-le r.row_id rows h.1, last_of-All r.row_id rows h.1)

Ascending-take :
    (n last : ℕ) (rows : List IndexRow) → Ascending last rows → Ascending last (take n rows)
Ascending-take zero last rows h = tt
Ascending-take (suc n) last [] h = tt
Ascending-take (suc n) last (r ∷ rows) h = (h.0, Ascending-take n r.row_id rows h.1)

Ascending-drop :
    (n last : ℕ) (rows : List IndexRow)
    → Ascending last rows
    → Ascending (last_of last (take n rows)) (drop n rows)
unfolding last_of
Ascending-drop zero last rows h = h
Ascending-drop (suc n) last [] h = tt
Ascending-drop (suc n) last (r ∷ rows) h = Ascending-drop n r.row_id rows h.1

-- The call of `index_record` for a row.
abbrev pub call_of : Bool → IndexRow → ℕ × Bytes
call_of turns r = (r.row_id, text_to_index turns r)

reindex_from-All :
    (fuel n : ℕ) (turns : Bool) (last : ℕ) (before rows : List IndexRow)
    → All (λ r. r.row_id ≤ last) before
    → Ascending last rows
    → length rows < fuel
    → reindex_from fuel (suc n) turns last (before ++ rows) ≡ some (map (call_of turns) rows)
unfolding reindex_from
reindex_from-All zero n turns last before rows b a f = absurd (omega arith)
reindex_from-All (suc fuel) n turns last before [] b a f =
    let batch : batch_after last (suc n) (before ++ []) ≡ [] =
      batch_after-skips last n before [] b ∙ batch_after-take last (suc n) [] tt in
    rw (batch, reindex_from) refl
reindex_from-All (suc fuel) n turns last before (r ∷ rows) b a f =
    let taken = r ∷ take n rows in
    let batch : batch_after last (suc n) (before ++ r ∷ rows) ≡ taken =
      batch_after-skips last n before (r ∷ rows) b ∙ batch_after-take last (suc n) (r ∷ rows) a in
    let ascending : Ascending last taken = Ascending-take (suc n) last (r ∷ rows) a in
    let whole : (before ++ taken) ++ drop n rows ≡ before ++ r ∷ rows =
      append_assoc before taken (drop n rows)
      ∙ ap (λ q. before ++ r ∷ q) (take-append-drop n rows) in
    let done : All (λ q. q.row_id ≤ last_of last taken) (before ++ taken) =
      All-append (λ q. q.row_id ≤ last_of last taken) before taken
        (All-imp (λ q. q.row_id ≤ last) (λ q. q.row_id ≤ last_of last taken)
          (λ q le. omega (arith, le, last_of-le last taken ascending)) before b)
        (last_of-All last taken ascending) in
    let rest : reindex_from fuel (suc n) turns (last_of last taken) (before ++ r ∷ rows)
        ≡ some (map (call_of turns) (drop n rows)) =
      subst
        (λ q.
          reindex_from fuel (suc n) turns (last_of last taken) q
          ≡ some (map (call_of turns) (drop n rows)))
        whole
        (reindex_from-All fuel n turns (last_of last taken) (before ++ taken) (drop n rows) done
          (Ascending-drop (suc n) last (r ∷ rows) a) (omega (arith, length-drop n rows, f))) in
    let next =
      subst
        (λ q.
          reindex_from fuel (suc n) turns (last_of last q) (before ++ r ∷ rows)
          ≡ some (map (call_of turns) (drop n rows)))
        (sym batch) rest in
    rw (batch, reindex_from)
      (rw next (
        ap some (
          ap (λ q. call_of turns r ∷ q)
            (sym (map-append (call_of turns) (take n rows) (drop n rows))
              ∙ ap (map (call_of turns)) (take-append-drop n rows)))))

-- With one round more than there are rows, in ascending order of ids from 1, the loop ends,
-- and has indexed each row once, in their order.
pub reindex_table-All :
    (turns : Bool) (rows : List IndexRow)
    → Ascending 0 rows
    → reindex_table (length rows + 1) turns rows ≡ some (map (call_of turns) rows)
unfolding reindex_table
reindex_table-All turns rows a =
    reindex_from-All (length rows + 1) 199 turns 0 [] rows tt a (omega arith)
