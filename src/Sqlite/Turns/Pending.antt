-- ===== src/Sqlite/Turns/Pending.antt =====
-- What `reset_abandoned_turn_summaries` deletes, and what it gives back to the scan.
use ragger_cpp.Prelude.{
  All, Bool-cases, Bytes, List, Option-cases, [], ap, arith, codes, equal, false, inl, inr, length,
  none, null, refl, some, suc, true, zero, ℕ, ◌∙◌, ◌∷◌, ◌≡◌, ◌≤◌,
}
use ragger_cpp.Sqlite.Turns.{
  TurnRow, SummaryRow, Store, covers, turn_summary_exists, any_covers, is_abandoned, drop_abandoned,
  reset_abandoned_turn_summaries, is_pending,
}

-- What the reset may delete: the marker of a turn that was given up, and a row whose text is unset.
pub data IsPlaceholder (r : SummaryRow) : Type 0 where
  given_up :
      (n : ℕ)
      → r.source_turn ≡ some n
      → r.summary_model ≡ some (codes "bad")
      → r.text ≡ some []
      → IsPlaceholder r
  unset :
      (n : ℕ) (model : Bytes)
      → r.source_turn ≡ some n
      → r.summary_model ≡ some model
      → r.text ≡ none
      → IsPlaceholder r

-- The second list is the first without `n` placeholders.
pub data Deletes : List SummaryRow → List SummaryRow → ℕ → Type 0 where
  nothing : {rows : List SummaryRow} → Deletes rows rows 0
  keeps :
      {r : SummaryRow} {rows kept : List SummaryRow} {n : ℕ}
      → Deletes rows kept n
      → Deletes (r ∷ rows) (r ∷ kept) n
  deletes :
      {r : SummaryRow} {rows kept : List SummaryRow} {n : ℕ}
      → IsPlaceholder r
      → Deletes rows kept n
      → Deletes (r ∷ rows) kept (suc n)

pub null-nil : (s : Bytes) → null s ≡ true → s ≡ []
null-nil [] h = refl
null-nil (c ∷ s) h = cc

pub covers-some : (n : ℕ) (r : SummaryRow) → covers n r ≡ true → r.source_turn ≡ some n
covers-some n r h = elim (Option-cases r.source_turn) [
  | inl e ↦ absurd (ground (arith, e, h))
  | inr (m, e) ↦ e ∙ ap some (ground (arith, e, h))
]

IsPlaceholder-is_abandoned : (r : SummaryRow) → IsPlaceholder r → is_abandoned r ≡ true
unfolding is_abandoned equal
IsPlaceholder-is_abandoned r (given_up n e f g) = rw (e, f, g) refl
IsPlaceholder-is_abandoned r (unset n model e f g) = rw (e, f, g) refl

drop_abandoned-covers :
    (limit n : ℕ) (rows : List SummaryRow)
    → length rows ≤ limit
    → All (λ r. r.source_turn ≡ some n → IsPlaceholder r) rows
    → any_covers n (drop_abandoned limit rows).1 ≡ false
unfolding drop_abandoned any_covers
drop_abandoned-covers limit n [] h a = refl
drop_abandoned-covers zero n (r ∷ rows) h a = absurd (omega arith)
drop_abandoned-covers (suc limit) n (r ∷ rows) h a =
    let less = drop_abandoned-covers limit n rows (omega arith) a.1 in
    let same = drop_abandoned-covers (suc limit) n rows (omega arith) a.1 in
    elim (Bool-cases (is_abandoned r)) [
      | inl e ↦ rw e less
      | inr e ↦ elim (Bool-cases (covers n r)) [
        | inl c ↦ absurd (ground (arith, e, IsPlaceholder-is_abandoned r (a.0 (covers-some n r c))))
        | inr c ↦ rw e (rw c same)
      ]
    ]

-- With a limit of at least the number of summary rows, a turn that has an assistant side, and
-- whose rows are all placeholders (of the model 'bad' with an empty text, or of a summary
-- model with an unset text), is pending after the reset.
pub reset_abandoned_turn_summaries-pending :
    (st : Store) (limit : ℕ) (t : TurnRow) (answer : Bytes)
    → length st.summaries ≤ limit
    → t.assistant_text ≡ some answer
    → All (λ r. r.source_turn ≡ some t.turn_id → IsPlaceholder r) st.summaries
    → is_pending (reset_abandoned_turn_summaries st limit).1.summaries t ≡ true
unfolding reset_abandoned_turn_summaries is_pending
reset_abandoned_turn_summaries-pending st limit t answer h e placeholders =
    rw (drop_abandoned-covers limit t.turn_id st.summaries h placeholders) (rw e refl)

-- A turn with a row is not pending.
pub turn_summary_exists-is_pending :
    (st : Store) (t : TurnRow)
    → turn_summary_exists st t.turn_id ≡ true
    → is_pending st.summaries t ≡ false
unfolding turn_summary_exists is_pending
turn_summary_exists-is_pending st t h = rw h refl
