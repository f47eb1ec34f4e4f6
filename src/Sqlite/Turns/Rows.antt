-- ===== src/Sqlite/Turns/Rows.antt =====
-- The rows of `turn_summaries` under the statements that write the table.
use ragger_cpp.Prelude.{
  Bool, Bool-cases, Bytes, List, Option-cases, [], ap, arith, codes, equal, equal_iff, false, inl,
  inr, none, null, refl, some, subst, suc, sym, true, zero, ℕ, ◌&&◌, ◌++◌, ◌||◌, ◌∙◌, ◌∷◌, ◌≡◌, ◌≢◌,
  ◌⊎◌,
}
use ragger_cpp.Sqlite.Turns.Pending.{null-nil}
use ragger_cpp.Sqlite.Paths.{Home, normalize_path}
use ragger_cpp.Sqlite.Turns.{
  TurnRow, SummaryRow, Store, covers, any_covers, turn_summary_exists, find_turn, summary_of,
  insert_summary, mark_turn_summarized, name_or_null, finalize_turn_summary, is_abandoned,
  drop_abandoned, reset_abandoned_turn_summaries,
}

-- The same row but for its episode.
abbrev pub SameSummary : SummaryRow → SummaryRow → Type 0
SameSummary r q = record q { episode_id = none } ≡ record r { episode_id = none }

-- The row is among them, in whichever episode.
abbrev pub Held : SummaryRow → List SummaryRow → Type 0
Held r [] = ⊥
Held r (q ∷ rows) = SameSummary r q ⊎ Held r rows

-- The row is the result of work: it has a text, and it is not the marker of a turn that was given up.
abbrev pub IsFinished : SummaryRow → Type 0
IsFinished r =
    (text : Bytes) × (r.text ≡ some text) × (r.summary_model ≡ some (codes "bad") → text ≢ [])

Held-append : (r q : SummaryRow) (rows : List SummaryRow) → Held r rows → Held r (rows ++ q ∷ [])
Held-append r q [] h = absurd h
Held-append r q (p ∷ rows) (inl same) = inl same
Held-append r q (p ∷ rows) (inr h) = inr (Held-append r q rows h)

pub Held-any_covers :
    (r : SummaryRow) (n : ℕ) (rows : List SummaryRow)
    → r.source_turn ≡ some n
    → Held r rows
    → any_covers n rows ≡ true
unfolding any_covers
Held-any_covers r n [] e h = absurd h
Held-any_covers r n (q ∷ rows) e (inl same) =
    let turn : q.source_turn ≡ some n = ap (λ (p : SummaryRow). p.source_turn) same ∙ e in
    rw turn (ground arith)
Held-any_covers r n (q ∷ rows) e (inr h) = ground (arith, Held-any_covers r n rows e h)

any_covers-append :
    (n : ℕ) (rows : List SummaryRow) (r : SummaryRow)
    → any_covers n (rows ++ r ∷ []) ≡ (any_covers n rows || covers n r)
unfolding any_covers
any_covers-append n [] r = ground arith
any_covers-append n (q ∷ rows) r = ground (arith, any_covers-append n rows r)

insert_summary-Held :
    (r : SummaryRow) (st : Store) (t : TurnRow) (row : SummaryRow)
    → Held r st.summaries
    → Held r (insert_summary st t row).1.summaries
unfolding insert_summary
insert_summary-Held r st t row h = elim (Bool-cases (any_covers t.turn_id st.summaries)) [
  | inl old ↦ rw old h
  | inr new ↦ rw new (Held-append r _ st.summaries h)
]

pub insert_summary-exists :
    (st : Store) (t : TurnRow) (row : SummaryRow)
    → row.source_turn ≡ some t.turn_id
    → turn_summary_exists (insert_summary st t row).1 t.turn_id ≡ true
unfolding insert_summary turn_summary_exists
insert_summary-exists st t row e = elim (Bool-cases (any_covers t.turn_id st.summaries)) [
  | inl old ↦ rw old old
  | inr new ↦ rw new (rw (any_covers-append t.turn_id st.summaries _) (ground arith))
]

pub find_turn-id :
    (n : ℕ) (ts : List TurnRow) (t : TurnRow) → find_turn n ts ≡ some t → t.turn_id ≡ n
unfolding find_turn
find_turn-id n [] t h = cc
find_turn-id n (u ∷ ts) t h = ground (arith, find_turn-id n ts t)

pub mark_turn_summarized-Held :
    (r : SummaryRow) (st : Store) (n : ℕ) (name : Bytes)
    → Held r st.summaries
    → Held r (mark_turn_summarized st n name).1.summaries
unfolding mark_turn_summarized
mark_turn_summarized-Held r st n name h = elim (Bool-cases (null name)) [
  | inl e ↦ rw e h
  | inr e ↦ rw e (elim (Option-cases (find_turn n st.turns)) [
    | inl f ↦ rw (f, mark_turn_summarized) h
    | inr (t, f) ↦ rw f (insert_summary-Held r st t (summary_of t [] (some name) false) h)
  ])
]

pub mark_turn_summarized-exists :
    (st : Store) (n : ℕ) (name : Bytes) (t : TurnRow)
    → find_turn n st.turns ≡ some t
    → null name ≡ false
    → turn_summary_exists (mark_turn_summarized st n name).1 n ≡ true
unfolding mark_turn_summarized
mark_turn_summarized-exists st n name t f e = rw e (
    rw (f, mark_turn_summarized)
      (subst (λ k. turn_summary_exists (insert_summary st t row).1 k ≡ true)
        (find_turn-id n st.turns t f) (insert_summary-exists st t row refl)))
  where
    row : SummaryRow
    row = summary_of t [] (some name) false

insert_summary-turns :
    (st : Store) (t : TurnRow) (row : SummaryRow) → (insert_summary st t row).1.turns ≡ st.turns
unfolding insert_summary
insert_summary-turns st t row = ground arith

-- A turn that has a row is not marked again.
pub mark_turn_summarized-again :
    (st : Store) (n : ℕ) (name : Bytes)
    → turn_summary_exists st n ≡ true
    → mark_turn_summarized st n name ≡ (false, st)
unfolding mark_turn_summarized
mark_turn_summarized-again st n name h = elim (Bool-cases (null name)) [
  | inl e ↦ rw e refl
  | inr e ↦ rw e (elim (Option-cases (find_turn n st.turns)) [
    | inl f ↦ rw (f, mark_turn_summarized) refl
    | inr (t, f) ↦
        let old : turn_summary_exists st t.turn_id ≡ true = rw (find_turn-id n st.turns t f) h in
        rw (f, mark_turn_summarized) (rw old refl)
  ])
]

pub finalize_turn_summary-Held :
    (r : SummaryRow) (home : Home) (encodes : Bytes → Bool) (st : Store) (n : ℕ) (text name : Bytes)
    (b : Bool) (st' : Store)
    → finalize_turn_summary home encodes st n text name ≡ some (b, st')
    → Held r st.summaries
    → Held r st'.summaries
unfolding finalize_turn_summary
finalize_turn_summary-Held r home encodes st n text name b st' e h =
    elim (Option-cases (find_turn n st.turns)) [
      | inl f ↦ ground (arith, f)
      | inr (t, f) ↦ ground (
        arith,
        f,
        insert_summary-Held r st t
            (summary_of t (normalize_path home text) (name_or_null name) true) h,
      )
    ]

-- A finalized turn has a row.
pub finalize_turn_summary-exists :
    (home : Home) (encodes : Bytes → Bool) (st : Store) (n : ℕ) (text name : Bytes) (st' : Store)
    → finalize_turn_summary home encodes st n text name ≡ some (true, st')
    → turn_summary_exists st' n ≡ true
unfolding finalize_turn_summary
finalize_turn_summary-exists home encodes st n text name st' h =
    elim (Option-cases (find_turn n st.turns)) [
      | inl f ↦ ground (arith, f)
      | inr (t, f) ↦
          subst (λ k. turn_summary_exists st' k ≡ true) (find_turn-id n st.turns t f)
            (ground (
              arith,
              f,
              insert_summary-exists st t
                  (summary_of t (normalize_path home text) (name_or_null name) true) refl,
            ))
    ]

-- The reset passes over the results of work.
IsFinished-is_abandoned :
    (r q : SummaryRow) → SameSummary r q → IsFinished r → is_abandoned q ≡ false
unfolding is_abandoned
IsFinished-is_abandoned r q same (text, e, f) =
    let model : q.summary_model ≡ r.summary_model = ap (λ (p : SummaryRow). p.summary_model) same in
    let there : q.text ≡ some text = ap (λ (p : SummaryRow). p.text) same ∙ e in
    elim (Option-cases q.source_turn) [
      | inl a ↦ rw a refl
      | inr (n, a) ↦ elim (Option-cases q.summary_model) [
        | inl b ↦ rw (a, b) refl
        | inr (name, b) ↦ elim (Bool-cases (equal name (codes "bad") && null text)) [
          | inr c ↦ rw (a, b, there) c
          | inl c ↦
              let bad : name ≡ codes "bad" = (equal_iff name (codes "bad")).0 (ground (arith, c)) in
              absurd (f (sym model ∙ b ∙ ap some bad) (null-nil text (ground (arith, c))))
        ]
      ]
    ]

drop_abandoned-Held :
    (r : SummaryRow) (limit : ℕ) (rows : List SummaryRow)
    → IsFinished r
    → Held r rows
    → Held r (drop_abandoned limit rows).1
unfolding drop_abandoned
drop_abandoned-Held r limit [] f h = absurd h
drop_abandoned-Held r zero (q ∷ rows) f h = h
drop_abandoned-Held r (suc limit) (q ∷ rows) f (inl same) =
    rw (IsFinished-is_abandoned r q same f) (inl same)
drop_abandoned-Held r (suc limit) (q ∷ rows) f (inr h) = elim (Bool-cases (is_abandoned q)) [
  | inl e ↦ rw e (drop_abandoned-Held r limit rows f h)
  | inr e ↦ rw e (inr (drop_abandoned-Held r (suc limit) rows f h))
]

pub reset_abandoned_turn_summaries-Held :
    (r : SummaryRow) (st : Store) (limit : ℕ)
    → IsFinished r
    → Held r st.summaries
    → Held r (reset_abandoned_turn_summaries st limit).1.summaries
unfolding reset_abandoned_turn_summaries
reset_abandoned_turn_summaries-Held r st limit = drop_abandoned-Held r limit st.summaries
