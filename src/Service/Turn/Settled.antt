-- ===== src/Service/Turn/Settled.antt =====
-- The rows of a turn after `handle_l2`.
use ragger_cpp.Prelude.{
  Bool, Bool-cases, Bytes, Option, arith, false, inl, inr, leb, magnitude, none, null, positive,
  refl, some, true, ◌≡◌,
}
use ragger_cpp.Service.Turn.{
  TurnJob, Inference, Setting, State, Outcome, trivial, done, not_configured, abandoned, stored,
  bump, failure_count, is_short, bad_model, skip_name, on_failure, on_answer, with_summary,
  ask_summary, handle_l2,
}
use ragger_cpp.Sqlite.Turns.Rows.{
  Held, mark_turn_summarized-Held, mark_turn_summarized-exists, mark_turn_summarized-again,
  finalize_turn_summary-Held, finalize_turn_summary-exists,
}
use ragger_cpp.Sqlite.Turns.{
  TurnRow, SummaryRow, Store, find_turn, turn_summary_exists, finalize_turn_summary,
}

on_failure-Held :
    (r : SummaryRow) (c : Setting) (s : State) (j : TurnJob)
    → Held r s.store.summaries
    → Held r (on_failure c s j).0.store.summaries
unfolding on_failure
on_failure-Held r c s j h = elim (Bool-cases (positive c.max_turn_failures)) [
  | inr e ↦ rw e h
  | inl e ↦
      rw e
        (elim (Bool-cases (
          leb (magnitude c.max_turn_failures)
            (failure_count j.turn_id (bump j.turn_id s.failures)))) [
              | inl f ↦ rw f (mark_turn_summarized-Held r s.store j.turn_id bad_model h)
              | inr f ↦ rw f h
            ])
]

on_answer-Held :
    (r : SummaryRow) (s : State) (j : TurnJob) (answer : Option (Bool × Store))
    → ((b : Bool) (st : Store) → answer ≡ some (b, st) → Held r st.summaries)
    → Held r s.store.summaries
    → Held r (on_answer s j answer).0.store.summaries
unfolding on_answer
on_answer-Held r s j none k h = h
on_answer-Held r s j (some (false, st)) k h = k false st refl
on_answer-Held r s j (some (true, st)) k h = k true st refl

with_summary-Held :
    (r : SummaryRow) (c : Setting) (s : State) (j : TurnJob) (model summary : Bytes)
    → Held r s.store.summaries
    → Held r (with_summary c s j model summary).0.store.summaries
unfolding with_summary
with_summary-Held r c s j model summary h = elim (Bool-cases (null summary)) [
  | inl e ↦ rw e (on_failure-Held r c s j h)
  | inr e ↦ rw e (
      on_answer-Held r s j _
        (λ b st k.
          finalize_turn_summary-Held r c.home c.encodes s.store j.turn_id summary model b st k h)
        h)
]

-- Whatever a job does, the rows that were there stay.
pub handle_l2-Held :
    (r : SummaryRow) (c : Setting) (inf : Option Inference) (s : State) (j : TurnJob)
    → Held r s.store.summaries
    → Held r (handle_l2 c inf s j).0.store.summaries
unfolding handle_l2
handle_l2-Held r c inf s j h = elim (Bool-cases (null j.assistant_text)) [
  | inl e ↦ rw e h
  | inr e ↦ rw e (elim (Bool-cases (is_short j)) [
    | inl f ↦ rw f (mark_turn_summarized-Held r s.store j.turn_id (skip_name inf) h)
    | inr f ↦ rw f (elim (Bool-cases (turn_summary_exists s.store j.turn_id)) [
      | inl g ↦ rw g h
      | inr g ↦ rw g (asked inf)
    ])
  ])
]
  where
    asked :
        (inf : Option Inference)
        → Held r
            (elim inf as (λ _. State × Outcome) [
              | none ↦ (s, not_configured)
              | some inference ↦ with_summary c s j inference.memory_model (ask_summary inference j)
            ]).0.store.summaries
    asked none = h
    asked (some inference) =
        with_summary-Held r c s j inference.memory_model (ask_summary inference j) h

-- A job for a turn that has a row changes nothing, whatever the state of the inference endpoint.
pub handle_l2-exists :
    (c : Setting) (inf : Option Inference) (s : State) (j : TurnJob)
    → turn_summary_exists s.store j.turn_id ≡ true
    → (handle_l2 c inf s j).0 ≡ s
unfolding handle_l2
handle_l2-exists c inf s j h =
    ground (arith, mark_turn_summarized-again s.store j.turn_id (skip_name inf) h)

-- The outcomes after which the turn is finished with.
abbrev pub is_settled : Outcome → Bool
is_settled trivial = true
is_settled done = true
is_settled abandoned = true
is_settled stored = true
is_settled _ = false

skip_name-named : (inf : Option Inference) → null (skip_name inf) ≡ false
unfolding skip_name
skip_name-named none = refl
skip_name-named (some inf) = ground arith

on_answer-settled :
    (s : State) (j : TurnJob) (answer : Option (Bool × Store))
    → ((st : Store) → answer ≡ some (true, st) → turn_summary_exists st j.turn_id ≡ true)
    → is_settled (on_answer s j answer).1 ≡ true
    → turn_summary_exists (on_answer s j answer).0.store j.turn_id ≡ true
unfolding on_answer
on_answer-settled s j none h e = cc
on_answer-settled s j (some (false, st)) h e = cc
on_answer-settled s j (some (true, st)) h e = h st refl

with_summary-settled :
    (c : Setting) (s : State) (j : TurnJob) (model summary : Bytes) (t : TurnRow)
    → find_turn j.turn_id s.store.turns ≡ some t
    → is_settled (with_summary c s j model summary).1 ≡ true
    → turn_summary_exists (with_summary c s j model summary).0.store j.turn_id ≡ true
unfolding with_summary on_failure
with_summary-settled c s j model summary t found e = ground (
  arith,
  mark_turn_summarized-exists s.store j.turn_id bad_model t found refl,
  on_answer-settled s j (finalize_turn_summary c.home c.encodes s.store j.turn_id summary model)
      (λ st h. finalize_turn_summary-exists c.home c.encodes s.store j.turn_id summary model st h),
)

handle_l2-leaves_row :
    (c : Setting) (inf : Option Inference) (s : State) (j : TurnJob) (t : TurnRow)
    → find_turn j.turn_id s.store.turns ≡ some t
    → is_settled (handle_l2 c inf s j).1 ≡ true
    → turn_summary_exists (handle_l2 c inf s j).0.store j.turn_id ≡ true
unfolding handle_l2
handle_l2-leaves_row c none s j t found e = ground (
  arith,
  mark_turn_summarized-exists s.store j.turn_id (skip_name none) t found (skip_name-named none),
)
handle_l2-leaves_row c (some inf) s j t found e = ground (
  arith,
  mark_turn_summarized-exists s.store j.turn_id (skip_name (some inf)) t found
      (skip_name-named (some inf)),
  with_summary-settled c s j inf.memory_model (ask_summary inf j) t found,
)

-- If the turn of a job is in the table and the handler skips it as trivial, finds it done,
-- abandons it or stores its summary, then the turn has a summary row afterwards, and the same
-- job, handled again with any endpoint, leaves the state as it is.
pub handle_l2-settled :
    (c : Setting) (inf : Option Inference) (s : State) (j : TurnJob) (t : TurnRow)
    → find_turn j.turn_id s.store.turns ≡ some t
    → is_settled (handle_l2 c inf s j).1 ≡ true
    → (turn_summary_exists (handle_l2 c inf s j).0.store j.turn_id ≡ true)
      × ((later_inf : Option Inference)
          → (handle_l2 c later_inf (handle_l2 c inf s j).0 j).0 ≡ (handle_l2 c inf s j).0)
handle_l2-settled c inf s j t found e =
    let there = handle_l2-leaves_row c inf s j t found e in
    (there, λ later_inf. handle_l2-exists c later_inf (handle_l2 c inf s j).0 j there)
