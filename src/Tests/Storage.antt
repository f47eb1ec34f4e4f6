-- ===== src/Tests/Storage.antt =====
-- The statements of src/sqlite/write.cpp at a small table.
use ragger_cpp.Prelude.{Bytes, List, [], arith, codes, none, refl, some, true, ℕ, ◌∷◌, ◌≡◌}
use ragger_cpp.Sqlite.Turns.Pending.{given_up, reset_abandoned_turn_summaries-pending}
use ragger_cpp.Sqlite.Turns.{
  TurnRow, SummaryRow, Store, any_covers, is_pending, pending_turns, unsummarized_turns,
  reset_abandoned_turn_summaries,
}

abbrev turn_at : ℕ → ℕ → TurnRow
turn_at id time = record {
  turn_id = id;
  user_text = codes "hi";
  assistant_text = some (codes "hello");
  turn_model = none;
  turn_session = none;
  created_at = time;
}

abbrev summary_at : ℕ → ℕ → Bytes → Bytes → SummaryRow
summary_at id turn_id text model = record {
  turn_summary_id = id;
  text = some text;
  source_turn = some turn_id;
  session_id = none;
  source_model = none;
  summary_model = some model;
  turn_datetime = 1;
  embedded = true;
  episode_id = none;
}

-- Two turns wait, one is done, and one was given up.
abbrev table : Store
table = record {
  turns = turn_at 1 10 ∷ turn_at 2 30 ∷ turn_at 3 20 ∷ turn_at 4 5 ∷ [];
  summaries =
      summary_at 1 1 (codes "it is done") (codes "m") ∷ summary_at 2 4 [] (codes "bad") ∷ [];
  last_id = 2;
}

abbrev reset : ℕ × Store
reset = reset_abandoned_turn_summaries table 10

reset_abandoned_turn_summaries-pending_example :
    is_pending (reset_abandoned_turn_summaries table 10).1.summaries (turn_at 4 5) ≡ true
reset_abandoned_turn_summaries-pending_example =
    reset_abandoned_turn_summaries-pending table 10 (turn_at 4 5) (codes "hello") (omega arith) refl
      (λ e. absurd (ground (arith, e)), (λ e. given_up 4 refl refl refl, tt))

waiting_run : unsummarized_turns table 10 ≡ turn_at 2 30 ∷ turn_at 3 20 ∷ []
unfolding unsummarized_turns pending_turns is_pending any_covers
    ragger_cpp.Sqlite.Turns.insert_sorted ragger_cpp.Sqlite.Turns.is_newer
waiting_run = refl
