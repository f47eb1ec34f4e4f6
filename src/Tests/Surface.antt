-- ===== src/Tests/Surface.antt =====
-- The agent surface of src/sqlite/agent_write.cpp and src/sqlite/agent_common.cpp at small inputs.
use mathlib.Core.List.{Perm}
use ragger_cpp.Agent.Handle.Decimal.{decimal}
use ragger_cpp.Agent.Handle.RoundTrip.{parse_agent_handle-decimal}
use ragger_cpp.Agent.Handle.Sound.{IsHandle, parse_agent_handle-IsHandle}
use ragger_cpp.Agent.Handle.{parse_agent_handle}
use ragger_cpp.Agent.Knowledge.Changes.{frozen, agent_update-frozen, agent_update-transition_ok}
use ragger_cpp.Agent.Knowledge.Terminal.{updates, updates-terminal}
use ragger_cpp.Agent.Knowledge.{
  KnowledgeRow, Knowledge, UpdateRequest, find_row, given, agent_update,
}
use ragger_cpp.Agent.Review.Decisions.{fst_of, decide_lem}
use ragger_cpp.Agent.Review.{request_for, decide}
use ragger_cpp.Agent.Status.{transition_ok}
use ragger_cpp.Prelude.{
  Bytes, Option, [], arith, codes, equal, false, find, inl, inr, is_digit, map, none, refl, some,
  starts_with, sym, true, ℕ, ◌++◌, ◌∙◌, ◌∷◌, ◌≡◌, ◌≢◌,
}

abbrev row_at : ℕ → ℕ → Bytes → KnowledgeRow
row_at id time status = record {
  knowledge_id = id;
  kind = codes "decision";
  text = codes "a fact";
  status = status;
  tags = [];
  trigger = codes "when asked";
  rationale = [];
  scope = [];
  supersedes = none;
  session_id = none;
  model = none;
  created_at = time;
  embedded = true;
}

abbrev waiting : KnowledgeRow
waiting = row_at 3 20 (codes "pending")

abbrev gone : KnowledgeRow
gone = row_at 4 10 (codes "retired")

abbrev facts : Knowledge
facts = record {
  rows = waiting ∷ gone ∷ row_at 5 15 (codes "pending") ∷ [];
  last_knowledge = 5;
  evidence = [];
  models = [];
  cached = true;
}

abbrev approval : UpdateRequest
approval = record {
  id = codes "knowledge:3";
  status = some (codes "current");
  tags = none;
  text = none;
}

abbrev approved_facts : Knowledge
approved_facts = record {
  rows = row_at 3 20 (codes "current") ∷ gone ∷ row_at 5 15 (codes "pending") ∷ [];
  last_knowledge = 5;
  evidence = [];
  models = [];
  cached = false;
}

abbrev approved_row : Option KnowledgeRow
approved_row = some (row_at 3 20 (codes "current"))

approval_works : agent_update facts approval ≡ inr (approved_facts, approved_row)
unfolding agent_update ragger_cpp.Prelude.starts_with ragger_cpp.Prelude.find
    ragger_cpp.Agent.Handle.parse_parts equal ragger_cpp.Prelude.is_digit
approval_works = refl

handle_parses : parse_agent_handle (codes "knowledge:3") ≡ some (codes "knowledge", 3)
unfolding parse_agent_handle find ragger_cpp.Agent.Handle.parse_parts equal is_digit
handle_parses = refl

other_handle : parse_agent_handle (codes "knowledge:3") ≢ some (codes "knowledge", 4)
other_handle h = cc (sym handle_parses ∙ h)

agent_update-frozen_example :
    (map frozen approved_facts.rows ≡ map frozen facts.rows)
    × (find_row 4 approved_facts.rows ≡ find_row 4 facts.rows)
    × (approved_facts.cached ≡ false)
agent_update-frozen_example =
    agent_update-frozen facts approved_facts approval approved_row 4 approval_works other_handle

agent_update-transition_ok_example :
    (n : ℕ) × (old : KnowledgeRow) × (parse_agent_handle approval.id ≡ some (codes "knowledge", n))
    × (find_row n facts.rows ≡ some old)
    × (transition_ok old.status (codes "current") ≡ true)
    × (find_row n approved_facts.rows
        ≡ some (record old { status = codes "current"; tags = given none old.tags }))
agent_update-transition_ok_example =
    agent_update-transition_ok facts approved_facts approval approved_row (codes "current")
      approval_works refl

updates-terminal_example :
    (r' : KnowledgeRow) × (find_row 4
        (updates facts (approval ∷ request_for (codes "current") (codes "4") ∷ [])).rows
      ≡ some r')
    × (r'.status ≡ codes "retired")
unfolding find_row
updates-terminal_example =
    updates-terminal facts (approval ∷ request_for (codes "current") (codes "4") ∷ []) 4 gone
      (inl refl) refl

decide_lem_example :
    Perm
      ((decide (codes "current") facts (codes "3" ∷ codes "4" ∷ [])).done
        ++ map fst_of (decide (codes "current") facts (codes "3" ∷ codes "4" ∷ [])).failed)
      (codes "3" ∷ codes "4" ∷ [])
    × ((decide (codes "current") facts (codes "3" ∷ codes "4" ∷ [])).knowledge
        ≡ updates facts (map (request_for (codes "current")) (codes "3" ∷ codes "4" ∷ [])))
decide_lem_example = decide_lem (codes "current") facts (codes "3" ∷ codes "4" ∷ [])

parse_agent_handle-decimal_example :
    parse_agent_handle (codes "episode" ++ b':' ∷ decimal 43 42) ≡ some (codes "episode", 42)
unfolding ragger_cpp.Agent.Handle.is_known_agent_layer ragger_cpp.Prelude.equal
parse_agent_handle-decimal_example =
    parse_agent_handle-decimal (codes "episode") 42 refl (omega arith) (omega arith)

parse_agent_handle-IsHandle_example : IsHandle (codes "turn:12") (codes "turn") 12
unfolding parse_agent_handle ragger_cpp.Prelude.find ragger_cpp.Agent.Handle.parse_parts equal
    ragger_cpp.Prelude.is_digit
parse_agent_handle-IsHandle_example =
    parse_agent_handle-IsHandle (codes "turn:12") (codes "turn") 12 refl
