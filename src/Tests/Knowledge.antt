-- ===== src/Tests/Knowledge.antt =====
-- The writes to `knowledge` at small tables.
use ragger_cpp.Agent.Knowledge.{KnowledgeRow, Knowledge, find_row}
use ragger_cpp.Prelude.{
  All, Bytes, [], arith, codes, drop_end_while, drop_while, equal, false, inr, is_blank, none, refl,
  some, true, ℕ, ◌∷◌, ◌≡◌, ◌≢◌,
}
use ragger_cpp.Sqlite.Curation.Chain.Steps.{writes, decides, here, then_step, Reach-IsLinear}
use ragger_cpp.Sqlite.Curation.Chain.{IsLinear}
use ragger_cpp.Sqlite.Curation.Rows.{children}
use ragger_cpp.Sqlite.Curation.{store_decision}
use ragger_cpp.Sqlite.Episodes.{Archive, MemberRow}
use ragger_cpp.Sqlite.Knowledge.Written.{Cites, after_parent, store_knowledge-written}
use ragger_cpp.Sqlite.Knowledge.{
  Writer, KnowledgeInput, KnowledgeResult, store_knowledge, row_of, trim,
}
use ragger_cpp.Sqlite.Paths.{normalize_path}

abbrev writer : Writer
writer = record {
  home = record { enabled = false; dir = [] };
  strip_prefix = λ s. s;
  epoch = λ s. 7;
  parses = λ s. true;
  encodes = λ s. true;
}

abbrev archive : Archive
archive = record {
  sessions = [];
  turns = [];
  members =
      record {
        turn_summary_id = 9;
        member_text = some (codes "they chose tea");
        member_session = none;
        member_of = none;
        member_turn = none;
        turn_datetime = 1;
        summary_blob = none;
      }
      ∷ [];
  episodes = [];
  last_episode = 0;
  cached = true;
}

abbrev nothing_known : Knowledge
nothing_known = record { rows = []; last_knowledge = 0; evidence = []; models = []; cached = true }

abbrev decision_row_at : Bytes → KnowledgeRow
decision_row_at status = record {
  knowledge_id = 1;
  kind = codes "decision";
  text = codes "coffee";
  status = status;
  tags = [];
  trigger = [];
  rationale = [];
  scope = [];
  supersedes = none;
  session_id = none;
  model = none;
  created_at = 7;
  embedded = true;
}

abbrev decided : Knowledge
decided = record {
  rows = decision_row_at (codes "current") ∷ [];
  last_knowledge = 1;
  evidence = [];
  models = [];
  cached = false;
}

-- An insight that replaces the decision.
abbrev insight : KnowledgeInput
insight = record {
  kind = codes "insight";
  text = codes " tea ";
  trigger = [];
  rationale = [];
  scope = [];
  tags = [];
  status = [];
  supersedes = some 1;
  session_guid = [];
  model_name = codes "m";
  source_timestamp = [];
  evidence = 9 ∷ 9 ∷ [];
}

abbrev insight_row : KnowledgeRow
insight_row = record {
  knowledge_id = 2;
  kind = codes "insight";
  text = codes "tea";
  status = codes "current";
  tags = [];
  trigger = [];
  rationale = [];
  scope = [];
  supersedes = some 1;
  session_id = none;
  model = some (codes "m");
  created_at = 7;
  embedded = true;
}

abbrev replaced : Knowledge
replaced = record {
  rows = decision_row_at (codes "superseded") ∷ insight_row ∷ [];
  last_knowledge = 2;
  evidence = (2, 9) ∷ [];
  models = codes "m" ∷ [];
  cached = false;
}

abbrev result : KnowledgeResult
result = record { id = 2; kind = codes "insight"; superseded = some 1 }

decision_stored :
    store_decision writer nothing_known (codes "coffee") [] [] [] false ≡ inr (1, decided)
unfolding store_decision ragger_cpp.Agent.Handle.is_one_of ragger_cpp.Prelude.equal
    ragger_cpp.Sqlite.Knowledge.insert_knowledge_row ragger_cpp.Sqlite.Curation.decision_row
    normalize_path
decision_stored = refl

insight_stored : store_knowledge writer archive decided insight ≡ inr (result, replaced)
unfolding store_knowledge ragger_cpp.Sqlite.Knowledge.check_input
    ragger_cpp.Sqlite.Knowledge.find_kind ragger_cpp.Prelude.equal
    ragger_cpp.Sqlite.Knowledge.check_rule normalize_path trim ragger_cpp.Prelude.drop_end_while
    ragger_cpp.Prelude.drop_while ragger_cpp.Agent.Handle.is_one_of
    ragger_cpp.Sqlite.Knowledge.check_parent find_row ragger_cpp.Sqlite.Knowledge.check_evidence
    ragger_cpp.Sqlite.Knowledge.has_summary ragger_cpp.Sqlite.Knowledge.write_knowledge
    ragger_cpp.Sqlite.Knowledge.insert_knowledge_row ragger_cpp.Sqlite.Knowledge.supersede
    ragger_cpp.Sqlite.Knowledge.link_evidence ragger_cpp.Sqlite.Knowledge.get_or_create_model
    ragger_cpp.Sqlite.Knowledge.set_status ragger_cpp.Sqlite.Knowledge.is_linked row_of
    ragger_cpp.Prelude.is_blank ragger_cpp.Sqlite.Episodes.find_session
insight_stored = refl

nothing_known-IsLinear : IsLinear nothing_known
unfolding children
nothing_known-IsLinear = (λ n h. absurd (h refl), tt)

Reach-IsLinear_example : IsLinear replaced
Reach-IsLinear_example =
    Reach-IsLinear writer nothing_known replaced
      (then_step (then_step here (decides (codes "coffee") [] [] [] false 1 decision_stored))
        (writes archive insight result insight_stored))
      nothing_known-IsLinear

store_knowledge-written_example :
    (find_row 2 replaced.rows
      ≡ some
          (record (row_of writer archive insight
            (normalize_path writer.home (writer.strip_prefix (trim insight.text)))) {
              knowledge_id = 2;
            }))
    × (◌≢◌ {A = ℕ} 1 2
        → find_row 1 replaced.rows ≡ after_parent (some 1) 1 (find_row 1 decided.rows))
    × All (Cites 2 replaced archive.members) (9 ∷ 9 ∷ [])
store_knowledge-written_example =
    store_knowledge-written writer archive decided replaced insight result 1 (omega arith, tt)
      insight_stored
