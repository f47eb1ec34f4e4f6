-- ===== src/Sqlite/Curation.antt =====
-- The other writes to `knowledge`: `store`, `store_decision` and `set_decision_status` of
-- src/sqlite/write.cpp, and the deletions of src/sqlite/maintenance.cpp.
pub mod Rows
pub mod Chain
use ragger_cpp.Agent.Handle.{is_one_of}
use ragger_cpp.Agent.Knowledge.{KnowledgeRow, Knowledge, find_row}
use ragger_cpp.Agent.Status.{agent_settable, transition_ok}
use ragger_cpp.Prelude.{
  Bool, Bytes, List, Option, [], codes, equal, false, find, if◌then◌else◌, inl, inr, lower, none,
  not, null, some, true, ℕ, ◌&&◌, ◌++◌, ◌+◌, ◌==◌, ◌||◌, ◌∷◌, ◌⊎◌,
}
use ragger_cpp.Sqlite.Episodes.{Archive}
use ragger_cpp.Sqlite.Knowledge.{
  Writer, Metadata, KnowledgeError, no_text, unknown_status, illegal_transition, bad_status,
  not_encoded, bad_timestamp, is_dated, creatable, insert_knowledge_row, get_or_create_model,
  session_of, or_current, set_status,
}
use ragger_cpp.Sqlite.Paths.{normalize_path}
use ragger_cpp.Sqlite.Turns.{name_or_null}

-- A row without trigger, rationale, scope and parent.
abbrev plain_row : Bytes → Bytes → Bytes → Bytes → ℕ → KnowledgeRow
plain_row kind text status tags time = record {
  knowledge_id = 0;
  kind = kind;
  text = text;
  status = status;
  tags = tags;
  trigger = [];
  rationale = [];
  scope = [];
  supersedes = none;
  session_id = none;
  model = none;
  created_at = time;
  embedded = true;
}

unfoldable pub decision_row : Writer → Bytes → Bytes → Bytes → Bytes → Bool → KnowledgeRow
decision_row w text status tags timestamp defer_embedding =
    record (plain_row (codes "decision") (normalize_path w.home (w.strip_prefix text))
      (or_current status) tags (w.epoch timestamp)) { embedded = not defer_embedding }

unfoldable pub store_decision :
    Writer → Knowledge → Bytes → Bytes → Bytes → Bytes → Bool → KnowledgeError ⊎ (ℕ × Knowledge)
store_decision w st text status tags timestamp defer_embedding =
    let r = decision_row w text status tags timestamp defer_embedding in
    let (id, st') = insert_knowledge_row r st in
    if not (is_one_of (or_current status) creatable)
    then inl bad_status
    else if not defer_embedding && not (w.encodes r.text)
    then inl not_encoded
    else if not (is_dated w timestamp)
    then inl bad_timestamp
    else inr (id, record st' { cached = false })

-- `store_kind_for`
unfoldable pub store_kind_for : Bytes → Bytes
store_kind_for category =
    if equal category (codes "decision") then codes "decision" else codes "note"

-- The tags, with a level other than "note" as one of them.
unfoldable pub tags_with_level : Metadata → Bytes
tags_with_level m =
    if not (null m.level) && not (equal m.level (codes "note"))
    then (if null m.tags then m.tags else m.tags ++ codes ",") ++ codes "level:" ++ m.level
    else m.tags

unfoldable pub text_of : Writer → Bytes → Bytes → Bytes
text_of w kind raw =
    if equal kind (codes "decision")
    then normalize_path w.home (w.strip_prefix raw)
    else normalize_path w.home raw

unfoldable pub note_row : Writer → Archive → Bytes → Metadata → Bool → KnowledgeRow
note_row w a raw m defer_embedding =
    let kind = store_kind_for m.category in
    record (plain_row kind (text_of w kind raw) m.status (tags_with_level m)
      (w.epoch m.timestamp)) {
        session_id = session_of a m.session;
        model = name_or_null m.model;
        embedded = not defer_embedding;
      }

-- The model is there before the transaction.
unfoldable pub store :
    Writer → Archive → Knowledge → Bytes → Metadata → Bool → KnowledgeError ⊎ (ℕ × Knowledge)
store w a st raw m defer_embedding =
    let r = note_row w a raw m defer_embedding in
    let (id, st') = insert_knowledge_row r st in
    if not (is_one_of m.status creatable)
    then inl bad_status
    else if null r.text
    then inl (no_text r.kind)
    else if not defer_embedding && not (w.encodes r.text)
    then inl not_encoded
    else if not (is_dated w m.timestamp)
    then inl bad_timestamp
    else inr (id, record st' { models = get_or_create_model m.model st'.models; cached = false })

abbrev pub is_kind : Bytes → KnowledgeRow → Bool
is_kind kind r = equal r.kind kind

-- SELECT status FROM knowledge WHERE kind = 'decision' AND knowledge_id = ?
unfoldable pub decision_status : ℕ → List KnowledgeRow → Option Bytes
decision_status n rows = elim (find_row n rows) [
  | none ↦ none
  | some r ↦ if is_kind (codes "decision") r then some r.status else none
]

unfoldable pub set_decision_status : Knowledge → ℕ → Bytes → KnowledgeError ⊎ (Bool × Knowledge)
set_decision_status st n status =
    if not (is_one_of status agent_settable)
    then inl (unknown_status status)
    else (elim (decision_status n st.rows) [
      | none ↦ inr (false, st)
      | some old ↦
          if not (transition_ok old status)
          then inl (illegal_transition old status)
          else inr (true, record st { rows = set_status n status st.rows; cached = false })
    ])

abbrev pub is_parent : ℕ → KnowledgeRow → Bool
is_parent n r = elim r.supersedes [ none ↦ false | some m ↦ m == n ]

-- EXISTS (SELECT 1 FROM knowledge c WHERE c.supersedes = n)
unfoldable pub has_child : ℕ → List KnowledgeRow → Bool
has_child n [] = false
has_child n (r ∷ rows) = is_parent n r || has_child n rows

-- LIKE has no case for ASCII letters.
unfoldable pub has_keep : Bytes → Bool
has_keep tags = elim (find (codes "keep") (lower tags)) [ none ↦ false | some k ↦ true ]

-- The conditions of both DELETEs on a row; `rows` is the table as it was.
unfoldable pub is_deletable : List KnowledgeRow → KnowledgeRow → Bool
is_deletable rows r =
    is_kind (codes "note") r && (not (has_keep r.tags) && not (has_child r.knowledge_id rows))

unfoldable pub is_listed : ℕ → List ℕ → Bool
is_listed n [] = false
is_listed n (m ∷ ms) = n == m || is_listed n ms

-- The rows that a DELETE leaves, and how many it deletes.
unfoldable pub delete_rows : List ℕ → List KnowledgeRow → List KnowledgeRow → ℕ × List KnowledgeRow
delete_rows ids table [] = (0, [])
delete_rows ids table (r ∷ rows) =
    let rest = delete_rows ids table rows in
    if is_deletable table r && is_listed r.knowledge_id ids
    then (rest.0 + 1, rest.1)
    else (rest.0, r ∷ rest.1)

-- ON DELETE CASCADE: the pairs of the ids that are no longer there.
unfoldable pub cascade : List KnowledgeRow → List (ℕ × ℕ) → List (ℕ × ℕ)
cascade rows [] = []
cascade rows ((k, s) ∷ pairs) = elim (find_row k rows) [
  | none ↦ cascade rows pairs
  | some r ↦ (k, s) ∷ cascade rows pairs
]

unfoldable pub delete_batch : Knowledge → List ℕ → ℕ × Knowledge
delete_batch st ids =
    let (changes, rows) = delete_rows ids st.rows st.rows in
    if changes == 0
    then (0, st)
    else (changes, record st { rows = rows; evidence = cascade rows st.evidence; cached = false })

unfoldable pub delete_memory : Knowledge → ℕ → Bool × Knowledge
delete_memory st id = let (changes, st') = delete_batch st (id ∷ []) in (not (changes == 0), st')
