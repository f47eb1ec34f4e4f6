-- ===== src/Sqlite/Knowledge.antt =====
-- The writes to `knowledge` in src/sqlite/write.cpp and src/sqlite/maintenance.cpp, with the kinds of
-- include/sqlite/status.h. Failures of the database, the text index and the hints on rows that a new
-- one may supersede, which change nothing, are left out.
pub mod Written
use ragger_cpp.Agent.Handle.{is_one_of}
use ragger_cpp.Agent.Knowledge.{KnowledgeRow, Knowledge, find_row}
use ragger_cpp.Prelude.{
  Bool, Bytes, List, Option, [], codes, drop_end_while, drop_while, equal, false, if◌then◌else◌,
  inl, inr, is_blank, none, not, null, some, true, ℕ, ◌&&◌, ◌++◌, ◌+◌, ◌==◌, ◌||◌, ◌∷◌, ◌⊎◌,
}
use ragger_cpp.Sqlite.Episodes.{Archive, MemberRow, find_session, has_text}
use ragger_cpp.Sqlite.Paths.{Home, normalize_path}
use ragger_cpp.Sqlite.Turns.{name_or_null}

-- What the writes take from elsewhere: `strip_prefix` is `strip_decision_number_prefix`, a regular
-- expression, and the embedder throws where `encodes` is false. `resolve_epoch` gives `epoch`, and
-- throws on a text that is not empty and that `parse_db_timestamp` does not read, by `parses`.
pub record Writer : Type 0 where
  pub home : Home
  pub strip_prefix : Bytes → Bytes
  pub epoch : Bytes → ℕ
  pub parses : Bytes → Bool
  pub encodes : Bytes → Bool

abbrev pub is_dated : Writer → Bytes → Bool
is_dated w timestamp = null timestamp || w.parses timestamp

pub record KnowledgeInput : Type 0 where
  pub kind : Bytes
  pub text : Bytes
  pub trigger : Bytes
  pub rationale : Bytes
  pub scope : Bytes
  pub tags : Bytes
  pub status : Bytes
  pub supersedes : Option ℕ
  pub session_guid : Bytes
  pub model_name : Bytes
  pub source_timestamp : Bytes
  pub evidence : List ℕ

-- The fields of the metadata that `store` reads, with their defaults.
pub record Metadata : Type 0 where
  pub category : Bytes
  pub status : Bytes
  pub tags : Bytes
  pub level : Bytes
  pub timestamp : Bytes
  pub session : Bytes
  pub model : Bytes

pub record KnowledgeResult : Type 0 where
  pub id : ℕ
  pub kind : Bytes
  pub superseded : Option ℕ

pub data KnowledgeError : Type 0 where
  unknown_kind bad_status not_encoded bad_timestamp : KnowledgeError
  no_text no_trigger evidence_required : Bytes → KnowledgeError
  no_parent no_summary no_row : ℕ → KnowledgeError
  parent_is_done : ℕ → Bytes → KnowledgeError
  unknown_status : Bytes → KnowledgeError
  illegal_transition : Bytes → Bytes → KnowledgeError

pub record KindRule : Type 0 where
  pub name : Bytes
  pub trigger_required : Bool
  pub evidence_required : Bool
  pub noun : Bytes

abbrev rule : Bytes → Bool → Bool → KindRule
rule name trigger evidence = record {
  name = name;
  trigger_required = trigger;
  evidence_required = evidence;
  noun = name;
}

-- `kKinds`
abbrev pub kinds : List KindRule
kinds =
    rule (codes "decision") true false
    ∷ rule (codes "insight") false true
    ∷ rule (codes "note") false false
    ∷ []

unfoldable pub find_kind : Bytes → List KindRule → Option KindRule
find_kind kind [] = none
find_kind kind (k ∷ ks) = if equal kind k.name then some k else find_kind kind ks

-- `kCreatable`
abbrev pub creatable : List Bytes
creatable = codes "current" ∷ codes "provisional" ∷ codes "pending" ∷ []

unfoldable pub trim : Bytes → Bytes
unfolding is_blank
trim s = drop_end_while is_blank (drop_while is_blank s)

abbrev pub or_current : Bytes → Bytes
or_current s = if null s then codes "current" else s

unfoldable pub get_or_create_model : Bytes → List Bytes → List Bytes
get_or_create_model name models =
    if null name then models else if is_one_of name models then models else models ++ name ∷ []

abbrev pub session_of : Archive → Bytes → Option ℕ
session_of a guid = if null guid then none else find_session guid a.sessions

-- SELECT 1 FROM turn_summaries WHERE turn_summary_id = ? AND text != ''
unfoldable pub has_summary : ℕ → List MemberRow → Bool
has_summary id [] = false
has_summary id (r ∷ rows) =
    (r.turn_summary_id == id && has_text r.member_text) || has_summary id rows

unfoldable pub check_evidence : List MemberRow → List ℕ → Option KnowledgeError
check_evidence members [] = none
check_evidence members (id ∷ ids) =
    if has_summary id members then check_evidence members ids else some (no_summary id)

abbrev pub is_done : Bytes → Bool
is_done status = equal status (codes "superseded") || equal status (codes "retired")

unfoldable pub check_parent : List KnowledgeRow → Option ℕ → Option KnowledgeError
check_parent rows none = none
check_parent rows (some n) = elim (find_row n rows) [
  | none ↦ some (no_parent n)
  | some r ↦ if is_done r.status then some (parent_is_done n r.status) else none
]

-- The rules of the kind.
unfoldable pub check_rule : KindRule → Bytes → Bytes → List ℕ → Option KnowledgeError
check_rule k text trigger evidence =
    if null text
    then some (no_text k.noun)
    else if k.trigger_required && null trigger
    then some (no_trigger k.noun)
    else if k.evidence_required && null evidence
    then some (evidence_required k.noun)
    else none

-- The INSERT.
unfoldable pub insert_knowledge_row : KnowledgeRow → Knowledge → ℕ × Knowledge
insert_knowledge_row r st =
    let id = st.last_knowledge + 1 in
    (id, record st { rows = st.rows ++ record r { knowledge_id = id } ∷ []; last_knowledge = id })

-- UPDATE knowledge SET status = ? WHERE knowledge_id = ?
unfoldable pub set_status : ℕ → Bytes → List KnowledgeRow → List KnowledgeRow
set_status n status [] = []
set_status n status (r ∷ rows) =
    let rest = set_status n status rows in
    if r.knowledge_id == n then record r { status = status } ∷ rest else r ∷ rest

unfoldable pub supersede : Option ℕ → List KnowledgeRow → List KnowledgeRow
supersede none rows = rows
supersede (some n) rows = set_status n (codes "superseded") rows

unfoldable pub is_linked : ℕ → ℕ → List (ℕ × ℕ) → Bool
is_linked id summary [] = false
is_linked id summary ((k, s) ∷ pairs) = (k == id && s == summary) || is_linked id summary pairs

-- INSERT OR IGNORE INTO knowledge_turn_evidence, for each summary.
unfoldable pub link_evidence : ℕ → List ℕ → List (ℕ × ℕ) → List (ℕ × ℕ)
link_evidence id [] pairs = pairs
link_evidence id (s ∷ ss) pairs =
    link_evidence id ss (if is_linked id s pairs then pairs else pairs ++ (id, s) ∷ [])

-- The row that `store_knowledge` writes, but for its id.
unfoldable pub row_of : Writer → Archive → KnowledgeInput → Bytes → KnowledgeRow
row_of w a input text = record {
  knowledge_id = 0;
  kind = input.kind;
  text = text;
  status = or_current input.status;
  tags = input.tags;
  trigger = trim input.trigger;
  rationale = trim input.rationale;
  scope = trim input.scope;
  supersedes = input.supersedes;
  session_id = session_of a input.session_guid;
  model = name_or_null input.model_name;
  created_at = w.epoch input.source_timestamp;
  embedded = true;
}

-- The transaction, and the cache.
unfoldable pub write_knowledge :
    Knowledge → KnowledgeInput → KnowledgeRow → KnowledgeResult × Knowledge
write_knowledge st input r =
    let (id, st') = insert_knowledge_row r st in
    (
      record { id = id; kind = input.kind; superseded = input.supersedes },
      record st' {
        rows = supersede input.supersedes st'.rows;
        evidence = link_evidence id input.evidence st'.evidence;
        models = get_or_create_model input.model_name st'.models;
        cached = false;
      },
    )

abbrev pub embed_text : Bytes → Bytes → Bytes
embed_text trigger text = if null trigger then text else trigger ++ codes "\n" ++ text

-- The checks, in the order of the code, before anything is written.
unfoldable pub check_input : Archive → Knowledge → KnowledgeInput → Bytes → Option KnowledgeError
check_input a st input text = elim (find_kind input.kind kinds) [
  | none ↦ some unknown_kind
  | some k ↦ elim (check_rule k text (trim input.trigger) input.evidence) [
    | some e ↦ some e
    | none ↦
        if not (is_one_of (or_current input.status) creatable)
        then some bad_status
        else (elim (check_parent st.rows input.supersedes) [
          | some e ↦ some e
          | none ↦ check_evidence a.members input.evidence
        ])
  ]
]

unfoldable pub store_knowledge :
    Writer → Archive → Knowledge → KnowledgeInput → KnowledgeError ⊎ (KnowledgeResult × Knowledge)
store_knowledge w a st input =
    let text = normalize_path w.home (w.strip_prefix (trim input.text)) in
    elim (check_input a st input text) [
      | some e ↦ inl e
      | none ↦
          if not (w.encodes (embed_text (trim input.trigger) text))
          then inl not_encoded
          else if not (is_dated w input.source_timestamp)
          then inl bad_timestamp
          else inr (write_knowledge st input (row_of w a input text))
    ]
