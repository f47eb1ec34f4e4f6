-- ===== src/Agent/Knowledge.antt =====
-- The knowledge rows as src/sqlite/agent_write.cpp changes them: `agent_update`.
pub mod Update
pub mod Changes
pub mod Terminal
use ragger_cpp.Agent.Handle.{
  parse_agent_handle, is_legacy_knowledge_handle, is_legacy_summary_handle, is_one_of,
}
use ragger_cpp.Agent.Status.{agent_settable, transition_ok}
use ragger_cpp.Prelude.{
  Bool, Bytes, List, Option, [], codes, equal, false, if◌then◌else◌, inl, inr, none, not, some,
  true, ℕ, ◌==◌, ◌||◌, ◌∷◌, ◌⊎◌,
}

-- A row of `knowledge` but for its counts of terms. An empty trigger, rationale or scope stands for
-- NULL, a model is its name, and `embedded` says whether the row has a vector.
pub record KnowledgeRow : Type 0 where
  pub knowledge_id : ℕ
  pub kind : Bytes
  pub text : Bytes
  pub status : Bytes
  pub tags : Bytes
  pub trigger : Bytes
  pub rationale : Bytes
  pub scope : Bytes
  pub supersedes : Option ℕ
  pub session_id : Option ℕ
  pub model : Option Bytes
  pub created_at : ℕ
  pub embedded : Bool

-- The table with its AUTOINCREMENT counter, the pairs of `knowledge_turn_evidence`, the names in
-- `models`, and whether the search cache of the table still stands.
pub record Knowledge : Type 0 where
  pub rows : List KnowledgeRow
  pub last_knowledge : ℕ
  pub evidence : List (ℕ × ℕ)
  pub models : List Bytes
  pub cached : Bool

pub record UpdateRequest : Type 0 where
  pub id : Bytes
  pub status : Option Bytes
  pub tags : Option Bytes
  pub text : Option Bytes

-- The `std::invalid_argument`s of `agent_update`.
pub data UpdateError : Type 0 where
  text_is_fixed : UpdateError
  use_knowledge : UpdateError
  notes_are_knowledge : UpdateError
  bad_handle : Bytes → UpdateError
  episodes_are_immutable : UpdateError
  not_editable : Bytes → UpdateError
  not_updatable : Bytes → UpdateError
  not_found : ℕ → UpdateError
  unknown_status : Bytes → UpdateError
  superseded_is_not_set : UpdateError
  illegal_transition : Bytes → Bytes → UpdateError
  nothing_to_update : UpdateError

-- SELECT … WHERE knowledge_id = ?
unfoldable pub find_row : ℕ → List KnowledgeRow → Option KnowledgeRow
find_row n [] = none
find_row n (r ∷ rows) = if r.knowledge_id == n then some r else find_row n rows

-- What is wrong with the status asked for, given the one that the row has.
pub check_status : Bytes → Option Bytes → Option UpdateError
unfolding transition_ok is_one_of
check_status old none = none
check_status old (some s) =
    if not (is_one_of s agent_settable)
    then some (unknown_status s)
    else if equal s (codes "superseded")
    then some superseded_is_not_set
    else if not (transition_ok old s)
    then some (illegal_transition old s)
    else none

abbrev pub given : Option Bytes → Bytes → Bytes
given none old = old
given (some s) old = s

abbrev pub is_given : Option Bytes → Bool
is_given none = false
is_given (some s) = true

-- UPDATE knowledge SET … WHERE knowledge_id = ?
unfoldable pub update_rows : ℕ → UpdateRequest → List KnowledgeRow → List KnowledgeRow
update_rows n req [] = []
update_rows n req (r ∷ rows) =
    let rest = update_rows n req rows in
    if r.knowledge_id == n
    then record r { status = given req.status r.status; tags = given req.tags r.tags } ∷ rest
    else r ∷ rest

-- The branch for the knowledge layer, and the row read back.
pub update_knowledge :
    Knowledge → ℕ → UpdateRequest → UpdateError ⊎ (Knowledge × Option KnowledgeRow)
unfolding find_row check_status update_rows
update_knowledge st n req = elim (find_row n st.rows) [
  | none ↦ inl (not_found n)
  | some r ↦ elim (check_status r.status req.status) [
    | some e ↦ inl e
    | none ↦
        if not (is_given req.status || is_given req.tags)
        then inl nothing_to_update
        else (let rows = update_rows n req st.rows in
            inr (record st { rows = rows; cached = false }, find_row n rows))
  ]
]

-- The layer decides.
pub update_layer :
    Knowledge → Bytes × ℕ → UpdateRequest → UpdateError ⊎ (Knowledge × Option KnowledgeRow)
unfolding update_knowledge
update_layer st (layer, rowid) req =
    if equal layer (codes "episode")
    then inl episodes_are_immutable
    else if equal layer (codes "turn")
        || equal layer (codes "turn_summary")
        || equal layer (codes "document")
    then inl (not_editable layer)
    else if equal layer (codes "knowledge")
    then update_knowledge st rowid req
    else inl (not_updatable layer)

pub update_handle :
    Knowledge → UpdateRequest → Option (Bytes × ℕ) → UpdateError ⊎ (Knowledge × Option KnowledgeRow)
unfolding update_layer
update_handle st req none = inl (bad_handle req.id)
update_handle st req (some parts) = update_layer st parts req

unfoldable pub agent_update :
    Knowledge → UpdateRequest → UpdateError ⊎ (Knowledge × Option KnowledgeRow)
unfolding update_handle parse_agent_handle is_legacy_knowledge_handle is_legacy_summary_handle
agent_update st req =
    if is_given req.text
    then inl text_is_fixed
    else if is_legacy_knowledge_handle req.id
    then inl use_knowledge
    else if is_legacy_summary_handle req.id
    then inl notes_are_knowledge
    else update_handle st req (parse_agent_handle req.id)
