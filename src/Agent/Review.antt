-- ===== src/Agent/Review.antt =====
-- `agent_review` of src/sqlite/agent_write.cpp: the queue of pending knowledge rows.
pub mod Queue
pub mod Decisions
use ragger_cpp.Agent.Handle.Decimal.{decimal}
use ragger_cpp.Agent.Handle.{colon}
use ragger_cpp.Agent.Knowledge.{KnowledgeRow, Knowledge, UpdateRequest, UpdateError, agent_update}
use ragger_cpp.Agent.Snippet.{agent_snippet}
use ragger_cpp.Prelude.{
  Bool, Bytes, List, [], codes, equal, find, if◌then◌else◌, inl, inr, ltb, none, not, null, some, ℕ,
  ◌&&◌, ◌++◌, ◌+◌, ◌∷◌,
}

-- `std::format("knowledge:{}", id)`
abbrev pub handle_of : ℕ → Bytes
handle_of n = codes "knowledge" ++ b':' ∷ decimal (n + 1) n

-- One entry of the list, with the time that it is sorted by.
pub record ReviewItem : Type 0 where
  pub id : Bytes
  pub trigger : Bytes
  pub snippet : Bytes
  pub created : ℕ

pub item_of : KnowledgeRow → ReviewItem
unfolding agent_snippet
item_of r = record {
  id = handle_of r.knowledge_id;
  trigger = r.trigger;
  snippet = agent_snippet r.text;
  created = r.created_at;
}

-- The stable sort: among equal times, the order of the table.
pub insert_item : ReviewItem → List ReviewItem → List ReviewItem
insert_item x [] = x ∷ []
insert_item x (y ∷ ys) = if ltb y.created x.created then y ∷ insert_item x ys else x ∷ y ∷ ys

abbrev pub is_pending_row : KnowledgeRow → Bool
is_pending_row r = equal r.status (codes "pending")

pub pending_items : List KnowledgeRow → List ReviewItem
unfolding item_of insert_item
pending_items [] = []
pending_items (r ∷ rows) =
    let rest = pending_items rows in if is_pending_row r then insert_item (item_of r) rest else rest

-- "knowledge:<id>" or the number alone.
pub full_handle : Bytes → Bytes
full_handle raw = elim (find colon raw) [ none ↦ codes "knowledge:" ++ raw | some _ ↦ raw ]

abbrev pub request_for : Bytes → Bytes → UpdateRequest
request_for to raw = record { id = full_handle raw; status = some to; tags = none; text = none }

-- What an approval or a rejection leaves: the table, the ids done and those that failed.
pub record Decided : Type 0 where
  pub knowledge : Knowledge
  pub done : List Bytes
  pub failed : List (Bytes × UpdateError)

-- The loop over the ids: one that is refused fails alone.
pub decide : Bytes → Knowledge → List Bytes → Decided
unfolding agent_update full_handle
decide to st [] = record { knowledge = st; done = []; failed = [] }
decide to st (raw ∷ ids) = elim (agent_update st (request_for to raw)) [
  | inl e ↦ let rest = decide to st ids in record rest { failed = (raw, e) ∷ rest.failed }
  | inr out ↦ let rest = decide to out.0 ids in record rest { done = raw ∷ rest.done }
]

pub data Review : Type 0 where
  bad_action : Review
  ids_required : Review
  listed : List ReviewItem → Review
  decided : Decided → Review

unfoldable pub agent_review : Knowledge → Bytes → List Bytes → Review
unfolding decide pending_items
agent_review st action ids =
    if equal action (codes "list")
    then listed (pending_items st.rows)
    else if not (equal action (codes "approve")) && not (equal action (codes "reject"))
    then bad_action
    else if null ids
    then ids_required
    else decided (
        decide (if equal action (codes "approve") then codes "current" else codes "retired") st ids)
