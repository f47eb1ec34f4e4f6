-- ===== src/Agent/Knowledge/Update.antt =====
-- What an accepted `agent_update` did.
use ragger_cpp.Agent.Handle.Legacy.{parse_agent_handle-legacy}
use ragger_cpp.Agent.Handle.{parse_agent_handle}
use ragger_cpp.Agent.Status.{transition_ok}
use ragger_cpp.Agent.Knowledge.{
  KnowledgeRow, Knowledge, UpdateRequest, find_row, check_status, is_given, update_rows,
  update_knowledge, update_layer, update_handle, agent_update,
}
use ragger_cpp.Prelude.{
  Bytes, Option, Option-cases, ap, arith, codes, equal, equal_iff, false, inl, inr, none, refl,
  some, true, ℕ, ◌∙◌, ◌≡◌,
}

-- The row updated, its state before, and that the request was one that the rules allow.
pub record Accepted (st : Knowledge) (req : UpdateRequest) (st' : Knowledge) : Type 0 where
  pub row_id : ℕ
  pub old : KnowledgeRow
  pub names : parse_agent_handle req.id ≡ some (codes "knowledge", row_id)
  pub found : find_row row_id st.rows ≡ some old
  pub checked : check_status old.status req.status ≡ none
  pub changes : st'.rows ≡ update_rows row_id req st.rows
  pub stale : st'.cached ≡ false
  pub counter : st'.last_knowledge ≡ st.last_knowledge
  pub no_text : req.text ≡ none

pub check_status-cases :
    (old : Bytes) (s : Bytes) → check_status old (some s) ≡ none → transition_ok old s ≡ true
unfolding check_status
check_status-cases old s h = ground arith

update_knowledge-inr :
    (st st' : Knowledge) (n : ℕ) (req : UpdateRequest) (row : Option KnowledgeRow)
    → update_knowledge st n req ≡ inr (st', row)
    → (old : KnowledgeRow) × (find_row n st.rows ≡ some old)
      × (check_status old.status req.status ≡ none)
      × (st'.rows ≡ update_rows n req st.rows)
      × (st'.cached ≡ false)
      × (st'.last_knowledge ≡ st.last_knowledge)
unfolding update_knowledge
update_knowledge-inr st st' n req row h = elim (Option-cases (find_row n st.rows)) [
  | inl e ↦ absurd (ground (arith, e))
  | inr (old, e) ↦ elim (Option-cases (check_status old.status req.status)) [
    | inr (w, f) ↦ absurd (ground (arith, e, f))
    | inl f ↦ (old, e, f, ground (arith, e, f), ground (arith, e, f), ground (arith, e, f))
  ]
]

update_layer-inr :
    (st : Knowledge) (layer : Bytes) (n : ℕ) (req : UpdateRequest)
    (out : Knowledge × Option KnowledgeRow)
    → update_layer st (layer, n) req ≡ inr out
    → (layer ≡ codes "knowledge") × (update_knowledge st n req ≡ inr out)
unfolding update_layer
update_layer-inr st layer n req out h = ground (arith, (equal_iff layer (codes "knowledge")).0)

update_handle-inr :
    (st : Knowledge) (req : UpdateRequest) (o : Option (Bytes × ℕ))
    (out : Knowledge × Option KnowledgeRow)
    → update_handle st req o ≡ inr out
    → (n : ℕ) × (o ≡ some (codes "knowledge", n)) × (update_knowledge st n req ≡ inr out)
unfolding update_handle
update_handle-inr st req none out h = cc
update_handle-inr st req (some (layer, n)) out h =
    let (l, k) = update_layer-inr st layer n req out h in (n, ap (λ s. some (s, n)) l, k)

agent_update-inr :
    (st : Knowledge) (req : UpdateRequest) (out : Knowledge × Option KnowledgeRow)
    → agent_update st req ≡ inr out
    → (is_given req.text ≡ false) × (update_handle st req (parse_agent_handle req.id) ≡ inr out)
unfolding agent_update
agent_update-inr st req out h = ground arith

pub knowledge_layer :
    (st : Knowledge) (n : ℕ) (req : UpdateRequest)
    → update_handle st req (some (codes "knowledge", n)) ≡ update_knowledge st n req
unfolding update_handle update_layer equal
knowledge_layer st n req = refl

-- Nothing but the table decides whether the same request is accepted.
pub agent_update-same :
    (st st2 : Knowledge) (req : UpdateRequest) (out : Knowledge × Option KnowledgeRow) (n : ℕ)
    → agent_update st req ≡ inr out
    → parse_agent_handle req.id ≡ some (codes "knowledge", n)
    → agent_update st2 req ≡ update_knowledge st2 n req
unfolding agent_update
agent_update-same st st2 req out n h k = accepted ∙ rw k (knowledge_layer st2 n req)
  where
    accepted : agent_update st2 req ≡ update_handle st2 req (parse_agent_handle req.id)
    accepted = ground (arith, h)

given-none : (o : Option Bytes) → is_given o ≡ false → o ≡ none
given-none none h = refl
given-none (some s) h = cc

pub agent_update-Accepted :
    (st st' : Knowledge) (req : UpdateRequest) (row : Option KnowledgeRow)
    → agent_update st req ≡ inr (st', row)
    → Accepted st req st'
agent_update-Accepted st st' req row h =
    let a = agent_update-inr st req (st', row) h in
    let b = update_handle-inr st req (parse_agent_handle req.id) (st', row) a.1 in
    let c = update_knowledge-inr st st' b.0 req row b.2 in
    record {
      row_id = b.0;
      old = c.0;
      names = b.1;
      found = c.1;
      checked = c.2;
      changes = c.3;
      stale = c.4;
      counter = c.5;
      no_text = given-none req.text a.0;
    }

-- A request for a row of the layer, without a text, is decided by the row.
pub agent_update-accepts :
    (st : Knowledge) (req : UpdateRequest) (n : ℕ)
    → req.text ≡ none
    → parse_agent_handle req.id ≡ some (codes "knowledge", n)
    → agent_update st req ≡ update_knowledge st n req
unfolding agent_update
agent_update-accepts st req n t k =
    let legacy = parse_agent_handle-legacy req.id (codes "knowledge") n k in
    rw (t, legacy.0, legacy.1) (rw k (knowledge_layer st n req))
