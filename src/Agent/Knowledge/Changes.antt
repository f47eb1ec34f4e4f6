-- ===== src/Agent/Knowledge/Changes.antt =====
-- How the table changes under `agent_update`.
use ragger_cpp.Agent.Handle.{parse_agent_handle, is_one_of}
use ragger_cpp.Agent.Status.{transition_ok, targets}
use ragger_cpp.Agent.Knowledge.Update.{agent_update-Accepted, check_status-cases}
use ragger_cpp.Agent.Knowledge.{
  KnowledgeRow, Knowledge, UpdateRequest, find_row, check_status, given, update_rows, agent_update,
  update_knowledge, is_given,
}
use ragger_cpp.Prelude.{
  Bool-cases, Bytes, List, Option, [], ap, arith, codes, equal, false, inl, inr, map, none, refl,
  some, subst, true, ℕ, ◌==◌, ◌∙◌, ◌∷◌, ◌≡◌, ◌≢◌,
}

-- The row after the update.
abbrev pub set_row : UpdateRequest → KnowledgeRow → KnowledgeRow
set_row req r = record r { status = given req.status r.status; tags = given req.tags r.tags }

pub find_row-update_rows :
    (n : ℕ) (req : UpdateRequest) (rows : List KnowledgeRow) (r : KnowledgeRow)
    → find_row n rows ≡ some r
    → find_row n (update_rows n req rows) ≡ some (set_row req r)
unfolding find_row update_rows
find_row-update_rows n req [] r h = cc
find_row-update_rows n req (q ∷ rows) r h = elim (Bool-cases (q.knowledge_id == n)) [
  | inl e ↦
      let same : q ≡ r = ground (arith, e) in rw e (rw e (ap (λ x. some (set_row req x)) same))
  | inr e ↦ rw e (rw e (find_row-update_rows n req rows r (ground (arith, e))))
]

pub find_row-update_rows_other :
    (m n : ℕ) (req : UpdateRequest) (rows : List KnowledgeRow)
    → m ≢ n
    → find_row m (update_rows n req rows) ≡ find_row m rows
unfolding find_row update_rows
find_row-update_rows_other m n req [] d = refl
find_row-update_rows_other m n req (q ∷ rows) d =
    ground (arith, find_row-update_rows_other m n req rows d)

-- What an update never touches in a row.
abbrev pub frozen : KnowledgeRow → ℕ × Bytes × Bytes × ℕ
frozen r = (r.knowledge_id, r.trigger, r.text, r.created_at)

frozen-update_rows :
    (n : ℕ) (req : UpdateRequest) (rows : List KnowledgeRow)
    → map frozen (update_rows n req rows) ≡ map frozen rows
unfolding update_rows
frozen-update_rows n req [] = refl
frozen-update_rows n req (q ∷ rows) = elim (Bool-cases (q.knowledge_id == n)) [
  | inl e ↦ rw e (ap (◌∷◌ (frozen q)) (frozen-update_rows n req rows))
  | inr e ↦ rw e (ap (◌∷◌ (frozen q)) (frozen-update_rows n req rows))
]

-- An accepted update leaves the id, the trigger, the text and the date of every row of
-- `knowledge` as they were, leaves the row of any id that its handle does not name, and
-- invalidates the search cache.
pub agent_update-frozen :
    (st st' : Knowledge) (req : UpdateRequest) (row : Option KnowledgeRow) (m : ℕ)
    → agent_update st req ≡ inr (st', row)
    → parse_agent_handle req.id ≢ some (codes "knowledge", m)
    → (map frozen st'.rows ≡ map frozen st.rows)
      × (find_row m st'.rows ≡ find_row m st.rows)
      × (st'.cached ≡ false)
agent_update-frozen st st' req row m h d =
    let a = agent_update-Accepted st st' req row h in
    (
      rw a.changes (frozen-update_rows a.row_id req st.rows),
      rw a.changes (find_row-update_rows_other m a.row_id req st.rows (λ e. d (rw e a.names))),
      a.stale,
    )

-- If an update that asks for a status is accepted, its handle names a row of `knowledge` that
-- is there, the transition from the row's status to the new one is in the table, and
-- afterwards that row has the new status and the tags given, and is otherwise the same.
pub agent_update-transition_ok :
    (st st' : Knowledge) (req : UpdateRequest) (row : Option KnowledgeRow) (s : Bytes)
    → agent_update st req ≡ inr (st', row)
    → req.status ≡ some s
    → (n : ℕ) × (old : KnowledgeRow) × (parse_agent_handle req.id ≡ some (codes "knowledge", n))
      × (find_row n st.rows ≡ some old)
      × (transition_ok old.status s ≡ true)
      × (find_row n st'.rows ≡ some (record old { status = s; tags = given req.tags old.tags }))
agent_update-transition_ok st st' req row s h k =
    let a = agent_update-Accepted st st' req row h in
    let c : check_status a.old.status (some s) ≡ none =
      subst (λ o. check_status a.old.status o ≡ none) k a.checked in
    let f : find_row a.row_id st'.rows ≡ some (set_row req a.old) =
      rw a.changes (find_row-update_rows a.row_id req st.rows a.old a.found) in
    (
      a.row_id,
      a.old,
      a.names,
      a.found,
      check_status-cases a.old.status s c,
      f
          ∙ ap
              (λ o.
                some (record a.old {
                  status = given o a.old.status;
                  tags = given req.tags a.old.tags;
                }))
              k,
    )

-- A row whose status may change is changed.
pub update_knowledge-set_row :
    (st : Knowledge) (n : ℕ) (req : UpdateRequest) (r : KnowledgeRow)
    → find_row n st.rows ≡ some r
    → check_status r.status req.status ≡ none
    → is_given req.status ≡ true
    → (st' : Knowledge) × (update_knowledge st n req ≡ inr (st', some (set_row req r)))
unfolding update_knowledge
update_knowledge-set_row st n req r f c g =
    let found = find_row-update_rows n req st.rows r f in
    (record st { rows = update_rows n req st.rows; cached = false }, ground (arith, f, c, g, found))

pub pending-current : check_status (codes "pending") (some (codes "current")) ≡ none
unfolding check_status transition_ok targets is_one_of equal
pending-current = refl
