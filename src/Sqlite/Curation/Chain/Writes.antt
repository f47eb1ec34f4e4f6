-- ===== src/Sqlite/Curation/Chain/Writes.antt =====
-- The chains of `knowledge` under each of the writes.
use ragger_cpp.Agent.Knowledge.Terminal.{accepted_update, no_transition}
use ragger_cpp.Agent.Knowledge.Update.{agent_update-Accepted}
use ragger_cpp.Agent.Knowledge.{
  KnowledgeRow, Knowledge, UpdateRequest, find_row, agent_update, update_rows,
}
use ragger_cpp.Agent.Status.{transition_ok}
use ragger_cpp.Prelude.{
  ==_iff, All, Bool, Bool-cases, Bytes, List, Option, Option-cases, ap, arith, codes, if◌then◌else◌,
  inl, inr, later, none, refl, some, some-injective, subst, sym, true, ℕ, ◌<◌, ◌==◌, ◌∙◌, ◌≡◌, ◌≢◌,
}
use ragger_cpp.Sqlite.Curation.Chain.{IsChained, IsLinear, insert_root, write-IsLinear}
use ragger_cpp.Sqlite.Paths.{normalize_path}
use ragger_cpp.Sqlite.Curation.Rows.{
  with_status, children, IsOrdered, has_child-children, find_row-set_status, children-set_status,
  set_status-All, children-update_rows, update_rows-All, children-delete_rows, delete_rows-All,
  find_row-delete_rows,
}
use ragger_cpp.Sqlite.Curation.{
  store, store_decision, decision_row, note_row, set_decision_status, decision_status, delete_rows,
  delete_batch,
}
use ragger_cpp.Sqlite.Episodes.{Archive}
use ragger_cpp.Sqlite.Knowledge.{
  Writer, KnowledgeInput, Metadata, KnowledgeResult, check_parent, check_input, row_of, trim,
  insert_knowledge_row, set_status, write_knowledge, store_knowledge,
}

-- Chains and counter do not read the other columns of the state.
Same : Knowledge → Knowledge → Type 0
Same st st' = (st'.rows ≡ st.rows) × (st'.last_knowledge ≡ st.last_knowledge)

moved : (st st' : Knowledge) → Same st st' → IsLinear st → IsLinear st'
unfolding Same
moved st st' (r, c) l =
    subst (λ n. IsChained st'.rows × All (IsOrdered n) st'.rows) (sym c)
      (subst (λ rows. IsChained rows × All (IsOrdered st.last_knowledge) rows) (sym r) l)

check_input-parent :
    (a : Archive) (st : Knowledge) (input : KnowledgeInput) (text : Bytes)
    → check_input a st input text ≡ none
    → check_parent st.rows input.supersedes ≡ none
unfolding check_input
check_input-parent a st input text h = ground arith

pub store_knowledge-IsLinear :
    (w : Writer) (a : Archive) (st st' : Knowledge) (input : KnowledgeInput) (res : KnowledgeResult)
    → store_knowledge w a st input ≡ inr (res, st')
    → IsLinear st
    → IsLinear st'
unfolding store_knowledge row_of
store_knowledge-IsLinear w a st st' input res h l =
    let text = normalize_path w.home (w.strip_prefix (trim input.text)) in
    elim (Option-cases (check_input a st input text)) [
      | inr (e, f) ↦ absurd (ground (arith, f))
      | inl f ↦
          let written : (write_knowledge st input (row_of w a input text)).1 ≡ st' =
            ground (arith, f) in
          subst IsLinear written (
            write-IsLinear st input (row_of w a input text) input.supersedes refl refl
              (check_input-parent a st input text f) l)
    ]

pub store_decision-IsLinear :
    (w : Writer) (st st' : Knowledge) (text status tags time : Bytes) (later : Bool) (id : ℕ)
    → store_decision w st text status tags time later ≡ inr (id, st')
    → IsLinear st
    → IsLinear st'
unfolding store_decision decision_row Same
store_decision-IsLinear w st st' text status tags time later id h l =
    let r = decision_row w text status tags time later in
    moved (insert_knowledge_row r st).1 st' (ground (arith, h), ground (arith, h))
      (insert_root st r refl l)

pub store-IsLinear :
    (w : Writer) (a : Archive) (st st' : Knowledge) (raw : Bytes) (m : Metadata) (later : Bool)
    (id : ℕ)
    → store w a st raw m later ≡ inr (id, st')
    → IsLinear st
    → IsLinear st'
unfolding store note_row Same
store-IsLinear w a st st' raw m later id h l =
    let r = note_row w a raw m later in
    moved (insert_knowledge_row r st).1 st' (ground (arith, h), ground (arith, h))
      (insert_root st r refl l)

set_status-IsLinear :
    (st : Knowledge) (n : ℕ) (s : Bytes) (r : KnowledgeRow)
    → find_row n st.rows ≡ some r
    → r.status ≢ codes "superseded"
    → IsLinear st
    → IsLinear (record st { rows = set_status n s st.rows })
set_status-IsLinear st n s r f d (c, a) = (chained, set_status-All st.last_knowledge n s st.rows a)
  where
    untouched :
        (m : ℕ) (t : KnowledgeRow)
        → find_row m st.rows ≡ some t
        → t.status ≡ codes "superseded"
        → (if m == n then with_status s (find_row m st.rows) else find_row m st.rows) ≡ some t
    untouched m t found status = elim (Bool-cases (m == n)) [
      | inr away ↦ rw away found
      | inl one ↦
          let same : find_row m st.rows ≡ some r =
            ap (λ k. find_row k st.rows) ((==_iff m n).0 one) ∙ f in
          absurd (
            d (
              ap (λ (x : KnowledgeRow). x.status) (some-injective r t (sym same ∙ found)) ∙ status))
    ]

    chained : IsChained (set_status n s st.rows)
    chained m h =
        let count = children-set_status m n s st.rows in
        let (one, (t, found, status)) = c m (λ z. h (count ∙ z)) in
        (count ∙ one, (t, find_row-set_status m n s st.rows ∙ untouched m t found status, status))

decision_status-found :
    (n : ℕ) (rows : List KnowledgeRow) (old : Bytes)
    → decision_status n rows ≡ some old
    → (r : KnowledgeRow) × (find_row n rows ≡ some r) × (r.status ≡ old)
unfolding decision_status
decision_status-found n rows old h = elim (Option-cases (find_row n rows)) [
  | inl e ↦ absurd (ground (arith, e, h))
  | inr (r, e) ↦ (r, e, ground (arith, e, h))
]

pub set_decision_status-IsLinear :
    (st st' : Knowledge) (n : ℕ) (status : Bytes) (done : Bool)
    → set_decision_status st n status ≡ inr (done, st')
    → IsLinear st
    → IsLinear st'
unfolding set_decision_status Same
set_decision_status-IsLinear st st' n status done h l =
    elim (Option-cases (decision_status n st.rows)) [
      | inl e ↦ moved st st' (ground (arith, e, h), ground (arith, e, h)) l
      | inr (old, e) ↦
          let (r, found, same) = decision_status-found n st.rows old e in
          let allowed : transition_ok old status ≡ true = ground (arith, e, h) in
          let open_row : r.status ≢ codes "superseded" =
            λ z. absurd (cc (allowed, no_transition old status (inr (sym same ∙ z)))) in
          moved (record st { rows = set_status n status st.rows }) st'
            (ground (arith, e, h), ground (arith, e, h))
            (set_status-IsLinear st n status r found open_row l)
    ]

delete_rows-IsLinear :
    (st : Knowledge) (ids : List ℕ)
    → IsLinear st
    → IsLinear (record st { rows = (delete_rows ids st.rows st.rows).1 })
delete_rows-IsLinear st ids (c, a) =
    (chained, delete_rows-All (IsOrdered st.last_knowledge) ids st.rows st.rows a)
  where
    chained : IsChained (delete_rows ids st.rows st.rows).1
    chained m h =
        let fewer = children-delete_rows m ids st.rows st.rows in
        let before : children m st.rows ≢ 0 = λ z. h (omega (arith, fewer, z)) in
        let (one, (t, found, status)) = c m before in
        (
          omega (arith, fewer, one, pos (children m (delete_rows ids st.rows st.rows).1) h),
          (
            t,
            find_row-delete_rows m ids st.rows st.rows (has_child-children m st.rows before)
                ∙ found,
            status,
          ),
        )
      where
        pos : (k : ℕ) → k ≢ 0 → 0 < k
        pos k d = omega arith

pub delete_batch-IsLinear :
    (st : Knowledge) (ids : List ℕ) → IsLinear st → IsLinear (delete_batch st ids).1
unfolding delete_batch
delete_batch-IsLinear st ids l = elim (Bool-cases ((delete_rows ids st.rows st.rows).0 == 0)) [
  | inl e ↦ rw e l
  | inr e ↦ rw e (delete_rows-IsLinear st ids l)
]

pub agent_update-IsLinear :
    (st st' : Knowledge) (req : UpdateRequest) (row : Option KnowledgeRow)
    → agent_update st req ≡ inr (st', row)
    → IsLinear st
    → IsLinear st'
agent_update-IsLinear st st' req row h (c, a) =
    let k = agent_update-Accepted st st' req row h in
    (
      chained k.row_id k.changes,
      subst (λ n. All (IsOrdered n) st'.rows) (sym k.counter)
          (subst (All (IsOrdered st.last_knowledge)) (sym k.changes)
            (update_rows-All st.last_knowledge k.row_id req st.rows a)),
    )
  where
    chained : (n : ℕ) → st'.rows ≡ update_rows n req st.rows → IsChained st'.rows
    chained n e m d =
        let count : children m st'.rows ≡ children m st.rows =
          ap (children m) e ∙ children-update_rows m n req st.rows in
        let (one, (t, found, status)) = c m (λ z. d (count ∙ z)) in
        let (t', found', status') = accepted_update st st' req row m t h (inr status) found in
        (count ∙ one, (t', found', status' ∙ status))
