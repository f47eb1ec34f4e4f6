-- ===== src/Sqlite/Curation/Chain.antt =====
-- The chains of rows of `knowledge` that supersede one another, under inserts.
pub mod Writes
pub mod Steps
use ragger_cpp.Agent.Knowledge.Changes.{find_row-update_rows_other}
use ragger_cpp.Agent.Knowledge.Terminal.{accepted_update, no_transition}
use ragger_cpp.Agent.Knowledge.Update.{agent_update-Accepted}
use ragger_cpp.Agent.Knowledge.{KnowledgeRow, Knowledge, UpdateRequest, find_row, agent_update}
use ragger_cpp.Agent.Status.{transition_ok}
use ragger_cpp.Prelude.{
  ==_iff, All, All-append, All-imp, Bool-cases, Bytes, List, Option, Option-cases, [], ap, arith,
  codes, equal, false, if◌then◌else◌, inl, inr, none, refl, some, some-injective, suc, sym, zero, ℕ,
  ◌++◌, ◌+◌, ◌<◌, ◌==◌, ◌∙◌, ◌∷◌, ◌≡◌, ◌≢◌,
}
use ragger_cpp.Sqlite.Curation.Rows.{
  children, IsOrdered, has_child-children, children-append, find_row-append, find_row-id,
  find_row-All, with_status, find_row-set_status, children-set_status, set_status-All,
  children-update_rows, update_rows-All, children-delete_rows, delete_rows-All,
  find_row-delete_rows,
}
use ragger_cpp.Sqlite.Curation.{
  is_parent, is_kind, has_child, decision_status, store, store_decision, set_decision_status,
  delete_rows, delete_batch, delete_memory,
}
use ragger_cpp.Sqlite.Episodes.{Archive}
use ragger_cpp.Sqlite.Knowledge.{
  Writer, KnowledgeInput, Metadata, KnowledgeResult, KnowledgeError, is_done, check_parent,
  insert_knowledge_row, set_status, supersede, row_of, write_knowledge, check_input,
  store_knowledge,
}

abbrev pub IsSuperseded : ℕ → List KnowledgeRow → Type 0
IsSuperseded n rows =
    (r : KnowledgeRow) × (find_row n rows ≡ some r) × (r.status ≡ codes "superseded")

-- A row that others supersede is there and is marked so, and one row supersedes it.
abbrev pub IsChained : List KnowledgeRow → Type 0
IsChained rows = (n : ℕ) → children n rows ≢ 0 → (children n rows ≡ 1) × IsSuperseded n rows

abbrev pub IsLinear : Knowledge → Type 0
IsLinear st = IsChained st.rows × All (IsOrdered st.last_knowledge) st.rows

is_parent-none : (n : ℕ) (r : KnowledgeRow) → r.supersedes ≡ none → is_parent n r ≡ false
is_parent-none n r e = rw e refl

is_parent-some : (n p : ℕ) (r : KnowledgeRow) → r.supersedes ≡ some p → is_parent n r ≡ (p == n)
is_parent-some n p r e = rw e refl

append_root :
    (rows : List KnowledgeRow) (r : KnowledgeRow)
    → r.supersedes ≡ none
    → IsChained rows
    → IsChained (rows ++ r ∷ [])
append_root rows r e c n h =
    let count : children n (rows ++ r ∷ []) ≡ children n rows =
      ground (arith, children-append n rows r, is_parent-none n r e) in
    let (one, (q, found, status)) = c n (λ z. h (count ∙ z)) in
    (count ∙ one, (q, find_row-append n rows r q found, status))

append_child :
    (rows : List KnowledgeRow) (r q : KnowledgeRow) (p : ℕ)
    → r.supersedes ≡ some p
    → find_row p rows ≡ some q
    → q.status ≢ codes "superseded"
    → IsChained rows
    → IsChained (set_status p (codes "superseded") (rows ++ r ∷ []))
append_child rows r q p e f d c n h = elim (Bool-cases (p == n)) [
  | inl here ↦
      let same : p ≡ n = (==_iff p n).0 here in
      let none_yet : (k : ℕ) → children p rows ≡ k → k ≡ 0 = λ k. first_child k in
      (
        total
            ∙ ground (arith, here, none_yet (children p rows) refl, ap (λ m. children m rows) same),
        (
          record q { status = codes "superseded" },
          ap (λ m. find_row m (set_status p (codes "superseded") (rows ++ r ∷ []))) (sym same)
              ∙ find_row-set_status p p (codes "superseded") (rows ++ r ∷ [])
              ∙ rw (find_row-append p rows r q f) (ground arith),
          refl,
        ),
      )
  | inr there ↦
      let count : children n rows ≢ 0 = λ z. h (total ∙ ground (arith, there, z)) in
      let (one, (t, found, status)) = c n count in
      (
        total ∙ ground (arith, there, one),
        (
          t,
          find_row-set_status n p (codes "superseded") (rows ++ r ∷ [])
              ∙ rw (find_row-append n rows r t found) (ground (arith, there)),
          status,
        ),
      )
]
  where
    total :
        children n (set_status p (codes "superseded") (rows ++ r ∷ []))
        ≡ children n rows + (if p == n then 1 else 0)
    total =
        children-set_status n p (codes "superseded") (rows ++ r ∷ [])
        ∙ children-append n rows r
        ∙ ap (λ b. children n rows + (if b then 1 else 0)) (is_parent-some n p r e)

    first_child : (k : ℕ) → children p rows ≡ k → k ≡ 0
    first_child zero z = refl
    first_child (suc k) z =
        let (one, (t, found, status)) = c p (λ w. absurd (ground (arith, z, w))) in
        absurd
          (d (ap (λ (x : KnowledgeRow). x.status) (some-injective q t (sym f ∙ found)) ∙ status))

append-IsOrdered :
    (last : ℕ) (rows : List KnowledgeRow) (r : KnowledgeRow)
    → IsOrdered (last + 1) r
    → All (IsOrdered last) rows
    → All (IsOrdered (last + 1)) (rows ++ r ∷ [])
append-IsOrdered last rows r o a =
    All-append (IsOrdered (last + 1)) rows (r ∷ [])
      (All-imp (IsOrdered last) (IsOrdered (last + 1)) (λ q k. (omega (arith, k.0), k.1)) rows a)
      (o, tt)

insert_root :
    (st : Knowledge) (r : KnowledgeRow)
    → r.supersedes ≡ none
    → IsLinear st
    → IsLinear (insert_knowledge_row r st).1
unfolding insert_knowledge_row
insert_root st r e (c, a) =
    let row : KnowledgeRow = record r { knowledge_id = st.last_knowledge + 1 } in
    (
      append_root st.rows row e c,
      append-IsOrdered st.last_knowledge st.rows row (omega arith, rw e tt) a,
    )

check_parent-none :
    (rows : List KnowledgeRow) (p : ℕ)
    → check_parent rows (some p) ≡ none
    → (q : KnowledgeRow) × (find_row p rows ≡ some q) × (is_done q.status ≡ false)
unfolding check_parent
check_parent-none rows p h = elim (Option-cases (find_row p rows)) [
  | inl e ↦ absurd (ground (arith, e))
  | inr (q, e) ↦ (q, e, ground (arith, e))
]

not_done : (s : Bytes) → is_done s ≡ false → s ≢ codes "superseded"
unfolding equal
not_done s h e = absurd (cc (ap is_done e))

write-IsLinear :
    (st : Knowledge) (input : KnowledgeInput) (r : KnowledgeRow) (o : Option ℕ)
    → input.supersedes ≡ o
    → r.supersedes ≡ o
    → check_parent st.rows o ≡ none
    → IsLinear st
    → IsLinear (write_knowledge st input r).1
unfolding write_knowledge insert_knowledge_row supersede
write-IsLinear st input r none i e k l = rw i (insert_root st r e l)
write-IsLinear st input r (some p) i e k (c, a) =
    let row : KnowledgeRow = record r { knowledge_id = st.last_knowledge + 1 } in
    let (q, found, open_status) = check_parent-none st.rows p k in
    let bound : p < st.last_knowledge + 1 = omega (
      arith,
      (find_row-All (IsOrdered st.last_knowledge) p st.rows q a found).0,
      find_row-id p st.rows q found,
    ) in
    rw i (
      append_child st.rows row q p e found (not_done q.status open_status) c,
      set_status-All (st.last_knowledge + 1) p (codes "superseded") (st.rows ++ row ∷ [])
          (append-IsOrdered st.last_knowledge st.rows row (omega arith, rw e bound) a),
    )
