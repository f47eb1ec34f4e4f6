-- ===== src/Sqlite/Knowledge/Written.antt =====
-- What `store_knowledge` leaves in the tables.
use ragger_cpp.Agent.Knowledge.{KnowledgeRow, Knowledge, find_row}
use ragger_cpp.Prelude.{
  ==_iff, All, Bool-cases, Bytes, List, Option, Option-cases, [], ap, arith, codes, if◌then◌else◌,
  inl, inr, none, refl, some, subst, true, ℕ, ◌&&◌, ◌++◌, ◌+◌, ◌==◌, ◌||◌, ◌∙◌, ◌∷◌, ◌≡◌, ◌≢◌, ◌≤◌,
}
use ragger_cpp.Sqlite.Episodes.{Archive, MemberRow}
use ragger_cpp.Sqlite.Knowledge.{
  Writer, KnowledgeInput, KnowledgeResult, check_evidence, check_parent, check_input, has_summary,
  insert_knowledge_row, is_linked, link_evidence, row_of, set_status, supersede, trim,
  write_knowledge, store_knowledge,
}
use ragger_cpp.Sqlite.Paths.{normalize_path}

-- The ids are at most the counter of the table.
abbrev pub IsCounted : Knowledge → Type 0
IsCounted st = All (λ r. r.knowledge_id ≤ st.last_knowledge) st.rows

-- The row `n`, with the status "superseded" if `parent` names it.
abbrev pub after_parent : Option ℕ → ℕ → Option KnowledgeRow → Option KnowledgeRow
after_parent none n o = o
after_parent (some p) n none = none
after_parent (some p) n (some r) =
    some (if p == n then record r { status = codes "superseded" } else r)

find_row-supersede :
    (o : Option ℕ) (n : ℕ) (rows : List KnowledgeRow)
    → find_row n (supersede o rows) ≡ after_parent o n (find_row n rows)
unfolding supersede find_row set_status
find_row-supersede none n rows = refl
find_row-supersede (some p) n [] = refl
find_row-supersede (some p) n (r ∷ rows) = ground (arith, find_row-supersede (some p) n rows)

find_row-insert :
    (n last : ℕ) (rows : List KnowledgeRow) (r : KnowledgeRow)
    → All (λ q. q.knowledge_id ≤ last) rows
    → r.knowledge_id ≡ last + 1
    → find_row n (rows ++ r ∷ []) ≡ (if n == last + 1 then some r else find_row n rows)
unfolding find_row
find_row-insert n last [] r a e = ground arith
find_row-insert n last (q ∷ rows) r a e = ground (arith, a.0, find_row-insert n last rows r a.1 e)

is_linked-append :
    (id s k t : ℕ) (pairs : List (ℕ × ℕ))
    → is_linked id s (pairs ++ (k, t) ∷ []) ≡ (is_linked id s pairs || (k == id && t == s))
unfolding is_linked
is_linked-append id s k t [] = ground arith
is_linked-append id s k t ((a, b) ∷ pairs) = ground (arith, is_linked-append id s k t pairs)

is_linked-link_evidence :
    (id s : ℕ) (ss : List ℕ) (pairs : List (ℕ × ℕ))
    → is_linked id s pairs ≡ true
    → is_linked id s (link_evidence id ss pairs) ≡ true
unfolding link_evidence
is_linked-link_evidence id s [] pairs h = h
is_linked-link_evidence id s (t ∷ ss) pairs h =
    is_linked-link_evidence id s ss (if is_linked id t pairs then pairs else pairs ++ (id, t) ∷ [])
      (ground (arith, h, is_linked-append id s id t pairs))

-- The new row cites the summary, which is there and has a text.
abbrev pub Cites : ℕ → Knowledge → List MemberRow → ℕ → Type 0
Cites id st members s = (is_linked id s st.evidence ≡ true) × (has_summary s members ≡ true)

link_evidence-All :
    (id : ℕ) (ss : List ℕ) (pairs : List (ℕ × ℕ)) (members : List MemberRow)
    → check_evidence members ss ≡ none
    → All
        (λ s. (is_linked id s (link_evidence id ss pairs) ≡ true) × (has_summary s members ≡ true))
        ss
unfolding link_evidence check_evidence
link_evidence-All id [] pairs members h = tt
link_evidence-All id (s ∷ ss) pairs members h =
    let next = if is_linked id s pairs then pairs else pairs ++ (id, s) ∷ [] in
    (
      (
        is_linked-link_evidence id s ss next (ground (arith, is_linked-append id s id s pairs)),
        ground arith,
      ),
      link_evidence-All id ss next members (ground arith),
    )

check_input-parts :
    (a : Archive) (st : Knowledge) (input : KnowledgeInput) (text : Bytes)
    → check_input a st input text ≡ none
    → (check_parent st.rows input.supersedes ≡ none)
      × (check_evidence a.members input.evidence ≡ none)
unfolding check_input
check_input-parts a st input text h = (ground arith, ground arith)

missing :
    (last : ℕ) (rows : List KnowledgeRow)
    → All (λ q. q.knowledge_id ≤ last) rows
    → find_row (last + 1) rows ≡ none
unfolding find_row
missing last [] a = refl
missing last (q ∷ rows) a = ground (arith, a.0, missing last rows a.1)

-- A parent that is there is not the new row.
not_new :
    (o : Option ℕ) (st : Knowledge) (r : KnowledgeRow)
    → IsCounted st
    → check_parent st.rows o ≡ none
    → after_parent o (st.last_knowledge + 1) (some r) ≡ some r
unfolding check_parent
not_new none st r c h = refl
not_new (some p) st r c h = elim (Bool-cases (p == st.last_knowledge + 1)) [
  | inr e ↦ rw e refl
  | inl e ↦
      let gone : find_row p st.rows ≡ none =
        ap (λ n. find_row n st.rows) ((==_iff p (st.last_knowledge + 1)).0 e)
        ∙ missing st.last_knowledge st.rows c in
      absurd (ground (arith, h, gone))
]

-- What is written, for a row whose parent and evidence were checked.
abbrev Written :
    Archive → Knowledge → KnowledgeInput → KnowledgeRow → ℕ → KnowledgeResult × Knowledge → Type 0
Written a st input r n (res, st') =
    (find_row res.id st'.rows ≡ some (record r { knowledge_id = res.id }))
    × (n ≢ res.id → find_row n st'.rows ≡ after_parent input.supersedes n (find_row n st.rows))
    × All (Cites res.id st' a.members) input.evidence

write_knowledge-Written :
    (a : Archive) (st : Knowledge) (input : KnowledgeInput) (r : KnowledgeRow) (n : ℕ)
    → IsCounted st
    → check_parent st.rows input.supersedes ≡ none
    → check_evidence a.members input.evidence ≡ none
    → Written a st input r n (write_knowledge st input r)
unfolding write_knowledge insert_knowledge_row
write_knowledge-Written a st input r n c p e =
    let id = st.last_knowledge + 1 in
    let row : KnowledgeRow = record r { knowledge_id = id } in
    (
      find_row-supersede input.supersedes id (st.rows ++ row ∷ [])
          ∙ ap (after_parent input.supersedes id)
              (find_row-insert id st.last_knowledge st.rows row c refl ∙ ground arith)
          ∙ not_new input.supersedes st row c p,
      λ d.
          find_row-supersede input.supersedes n (st.rows ++ row ∷ [])
          ∙ ap (after_parent input.supersedes n)
              (find_row-insert n st.last_knowledge st.rows row c refl ∙ ground arith),
      link_evidence-All id input.evidence st.evidence a.members e,
    )

-- If `store_knowledge` accepts an input, and ids are at most the counter: the row of the id
-- returned is the one made of the input; every other row is as it was, but that the row
-- superseded has the status 'superseded'; and each summary given as evidence has a text and is
-- linked to the new row.
pub store_knowledge-written :
    (w : Writer) (a : Archive) (st st' : Knowledge) (input : KnowledgeInput) (res : KnowledgeResult)
    (n : ℕ)
    → IsCounted st
    → store_knowledge w a st input ≡ inr (res, st')
    → (find_row res.id st'.rows
        ≡ some
            (record (row_of w a input (normalize_path w.home (w.strip_prefix (trim input.text)))) {
              knowledge_id = res.id;
            }))
      × (n ≢ res.id → find_row n st'.rows ≡ after_parent input.supersedes n (find_row n st.rows))
      × All (Cites res.id st' a.members) input.evidence
unfolding store_knowledge
store_knowledge-written w a st st' input res n c h =
    let text = normalize_path w.home (w.strip_prefix (trim input.text)) in
    let r = row_of w a input text in
    elim (Option-cases (check_input a st input text)) [
      | inr (e, f) ↦ absurd (ground (arith, f))
      | inl f ↦
          let parts = check_input-parts a st input text f in
          let out : write_knowledge st input r ≡ (res, st') = ground (arith, f) in
          subst (Written a st input r n) out
            (write_knowledge-Written a st input r n c parts.0 parts.1)
    ]
