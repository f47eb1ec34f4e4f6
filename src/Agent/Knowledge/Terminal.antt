-- ===== src/Agent/Knowledge/Terminal.antt =====
-- Statuses that an update cannot leave, and updates that cannot be made twice.
use ragger_cpp.Agent.Handle.{is_one_of}
use ragger_cpp.Agent.Knowledge.Changes.{set_row, find_row-update_rows, find_row-update_rows_other}
use ragger_cpp.Agent.Knowledge.Update.{agent_update-Accepted, check_status-cases}
use ragger_cpp.Agent.Knowledge.{
  KnowledgeRow, Knowledge, UpdateRequest, UpdateError, find_row, check_status, given, agent_update,
}
use ragger_cpp.Agent.Status.{transition_ok, targets}
use ragger_cpp.Prelude.{
  Bool-cases, Bytes, List, Option, [], ap, arith, codes, equal, false, inl, inr, none, refl, some,
  some-injective, subst, sym, true, ℕ, ◌==◌, ◌∙◌, ◌∷◌, ◌≡◌, ◌⊎◌,
}

-- The table that the requests leave behind, one after the other; one that is refused changes nothing.
abbrev pub after : Knowledge → UpdateError ⊎ (Knowledge × Option KnowledgeRow) → Knowledge
after st (inl e) = st
after st (inr (st', row)) = st'

abbrev pub updates : Knowledge → List UpdateRequest → Knowledge
updates st [] = st
updates st (req ∷ reqs) = updates (after st (agent_update st req)) reqs

abbrev pub IsTerminal : Bytes → Type 0
IsTerminal s = (s ≡ codes "retired") ⊎ (s ≡ codes "superseded")

pub no_transition : (old s : Bytes) → IsTerminal old → transition_ok old s ≡ false
unfolding transition_ok targets is_one_of equal
no_transition old s (inl e) = rw e refl
no_transition old s (inr e) = rw e refl

check_status-none :
    (old : Bytes) (o : Option Bytes) → IsTerminal old → check_status old o ≡ none → o ≡ none
check_status-none old none t h = refl
check_status-none old (some s) t h =
    absurd (no_both (no_transition old s t) (check_status-cases old s h))
  where
    no_both : transition_ok old s ≡ false → transition_ok old s ≡ true → ⊥
    no_both p q = cc

given_status : (old : Bytes) (o : Option Bytes) → o ≡ none → given o old ≡ old
given_status old o e = ap (λ x. given x old) e

-- An accepted request leaves the status of the row.
pub accepted_update :
    (st st' : Knowledge) (req : UpdateRequest) (row : Option KnowledgeRow) (n : ℕ)
    (r : KnowledgeRow)
    → agent_update st req ≡ inr (st', row)
    → IsTerminal r.status
    → find_row n st.rows ≡ some r
    → (r' : KnowledgeRow) × (find_row n st'.rows ≡ some r') × (r'.status ≡ r.status)
accepted_update st st' req row n r o t h =
    let a = agent_update-Accepted st st' req row o in
    elim (Bool-cases (n == a.row_id)) [
      | inr e ↦ (
        r,
        rw a.changes (
            find_row-update_rows_other n a.row_id req st.rows (λ p. absurd (ground (arith, p, e)))
            ∙ h),
        refl,
      )
      | inl e ↦
          let same : a.row_id ≡ n = ground arith in
          let old : r ≡ a.old =
            some-injective r a.old (sym h ∙ ap (λ m. find_row m st.rows) (sym same) ∙ a.found) in
          let quiet =
            check_status-none a.old.status req.status (subst (λ q. IsTerminal q.status) old t)
              a.checked in
          (
            set_row req r,
            rw a.changes (rw same (find_row-update_rows n req st.rows r h)),
            given_status r.status req.status quiet,
          )
    ]

one_update :
    (st : Knowledge) (req : UpdateRequest) (n : ℕ) (r : KnowledgeRow)
    (out : UpdateError ⊎ (Knowledge × Option KnowledgeRow))
    → agent_update st req ≡ out
    → IsTerminal r.status
    → find_row n st.rows ≡ some r
    → (r' : KnowledgeRow) × (find_row n (after st out).rows ≡ some r') × (r'.status ≡ r.status)
one_update st req n r (inl e) o t h = (r, h, refl)
one_update st req n r (inr (st', row)) o t h = accepted_update st st' req row n r o t h

-- No sequence of update requests, accepted or refused, changes the status of a row of
-- `knowledge` that is retired or superseded.
pub updates-terminal :
    (st : Knowledge) (reqs : List UpdateRequest) (n : ℕ) (r : KnowledgeRow)
    → IsTerminal r.status
    → find_row n st.rows ≡ some r
    → (r' : KnowledgeRow) × (find_row n (updates st reqs).rows ≡ some r') × (r'.status ≡ r.status)
updates-terminal st [] n r t h = (r, h, refl)
updates-terminal st (req ∷ reqs) n r t h =
    let a = one_update st req n r (agent_update st req) refl t h in
    let b =
      updates-terminal (after st (agent_update st req)) reqs n a.0 (subst IsTerminal (sym a.2) t)
        a.1 in
    (b.0, b.1, b.2 ∙ a.2)
