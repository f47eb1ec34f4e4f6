-- ===== src/Sqlite/Curation/Chain/Steps.antt =====
-- Every write to `knowledge` as a step, and the chains under any sequence of them.
use ragger_cpp.Agent.Knowledge.{KnowledgeRow, Knowledge, UpdateRequest, agent_update}
use ragger_cpp.Prelude.{Bool, Bytes, List, Option, [], inr, later, subst, ℕ, ◌∷◌, ◌≡◌}
use ragger_cpp.Sqlite.Curation.Chain.{IsLinear}
use ragger_cpp.Sqlite.Curation.{
  store, store_decision, set_decision_status, delete_batch, delete_memory,
}
use ragger_cpp.Sqlite.Episodes.{Archive}
use ragger_cpp.Sqlite.Knowledge.{Writer, KnowledgeInput, Metadata, KnowledgeResult, store_knowledge}
use ragger_cpp.Sqlite.Curation.Chain.Writes.{
  store_knowledge-IsLinear, store_decision-IsLinear, store-IsLinear, set_decision_status-IsLinear,
  delete_batch-IsLinear, agent_update-IsLinear,
}

-- A write that is not refused. The tables that the checks read may be others at each.
pub data Step (w : Writer) : Knowledge → Knowledge → Type 0 where
  writes :
      (a : Archive) (input : KnowledgeInput) (res : KnowledgeResult) {st st' : Knowledge}
      → store_knowledge w a st input ≡ inr (res, st')
      → Step w st st'
  decides :
      (text status tags time : Bytes) (later : Bool) (id : ℕ) {st st' : Knowledge}
      → store_decision w st text status tags time later ≡ inr (id, st')
      → Step w st st'
  notes :
      (a : Archive) (raw : Bytes) (m : Metadata) (later : Bool) (id : ℕ) {st st' : Knowledge}
      → store w a st raw m later ≡ inr (id, st')
      → Step w st st'
  sets :
      (n : ℕ) (status : Bytes) (done : Bool) {st st' : Knowledge}
      → set_decision_status st n status ≡ inr (done, st')
      → Step w st st'
  updates :
      (req : UpdateRequest) (row : Option KnowledgeRow) {st st' : Knowledge}
      → agent_update st req ≡ inr (st', row)
      → Step w st st'
  deletes_one : (n : ℕ) {st st' : Knowledge} → (delete_memory st n).1 ≡ st' → Step w st st'
  deletes : (ids : List ℕ) {st st' : Knowledge} → (delete_batch st ids).1 ≡ st' → Step w st st'

pub data Reach (w : Writer) : Knowledge → Knowledge → Type 0 where
  here : {st : Knowledge} → Reach w st st
  then_step : {st mid st' : Knowledge} → Reach w st mid → Step w mid st' → Reach w st st'

step-IsLinear : (w : Writer) (st st' : Knowledge) → Step w st st' → IsLinear st → IsLinear st'
unfolding delete_memory
step-IsLinear w st st' (writes a input res h) l = store_knowledge-IsLinear w a st st' input res h l
step-IsLinear w st st' (decides text status tags time later id h) l =
    store_decision-IsLinear w st st' text status tags time later id h l
step-IsLinear w st st' (notes a raw m later id h) l = store-IsLinear w a st st' raw m later id h l
step-IsLinear w st st' (sets n status done h) l =
    set_decision_status-IsLinear st st' n status done h l
step-IsLinear w st st' (updates req row h) l = agent_update-IsLinear st st' req row h l
step-IsLinear w st st' (deletes_one n h) l = subst IsLinear h (delete_batch-IsLinear st (n ∷ []) l)
step-IsLinear w st st' (deletes ids h) l = subst IsLinear h (delete_batch-IsLinear st ids l)

-- Whatever writes to `knowledge` are made, in any order, from a table in which this holds: a
-- row that others supersede is there, has the status 'superseded', and one row supersedes it;
-- and ids are at most the counter, and above the id that the row supersedes.
pub Reach-IsLinear : (w : Writer) (st st' : Knowledge) → Reach w st st' → IsLinear st → IsLinear st'
Reach-IsLinear w st st' here l = l
Reach-IsLinear w st st' (then_step {mid} r s) l =
    step-IsLinear w mid st' s (Reach-IsLinear w st mid r l)
