-- ===== src/Sqlite/Capture/Spans/Steps.antt =====
-- The writes to `turns` and `sessions` in any order, and the spans under them.
use ragger_cpp.Prelude.{Bool, Bytes, some, subst, ℕ, ◌≡◌}
use ragger_cpp.Sqlite.Capture.Corrections.{
  update_turn_meta, finalize_turn, cleanup_old_conversations,
}
use ragger_cpp.Sqlite.Capture.Spans.Moves.{update_turn_meta-IsSpanned, finalize_turn-IsSpanned}
use ragger_cpp.Sqlite.Capture.Spans.Sessions.{IsSpanned, get_or_create_session-IsSpanned}
use ragger_cpp.Sqlite.Capture.Spans.Writes.{
  store_turn-IsSpanned, cleanup_old_conversations-IsSpanned,
}
use ragger_cpp.Sqlite.Capture.{Log, Exchange, get_or_create_session, store_turn}
use ragger_cpp.Sqlite.Knowledge.{Writer}

pub data Step (w : Writer) : Log → Log → Type 0 where
  stores :
      (now id : ℕ) (e : Exchange) {st st' : Log}
      → store_turn w now st e ≡ some (id, st')
      → Step w st st'
  -- What a `store_turn` that throws may leave.
  opens :
      (guid name source : Bytes) {st st' : Log}
      → (get_or_create_session guid name source st).1 ≡ st'
      → Step w st st'
  corrects :
      (id : ℕ) (timestamp guid : Bytes) (done : Bool) {st st' : Log}
      → update_turn_meta w st id timestamp guid ≡ some (done, st')
      → Step w st st'
  finalizes :
      (id : ℕ) (assistant model_name : Bytes) (done : Bool) {st st' : Log}
      → finalize_turn w st id assistant model_name ≡ some (done, st')
      → Step w st st'
  cleans :
      (cutoff : ℕ) {st st' : Log} → (cleanup_old_conversations cutoff st).1 ≡ st' → Step w st st'

pub data Reach (w : Writer) : Log → Log → Type 0 where
  here : {st : Log} → Reach w st st
  then_step : {st mid st' : Log} → Reach w st mid → Step w mid st' → Reach w st st'

step-IsSpanned : (w : Writer) (st st' : Log) → Step w st st' → IsSpanned st → IsSpanned st'
step-IsSpanned w st st' (stores now id e h) l = store_turn-IsSpanned w now st st' e id h l
step-IsSpanned w st st' (opens guid name source h) l =
    subst IsSpanned h (get_or_create_session-IsSpanned guid name source st l).0
step-IsSpanned w st st' (corrects id timestamp guid done h) l =
    update_turn_meta-IsSpanned w st st' id timestamp guid done h l
step-IsSpanned w st st' (finalizes id assistant model_name done h) l =
    finalize_turn-IsSpanned w st st' id assistant model_name done h l
step-IsSpanned w st st' (cleans cutoff h) l =
    subst IsSpanned h (cleanup_old_conversations-IsSpanned cutoff st l)

-- Whatever turns are stored, finalized, moved to other times or sessions and deleted for their
-- age, in any order, from a log in which this holds: a turn with a session lies in the span of
-- that session, and the ids of sessions, in both tables, are at most the counter.
pub Reach-IsSpanned : (w : Writer) (st st' : Log) → Reach w st st' → IsSpanned st → IsSpanned st'
Reach-IsSpanned w st st' here l = l
Reach-IsSpanned w st st' (then_step {mid} r s) l =
    step-IsSpanned w mid st' s (Reach-IsSpanned w st mid r l)
