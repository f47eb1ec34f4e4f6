-- ===== src/Service/Queue.antt =====
-- The queue of `SummarizerService`: `enqueue_turn`, `enqueue_catch_up` and the body of `worker_loop`.
-- A live turn is queued by one thread while another scans and a third works, so the scan is cut into
-- the steps between which it holds no mutex; `scan_mu_` lets one scan run at a time. The answer of
-- `episodes_needing_close`, the closing of an episode (Closing has the one of the code) and the endpoint
-- are arguments.
pub mod Closing
pub mod Bounded
pub mod Finished
use ragger_cpp.Prelude.{
  Bool, Bytes, List, Option, [], if◌then◌else◌, leb, length, ltb, magnitude, max, none, not, null,
  some, ℕ, ℤ, ◌++◌, ◌||◌, ◌∷◌,
}
use ragger_cpp.Service.Turn.{TurnJob, Inference, Setting, State, handle_l2}
use ragger_cpp.Sqlite.Turns.{Store, TurnRow, unsummarized_turns, reset_abandoned_turn_summaries}
use ragger_cpp.Util.Backoff.{due, failed}

pub data Job : Type 0 where
  l2_turn : TurnJob → Job
  episode_close : Bytes → Job

-- Where `enqueue_catch_up` stands: what it has still to queue.
pub data Scan : Type 0 where
  resting : Scan
  turns : List Job → Scan
  resetting : Scan
  closes : List Job → Scan

pub record Service : Type 0 where
  pub state : State
  pub queue : List Job
  pub running : Bool
  pub scan : Scan

abbrev pub queue_limit : ℕ
queue_limit = 1000

abbrev pub push : Service → Job → Service
push sv j = record sv { queue = sv.queue ++ j ∷ [] }

pub enqueue_turn : Service → TurnJob → Service
enqueue_turn sv j =
    if not sv.running || null j.assistant_text
    then sv
    else if leb queue_limit (length sv.queue)
    then sv
    else push sv (l2_turn j)

-- `std::max(1, config().catch_up_batch_size)`
pub catch_up_cap : ℤ → ℕ
catch_up_cap batch_size = max 1 (magnitude batch_size)

-- The jobs of the scan; a turn with an empty assistant side is partial and skipped.
pub turn_jobs : List TurnRow → List Job
turn_jobs [] = []
turn_jobs (t ∷ ts) = elim t.assistant_text [
  | none ↦ turn_jobs ts
  | some [] ↦ turn_jobs ts
  | some (c ∷ s) ↦
      l2_turn (record { turn_id = t.turn_id; user_text = t.user_text; assistant_text = c ∷ s })
      ∷ turn_jobs ts
]

pub close_jobs : List Bytes → List Job
close_jobs [] = []
close_jobs (g ∷ gs) = episode_close g ∷ close_jobs gs

-- The abandoned turns are reset if the back-off is due, and a reset that found rows delays the next.
pub after_reset : ℕ → State → ℕ × Store → State
after_reset now s (n, store) = record s {
  store = store;
  backoff = if ltb 0 n then failed s.backoff now else s.backoff;
}

pub reset_step : ℕ → ℕ → State → State
unfolding after_reset
reset_step limit now s =
    if due s.backoff now
    then after_reset now s (reset_abandoned_turn_summaries s.store limit)
    else s

-- The scan begins only on an empty queue.
pub scan_start : ℤ → Service → Service
scan_start batch_size sv =
    if null sv.queue
    then record sv {
      scan = turns (turn_jobs (unsummarized_turns sv.state.store (catch_up_cap batch_size)));
    }
    else sv

-- One step of the scan at the time `now`.
pub scan_in : ℤ → (Store → List Bytes) → ℕ → Service → Scan → Service
unfolding scan_start
scan_in batch_size needing_close now sv resting = scan_start batch_size sv
scan_in batch_size needing_close now sv (turns []) = record sv { scan = resetting }
scan_in batch_size needing_close now sv (turns (j ∷ js)) = record (push sv j) { scan = turns js }
scan_in batch_size needing_close now sv resetting =
    let s = reset_step (catch_up_cap batch_size) now sv.state in
    record sv { state = s; scan = closes (close_jobs (needing_close s.store)) }
scan_in batch_size needing_close now sv (closes []) = record sv { scan = resting }
scan_in batch_size needing_close now sv (closes (j ∷ js)) = record (push sv j) { scan = closes js }

unfoldable pub run_job :
    Setting → Option Inference → (Option Inference → Bytes → State → State) → State → Job → State
run_job c inf close s (l2_turn j) = (handle_l2 c inf s j).0
run_job c inf close s (episode_close guid) = close inf guid s

-- The body of the worker's loop: it takes the first job, unless it is stopped or has none.
unfoldable pub work_on :
    Setting
    → Option Inference
    → (Option Inference → Bytes → State → State)
    → Service
    → List Job
    → Service
work_on c inf close sv [] = sv
work_on c inf close sv (j ∷ js) =
    if sv.running then record sv { queue = js; state = run_job c inf close sv.state j } else sv

-- What the threads do to the service, in any order.
pub data Step (c : Setting) (batch_size : ℤ) (needing_close : Store → List Bytes)
    (close : Option Inference → Bytes → State → State) : Service → Service → Type 0 where
  live : (sv : Service) (j : TurnJob) → Step c batch_size needing_close close sv (enqueue_turn sv j)
  scans :
      (sv : Service) (now : ℕ)
      → Step c batch_size needing_close close sv (scan_in batch_size needing_close now sv sv.scan)
  works :
      (sv : Service) (inf : Option Inference)
      → Step c batch_size needing_close close sv (work_on c inf close sv sv.queue)

pub data Reach (c : Setting) (batch_size : ℤ) (needing_close : Store → List Bytes)
    (close : Option Inference → Bytes → State → State) (first : Service) : Service → Type 0 where
  here : Reach c batch_size needing_close close first first
  next :
      {sv sv' : Service}
      → Reach c batch_size needing_close close first sv
      → Step c batch_size needing_close close sv sv'
      → Reach c batch_size needing_close close first sv'
