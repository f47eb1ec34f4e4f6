-- ===== src/Service/Turn.antt =====
-- `SummarizerService::handle_l2`: one turn is summarized, skipped, deferred or abandoned.
pub mod Poison
pub mod Settled
use ragger_cpp.Prelude.{
  Bool, Bytes, List, Option, [], codes, false, if◌then◌else◌, leb, length, ltb, magnitude, none,
  null, positive, some, true, ℕ, ℤ, ◌+◌, ◌==◌, ◌||◌, ◌∷◌,
}
use ragger_cpp.Sqlite.Episodes.{EpisodeRow}
use ragger_cpp.Sqlite.Paths.{Home}
use ragger_cpp.Sqlite.Turns.{
  Store, turn_summary_exists, mark_turn_summarized, finalize_turn_summary,
}
use ragger_cpp.Summarizer.Markers.{is_system_injected_turn}
use ragger_cpp.Summarizer.Transcript.{Env, summarize_transcript}
use ragger_cpp.Util.Backoff.{Backoff, succeeded}

-- A `Job` of the kind `L2Turn`.
pub record TurnJob : Type 0 where
  pub turn_id : ℕ
  pub user_text : Bytes
  pub assistant_text : Bytes

-- What `inference_provider_` returns: the model's name, and what a summary is asked of.
pub record Inference : Type 0 where
  pub memory_model : Bytes
  pub env : Env

-- What the service reads of its surroundings.
pub record Setting : Type 0 where
  pub home : Home
  pub encodes : Bytes → Bool
  pub max_turn_failures : ℤ

-- The tables and the part of the service that jobs touch. `failures` is `turn_failures_`; the last
-- four are the tables `sessions` and `episodes`, the counter and the cache of the latter.
pub record State : Type 0 where
  pub store : Store
  pub failures : List (ℕ × ℕ)
  pub backoff : Backoff
  pub sessions : List (Bytes × ℕ)
  pub episodes : List EpisodeRow
  pub last_episode : ℕ
  pub cached : Bool

-- Which of its returns the handler took; `threw` is an exception, which `worker_loop` catches.
pub data Outcome : Type 0 where
  partial trivial done not_configured deferred abandoned rejected stored threw : Outcome

unfoldable pub failure_count : ℕ → List (ℕ × ℕ) → ℕ
failure_count id [] = 0
failure_count id ((k, n) ∷ m) = if k == id then n else failure_count id m

-- `++turn_failures_[id]`
pub bump : ℕ → List (ℕ × ℕ) → List (ℕ × ℕ)
bump id [] = (id, 1) ∷ []
bump id ((k, n) ∷ m) = if k == id then (k, n + 1) ∷ m else (k, n) ∷ bump id m

-- `turn_failures_.erase(id)`
pub forget : ℕ → List (ℕ × ℕ) → List (ℕ × ℕ)
forget id [] = []
forget id ((k, n) ∷ m) = let rest = forget id m in if k == id then rest else (k, n) ∷ rest

unfoldable pub effective_user : TurnJob → Bytes
effective_user j = if is_system_injected_turn j.user_text then [] else j.user_text

unfoldable pub is_short : TurnJob → Bool
is_short j =
    ltb (length (effective_user j) + length j.assistant_text) 80 || ltb (length j.assistant_text) 20

abbrev pub skipped_model : Bytes
skipped_model = codes "(skipped)"

abbrev pub bad_model : Bytes
bad_model = codes "bad"

-- The name that a skipped turn is marked with.
pub skip_name : Option Inference → Bytes
skip_name none = skipped_model
skip_name (some inf) = if null inf.memory_model then skipped_model else inf.memory_model

-- The summary is empty: count the failure, and abandon the turn at the limit.
pub on_failure : Setting → State → TurnJob → State × Outcome
on_failure c s j =
    let counted = bump j.turn_id s.failures in
    if positive c.max_turn_failures
    then if leb (magnitude c.max_turn_failures) (failure_count j.turn_id counted)
      then (
        record s {
          store = (mark_turn_summarized s.store j.turn_id bad_model).1;
          failures = forget j.turn_id counted;
        },
        abandoned,
      )
      else (record s { failures = counted }, deferred)
    else (s, deferred)

-- The answer of `finalize_turn_summary`.
pub on_answer : State → TurnJob → Option (Bool × Store) → State × Outcome
on_answer s j none = (s, threw)
on_answer s j (some (false, st)) = (record s { store = st }, rejected)
on_answer s j (some (true, st)) = (
  record s { store = st; failures = forget j.turn_id s.failures; backoff = succeeded s.backoff },
  stored,
)

pub with_summary : Setting → State → TurnJob → Bytes → Bytes → State × Outcome
unfolding on_failure on_answer
with_summary c s j model summary =
    if null summary
    then on_failure c s j
    else on_answer s j (finalize_turn_summary c.home c.encodes s.store j.turn_id summary model)

unfoldable pub ask_summary : Inference → TurnJob → Bytes
ask_summary inf j = summarize_transcript inf.env ((effective_user j, j.assistant_text) ∷ [])

unfoldable pub handle_l2 : Setting → Option Inference → State → TurnJob → State × Outcome
unfolding with_summary
handle_l2 c inf s j =
    if null j.assistant_text
    then (s, partial)
    else if is_short j
    then (record s { store = (mark_turn_summarized s.store j.turn_id (skip_name inf)).1 }, trivial)
    else if turn_summary_exists s.store j.turn_id
    then (s, done)
    else elim inf [
      | none ↦ (s, not_configured)
      | some inference ↦ with_summary c s j inference.memory_model (ask_summary inference j)
    ]
