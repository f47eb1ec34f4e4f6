-- ===== src/Tests/Runs.antt =====
-- The service of src/summarizer_service.cpp at small inputs.
use ragger_cpp.Prelude.{
  Bytes, List, Option, [], arith, codes, drop_while, equal, find, find_first_not, inl, is_blank,
  length, map, none, pos, refl, some, starts_with, true, ◌+◌, ◌∷◌, ◌≡◌, ◌≤◌,
}
use ragger_cpp.Service.Queue.Bounded.{Reach-queue_bounded}
use ragger_cpp.Service.Queue.Finished.{Reach-finished}
use ragger_cpp.Service.Queue.Closing.{Blobs, put_members, close_session}
use ragger_cpp.Tests.Episodes.{whole, close_setting, answering}
use ragger_cpp.Service.Queue.{
  catch_up_cap, l2_turn, episode_close, run_job, Service, resting, enqueue_turn, work_on, live,
  works, Reach, here, next,
}
use ragger_cpp.Service.Turn.Poison.{attempts, attempts-abandon}
use ragger_cpp.Service.Turn.Settled.{handle_l2-settled}
use ragger_cpp.Service.Turn.{
  TurnJob, Inference, Setting, State, failure_count, bad_model, handle_l2,
}
use ragger_cpp.Sqlite.Turns.Rows.{Held}
use ragger_cpp.Sqlite.Turns.{Store, TurnRow, SummaryRow, turn_summary_exists, mark_turn_summarized}
use ragger_cpp.Util.Backoff.{initial}

abbrev silent : Inference
silent = record {
  memory_model = codes "m";
  env = record {
    chat_memory = λ messages. none;
    vformat = λ prompt target most. some prompt;
    target_pct = pos 30;
    max_pct = pos 60;
    summarizer_prompt = [];
    default_prompt = codes "p";
  };
}

abbrev setting : Setting
setting = record {
  home = record { enabled = true; dir = codes "/home/u" };
  encodes = λ text. true;
  max_turn_failures = pos 2;
}

abbrev long_job : TurnJob
long_job = record {
  turn_id = 7;
  user_text =
      codes
        "how does the queue of the summarizer work here, and what is kept of a turn that no model can summarize?";
  assistant_text = codes "it holds one job for each turn that has no summary yet";
}

abbrev short_job : TurnJob
short_job = record { turn_id = 7; user_text = codes "hi"; assistant_text = codes "hello" }

abbrev turn : TurnRow
turn = record {
  turn_id = 7;
  user_text = codes "hi";
  assistant_text = some (codes "hello");
  turn_model = none;
  turn_session = none;
  created_at = 5;
}

abbrev store : Store
store = record { turns = turn ∷ []; summaries = []; last_id = 0 }

abbrev state : State
state = record {
  store = store;
  failures = [];
  backoff = initial 300 21600;
  sessions = [];
  episodes = [];
  last_episode = 0;
  cached = true;
}

abbrev service : Service
service = record { state = state; queue = []; running = true; scan = resting }

abbrev needing_none : Store → List Bytes
needing_none st = []

abbrev blobs : Blobs
blobs = record { blob_of_turn = λ t. some (1 ∷ []); blob_of_summary = λ r. some (1 ∷ []) }

abbrev queued : Service
queued = enqueue_turn service short_job

abbrev worked : Service
worked = work_on setting none (close_session close_setting blobs) queued queued.queue

abbrev run : Reach setting (pos 10) needing_none (close_session close_setting blobs) service worked
run = next (next here (live service short_job)) (works queued none)

Reach-queue_bounded_example : length worked.queue ≤ 1000 + catch_up_cap (pos 10) + 0
Reach-queue_bounded_example =
    Reach-queue_bounded setting (pos 10) needing_none (close_session close_setting blobs) 0
      (λ st. omega arith) refl refl run

handle_l2-settled_example :
    (turn_summary_exists (handle_l2 setting none state short_job).0.store 7 ≡ true)
    × ((later_inf : Option Inference)
        → (handle_l2 setting later_inf (handle_l2 setting none state short_job).0 short_job).0
          ≡ (handle_l2 setting none state short_job).0)
unfolding ragger_cpp.Sqlite.Turns.find_turn handle_l2 ragger_cpp.Service.Turn.is_short
    ragger_cpp.Service.Turn.effective_user ragger_cpp.Summarizer.Markers.is_system_injected_turn
    ragger_cpp.Prelude.starts_with ragger_cpp.Prelude.drop_while ragger_cpp.Prelude.is_blank
handle_l2-settled_example = handle_l2-settled setting none state short_job turn refl refl

attempts-abandon_example :
    ((attempts setting (some silent) 1 state long_job).store ≡ store)
    × ((attempts setting (some silent) 2 state long_job).store
        ≡ (mark_turn_summarized store 7 bad_model).1)
    × (failure_count 7 (attempts setting (some silent) 2 state long_job).failures ≡ 0)
unfolding ragger_cpp.Service.Turn.is_short ragger_cpp.Service.Turn.effective_user
    ragger_cpp.Summarizer.Markers.is_system_injected_turn starts_with drop_while is_blank
    ragger_cpp.Service.Turn.ask_summary ragger_cpp.Summarizer.Transcript.summarize_transcript
    ragger_cpp.Summarizer.Transcript.is_trivial ragger_cpp.Summarizer.Transcript.source_size
    ragger_cpp.Summarizer.Transcript.verbatim ragger_cpp.Summarizer.Transcript.ask
    turn_summary_exists ragger_cpp.Sqlite.Turns.any_covers failure_count
attempts-abandon_example =
    attempts-abandon setting silent long_job 1 refl refl refl refl state refl refl

-- A summary of a session that waits for its episode, behind it a job for the same turn.
abbrev summary : SummaryRow
summary = record {
  turn_summary_id = 1;
  text = some (codes "it holds jobs");
  source_turn = some 7;
  session_id = some 4;
  source_model = none;
  summary_model = some (codes "m");
  turn_datetime = 5;
  embedded = true;
  episode_id = none;
}

abbrev summarized : Service
summarized = record service {
  state = record state {
    store = record { turns = turn ∷ []; summaries = summary ∷ []; last_id = 1 };
    sessions = (codes "guid", 4) ∷ [];
  };
  queue = episode_close (codes "guid") ∷ l2_turn long_job ∷ [];
}

abbrev chapter : Service
chapter =
    work_on setting (some (answering (some (codes "so")))) (close_session close_setting blobs)
      summarized summarized.queue

-- The summary is in the episode then.
chapter_test : map (λ (r : SummaryRow). r.episode_id) chapter.state.store.summaries ≡ some 1 ∷ []
unfolding work_on run_job put_members close_session ragger_cpp.Service.Episode.handle_episode_close
    ragger_cpp.Service.Episode.candidates_of ragger_cpp.Sqlite.Pending.episode_candidate_turns
    ragger_cpp.Sqlite.Pending.candidates_from ragger_cpp.Sqlite.Pending.in_session
    ragger_cpp.Prelude.equal ragger_cpp.Sqlite.Pending.is_pending_l2
    ragger_cpp.Sqlite.Pending.joined_turn ragger_cpp.Sqlite.Pending.last_episode_end
    ragger_cpp.Sqlite.Pending.last_episode ragger_cpp.Sqlite.Pending.insert_candidate
    ragger_cpp.Service.Episode.commit_all ragger_cpp.Service.Episode.segments_of
    ragger_cpp.Service.Episode.spans ragger_cpp.Service.Boundaries.find_episode_boundaries
    ragger_cpp.Service.Boundaries.boundaries_from ragger_cpp.Service.Boundaries.is_boundary
    ragger_cpp.Service.Boundaries.cosine_similarity ragger_cpp.Service.Boundaries.sums
    ragger_cpp.Service.Boundaries.threshold_at ragger_cpp.Service.Episode.close_of
    ragger_cpp.Service.Episode.commit_segments ragger_cpp.Service.Episode.decoded
    ragger_cpp.Service.Episode.texts_of ragger_cpp.Sqlite.Episodes.assign
    ragger_cpp.Sqlite.Episodes.assign_all ragger_cpp.Sqlite.Episodes.find_session
    ragger_cpp.Sqlite.Episodes.insert_episode ragger_cpp.Sqlite.Episodes.is_assignable
    ragger_cpp.Sqlite.Episodes.new_episode ragger_cpp.Sqlite.Episodes.span_is_taken
    ragger_cpp.Sqlite.Episodes.store_episode_close ragger_cpp.Sqlite.Paths.normalize_path
    ragger_cpp.Sqlite.Pending.starts_later ragger_cpp.Summarizer.Transcript.summarize_texts
    ragger_cpp.Summarizer.Budget.percent_or ragger_cpp.Summarizer.Thinking.strip_thinking
    ragger_cpp.Prelude.drop_while ragger_cpp.Summarizer.Thinking.strip_preamble
    ragger_cpp.Prelude.find_first_not ragger_cpp.Summarizer.Thinking.strip_blocks
    ragger_cpp.Prelude.find ragger_cpp.Prelude.is_blank ragger_cpp.Summarizer.Transcript.total_size
    ragger_cpp.Summarizer.Transcript.ask ragger_cpp.Summarizer.Budget.make_budget
    ragger_cpp.Summarizer.Budget.share
chapter_test = refl

Reach-finished_example :
    Held summary chapter.state.store.summaries
    × ((handle_l2 setting (some silent) chapter.state long_job).0 ≡ chapter.state)
Reach-finished_example =
    Reach-finished setting close_setting blobs (pos 10) needing_none summary
      (codes "it holds jobs", refl, λ e n. absurd (cc n)) long_job (some silent) refl (inl refl)
      (next here (works summarized (some (answering (some (codes "so"))))))
