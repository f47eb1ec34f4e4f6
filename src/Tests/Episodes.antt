-- ===== src/Tests/Episodes.antt =====
-- Closing an episode, in src/sqlite/write.cpp and src/summarizer_service.cpp, at a small archive.
use ragger_cpp.Prelude.{
  All, Bytes, List, Option, [], arith, codes, concat, drop_while, equal, false, find,
  find_first_not, if◌then◌else◌, inl, inr, is_blank, leb, length, ltb, magnitude, map, none, null,
  pos, refl, some, true, ℕ, ◌*◌, ◌+◌, ◌/◌, ◌∷◌, ◌≡◌,
}
use ragger_cpp.Service.Boundaries.{Float, Candidate, EpisodeBoundaryParams, find_episode_boundaries}
use ragger_cpp.Service.Episode.Joins.{InEpisode}
use ragger_cpp.Service.Episode.Keeps.{handle_episode_close-keeps}
use ragger_cpp.Service.Episode.Members.{handle_episode_close-members}
use ragger_cpp.Service.Episode.Segments.{find_episode_boundaries-partition}
use ragger_cpp.Service.Episode.{
  CloseSetting, CloseOutcome, closed, slice, spans, candidates_of, handle_episode_close,
}
use ragger_cpp.Service.Turn.{Inference}
use ragger_cpp.Sqlite.Episodes.Membership.{episode_of, contains, store_episode_close-members}
use ragger_cpp.Sqlite.Episodes.{
  SourceTurn, MemberRow, EpisodeClose, EpisodeRow, Archive, CloseError, store_episode_close,
  new_episode,
}
use ragger_cpp.Sqlite.Paths.{Home}
use ragger_cpp.Sqlite.Pending.Agreement.{listed, episodes_needing_close-candidates}
use ragger_cpp.Sqlite.Pending.{
  LocalTime, last_episode_end, episode_candidate_turns, episodes_needing_close,
}

abbrev member_at : ℕ → Option ℕ → MemberRow
member_at id episode = record {
  turn_summary_id = id;
  member_text = some (codes "it is done");
  member_session = some 7;
  member_of = episode;
  member_turn = some id;
  turn_datetime = 100 * id;
  summary_blob = some (1 ∷ []);
}

abbrev source_at : ℕ → SourceTurn
source_at id = record {
  turn_id = id;
  turn_session = some 7;
  assistant_text = some (codes "done");
  created_at = 100 * id;
  turn_blob = some (1 ∷ []);
}

-- Two summaries of a session wait for an episode, and one has one.
abbrev archive : Archive
archive = record {
  sessions = (codes "guid", 7) ∷ [];
  turns = source_at 1 ∷ source_at 2 ∷ source_at 3 ∷ [];
  members = member_at 1 (some 4) ∷ member_at 2 none ∷ member_at 3 none ∷ [];
  episodes = [];
  last_episode = 4;
  cached = true;
}

abbrev plain_home : Home
plain_home = record { enabled = false; dir = [] }

abbrev closing : List ℕ → EpisodeClose
closing ids = record {
  close_text = codes "two steps";
  model_name = codes "m";
  session_guid = codes "guid";
  start = 10;
  end = 20;
  member_turn_summary_ids = ids;
}

abbrev closed_archive : Archive
closed_archive = record archive {
  members = member_at 1 (some 4) ∷ member_at 2 (some 5) ∷ member_at 3 (some 5) ∷ [];
  episodes = new_episode plain_home 5 7 (closing (2 ∷ 3 ∷ [])) ∷ [];
  last_episode = 5;
  cached = false;
}

close_works :
    store_episode_close plain_home (λ s. true) archive (closing (2 ∷ 3 ∷ []))
    ≡ inr (5, closed_archive)
unfolding store_episode_close ragger_cpp.Sqlite.Episodes.find_session equal
    ragger_cpp.Sqlite.Episodes.insert_episode ragger_cpp.Sqlite.Episodes.span_is_taken
    ragger_cpp.Sqlite.Episodes.assign_all ragger_cpp.Sqlite.Episodes.assign
    ragger_cpp.Sqlite.Episodes.is_assignable
close_works = refl

stolen_member_test :
    store_episode_close plain_home (λ s. true) archive (closing (1 ∷ 2 ∷ []))
    ≡ inl (CloseError.not_assignable 1)
unfolding store_episode_close ragger_cpp.Sqlite.Episodes.find_session equal
    ragger_cpp.Sqlite.Episodes.insert_episode ragger_cpp.Sqlite.Episodes.span_is_taken
    ragger_cpp.Sqlite.Episodes.assign_all ragger_cpp.Sqlite.Episodes.assign
    ragger_cpp.Sqlite.Episodes.is_assignable
stolen_member_test = refl

store_episode_close-members_example :
    (episode_of 3 closed_archive.members
      ≡ (if contains 3 (2 ∷ 3 ∷ []) then some 5 else episode_of 3 archive.members))
    × (store_episode_close plain_home (λ s. true) closed_archive (closing (2 ∷ 3 ∷ []))
        ≡ inr (0, closed_archive))
store_episode_close-members_example =
    store_episode_close-members plain_home (λ s. true) archive closed_archive (closing (2 ∷ 3 ∷ []))
      5 3 close_works (omega arith)

-- Whole numbers in the place of floats.
instance abbrev pub whole : Float ℕ
whole = record {
  of_int = magnitude;
  add = λ a b. a + b;
  mul = λ a b. a * b;
  div = λ a b. a / b;
  sqrt = λ a. a;
  lt = ltb;
  le = leb;
  trunc = λ a. pos a;
}

-- An epoch as one byte.
abbrev clock : LocalTime
clock = record { render = λ e. e ∷ []; resolve = λ s. elim s [ [] ↦ 0 | e ∷ _ ↦ e ] }

abbrev pub close_setting : CloseSetting ℕ
close_setting = record {
  home = plain_home;
  encodes = λ s. true;
  clock = clock;
  decode = λ s. s;
  params = record { base = 0; threshold_cap = 1; step = 1; step_minutes = 1 };
}

abbrev pub answering : (answer : Option Bytes) → Inference
answering answer = record {
  memory_model = codes "m";
  env = record {
    chat_memory = λ messages. answer;
    vformat = λ prompt target most. some prompt;
    target_pct = pos 30;
    max_pct = pos 60;
    summarizer_prompt = [];
    default_prompt = codes "p";
  };
}

abbrev closes_example : Archive × CloseOutcome
closes_example =
    handle_episode_close close_setting (some (answering (some (codes "so")))) archive (codes "guid")

outcome_test : closes_example.1 ≡ closed (5 ∷ 6 ∷ [])
unfolding handle_episode_close candidates_of episode_candidate_turns
    ragger_cpp.Sqlite.Pending.candidates_from ragger_cpp.Sqlite.Pending.in_session equal
    ragger_cpp.Sqlite.Pending.is_pending_l2 ragger_cpp.Sqlite.Pending.joined_turn last_episode_end
    ragger_cpp.Sqlite.Pending.last_episode ragger_cpp.Sqlite.Pending.insert_candidate
    ragger_cpp.Service.Episode.commit_all ragger_cpp.Service.Episode.segments_of spans
    find_episode_boundaries ragger_cpp.Service.Boundaries.boundaries_from
    ragger_cpp.Service.Boundaries.is_boundary ragger_cpp.Service.Boundaries.cosine_similarity
    ragger_cpp.Service.Boundaries.sums ragger_cpp.Service.Boundaries.threshold_at
    ragger_cpp.Service.Episode.close_of ragger_cpp.Service.Episode.commit_segments
    ragger_cpp.Service.Episode.decoded ragger_cpp.Service.Episode.texts_of
    ragger_cpp.Sqlite.Episodes.assign ragger_cpp.Sqlite.Episodes.assign_all
    ragger_cpp.Sqlite.Episodes.find_session ragger_cpp.Sqlite.Episodes.insert_episode
    ragger_cpp.Sqlite.Episodes.is_assignable new_episode ragger_cpp.Sqlite.Episodes.span_is_taken
    store_episode_close ragger_cpp.Sqlite.Paths.normalize_path
    ragger_cpp.Sqlite.Pending.starts_later ragger_cpp.Summarizer.Transcript.summarize_texts
    ragger_cpp.Summarizer.Budget.percent_or ragger_cpp.Summarizer.Thinking.strip_thinking
    ragger_cpp.Prelude.drop_while ragger_cpp.Summarizer.Thinking.strip_preamble
    ragger_cpp.Prelude.find_first_not ragger_cpp.Summarizer.Thinking.strip_blocks
    ragger_cpp.Prelude.find ragger_cpp.Prelude.is_blank ragger_cpp.Summarizer.Transcript.total_size
    ragger_cpp.Summarizer.Transcript.ask ragger_cpp.Summarizer.Budget.make_budget
    ragger_cpp.Summarizer.Budget.share
outcome_test = refl

handle_episode_close-members_example :
    All (InEpisode closes_example.0) (candidates_of close_setting archive (codes "guid"))
handle_episode_close-members_example =
    handle_episode_close-members close_setting (some (answering (some (codes "so")))) archive
      (codes "guid") (5 ∷ 6 ∷ []) outcome_test (omega arith)

handle_episode_close-keeps_example : episode_of 1 closes_example.0.members ≡ some 4
unfolding episode_of
handle_episode_close-keeps_example =
    handle_episode_close-keeps close_setting (some (answering (some (codes "so")))) archive
      (codes "guid") 1 4 refl

episodes_needing_close-candidates_example :
    null (
      episode_candidate_turns clock archive
        (codes "guid")
        (last_episode_end clock archive (codes "guid")))
    ≡ false
unfolding ragger_cpp.Sqlite.Pending.in_session listed episodes_needing_close
    ragger_cpp.Sqlite.Pending.guids_needing_close ragger_cpp.Sqlite.Pending.needs_close
    ragger_cpp.Sqlite.Pending.has_pending ragger_cpp.Sqlite.Pending.is_pending_l2
    ragger_cpp.Sqlite.Pending.joined_turn ragger_cpp.Sqlite.Pending.max_span_end
    ragger_cpp.Sqlite.Pending.has_unsummarized ragger_cpp.Sqlite.Pending.is_summarized
    ragger_cpp.Sqlite.Pending.is_idle ragger_cpp.Sqlite.Pending.newest_turn equal
episodes_needing_close-candidates_example =
    episodes_needing_close-candidates clock archive 1000 (pos 5) (codes "guid") (λ e. omega arith)
      ((λ t. refl), tt) refl

abbrev waiting : List (Candidate ℕ)
waiting = candidates_of close_setting archive (codes "guid")

find_episode_boundaries-partition_example :
    concat (
      map
        (slice waiting)
        (spans (length waiting) (find_episode_boundaries close_setting.params waiting)))
    ≡ waiting
find_episode_boundaries-partition_example =
    find_episode_boundaries-partition close_setting.params waiting
