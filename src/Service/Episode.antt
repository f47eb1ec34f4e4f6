-- ===== src/Service/Episode.antt =====
-- `SummarizerService::handle_episode_close`: the summaries of a session that wait for an episode are
-- cut into segments, each is summarized, and then each is stored. Log lines are left out.
pub mod Segments
pub mod Joins
pub mod Members
pub mod Keeps
use ragger_cpp.Prelude.{
  Bool, Bytes, List, Option, [], drop, get_or, if◌then◌else◌, inl, inr, length, map, none, null,
  some, take, ℕ, ◌-◌, ◌∷◌,
}
use ragger_cpp.Service.Boundaries.{Float, Candidate, EpisodeBoundaryParams, find_episode_boundaries}
use ragger_cpp.Service.Turn.{Inference}
use ragger_cpp.Sqlite.Episodes.{Archive, EpisodeClose, CloseError, store_episode_close}
use ragger_cpp.Sqlite.Paths.{Home}
use ragger_cpp.Sqlite.Pending.{LocalTime, CandidateRow, last_episode_end, episode_candidate_turns}
use ragger_cpp.Summarizer.Transcript.{Env, summarize_texts}

-- An `EpisodeSegment`; [seg_start, seg_end) is its range of candidates.
pub record Segment : Type 0 where
  pub summary : Bytes
  pub seg_start : ℕ
  pub seg_end : ℕ
  pub turn_count : ℕ

-- Which of its returns the handler took. `closed` has the ids that `store_episode_close` returned;
-- `threw` is its exception, after the closes before it.
pub data CloseOutcome : Type 0 where
  no_session nothing_new not_configured inference_failed no_segments : CloseOutcome
  closed : List ℕ → CloseOutcome
  threw : CloseError → CloseOutcome

-- What the service reads of its surroundings; `decode` stands for `decode_embedding_blob`.
pub record CloseSetting (W : Type 0) : Type 0 where
  pub home : Home
  pub encodes : Bytes → Bool
  pub clock : LocalTime
  pub decode : Bytes → List W
  pub params : EpisodeBoundaryParams W

-- [start, end) for each boundary: the next one, or the number of candidates.
unfoldable pub spans : ℕ → List ℕ → List (ℕ × ℕ)
spans n [] = []
spans n (b ∷ []) = (b, n) ∷ []
spans n (b ∷ c ∷ bs) = (b, c) ∷ spans n (c ∷ bs)

abbrev pub also : ℕ → CloseOutcome → CloseOutcome
also id (closed ids) = closed (id ∷ ids)
also id (threw e) = threw e
also id no_session = no_session
also id nothing_new = nothing_new
also id not_configured = not_configured
also id inference_failed = inference_failed
also id no_segments = no_segments

-- The epoch of `candidates[i]`; the code reads in bounds only.
abbrev pub epoch_at : {W : Type 0} → List (Candidate W) → ℕ → ℕ
epoch_at cs i = get_or (map (λ c. c.epoch) cs) i 0

module _ {W : Type 0} where
  abbrev pub slice : List (Candidate W) → ℕ × ℕ → List (Candidate W)
  slice cs (start, end) = take (end - start) (drop start cs)

  unfoldable pub texts_of : List (Candidate W) → List Bytes
  texts_of [] = []
  texts_of (c ∷ cs) =
      let rest = texts_of cs in if null c.summary_text then rest else c.summary_text ∷ rest

  -- The loop over the segments; `none` is the return where a summary is empty.
  unfoldable pub segments_of : Env → List (Candidate W) → List (ℕ × ℕ) → Option (List Segment)
  segments_of env cs [] = some []
  segments_of env cs (span ∷ rest) =
      let texts = texts_of (slice cs span) in
      let summary = summarize_texts env texts in
      let more = segments_of env cs rest in
      if null texts then more else if null summary then none else elim more [
        | none ↦ none
        | some segments ↦ some (
            record {
              summary = summary;
              seg_start = span.0;
              seg_end = span.1;
              turn_count = length texts;
            }
            ∷ segments)
      ]

  unfoldable pub close_of : Bytes → Bytes → List (Candidate W) → Segment → EpisodeClose
  close_of guid model cs seg = record {
    close_text = seg.summary;
    model_name = model;
    session_guid = guid;
    start = epoch_at cs seg.seg_start;
    end = epoch_at cs (seg.seg_end - 1);
    member_turn_summary_ids = map (λ c. c.turn_summary_id) (slice cs (seg.seg_start, seg.seg_end));
  }

  -- The loop that commits; an id of 0 is logged and passed over.
  unfoldable pub commit_segments :
      CloseSetting W
      → Bytes
      → Bytes
      → List (Candidate W)
      → List Segment
      → Archive
      → Archive × CloseOutcome
  commit_segments c guid model cs [] st = (st, closed [])
  commit_segments c guid model cs (seg ∷ segs) st =
      elim (store_episode_close c.home c.encodes st (close_of guid model cs seg)) [
        | inl e ↦ (st, threw e)
        | inr (id, st1) ↦
            let rest = commit_segments c guid model cs segs st1 in (rest.0, also id rest.1)
      ]

  unfoldable pub decoded : (Bytes → List W) → CandidateRow → Candidate W
  decoded decode r = record {
    turn_summary_id = r.candidate_id;
    summary_text = r.candidate_text;
    epoch = r.epoch;
    turn_embedding = decode r.turn_vector;
    summary_embedding = decode r.summary_vector;
  }

  unfoldable pub candidates_of : CloseSetting W → Archive → Bytes → List (Candidate W)
  candidates_of c st guid =
      map (decoded c.decode)
        (episode_candidate_turns c.clock st guid (last_episode_end c.clock st guid))

  unfoldable pub commit_all :
      CloseSetting W
      → Inference
      → Bytes
      → List (Candidate W)
      → Archive
      → Option (List Segment)
      → Archive × CloseOutcome
  commit_all c inf guid cs st none = (st, inference_failed)
  commit_all c inf guid cs st (some []) = (st, no_segments)
  commit_all c inf guid cs st (some (s ∷ segs)) =
      commit_segments c guid inf.memory_model cs (s ∷ segs) st

  unfoldable pub handle_episode_close :
      ⦃f : Float W⦄ → CloseSetting W → Option Inference → Archive → Bytes → Archive × CloseOutcome
  handle_episode_close c inf st guid =
      let cs = candidates_of c st guid in
      if null guid then (st, no_session) else if null cs then (st, nothing_new) else elim inf [
        | none ↦ (st, not_configured)
        | some i ↦
            commit_all c i guid cs st
              (segments_of i.env cs (spans (length cs) (find_episode_boundaries c.params cs)))
      ]
