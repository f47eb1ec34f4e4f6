-- ===== src/Sqlite/Pending.antt =====
-- The queries of src/sqlite/write.cpp for the summaries that wait for an episode:
-- `last_episode_end`, `episode_candidate_turns` and `episodes_needing_close`. A join with
-- `sessions` is a test on its rows, which need not be unique.
pub mod Agreement
use ragger_cpp.Prelude.{
  Bool, Bytes, List, Option, [], equal, false, if◌then◌else◌, ltb, magnitude, max, none, not, null,
  positive, some, true, ℕ, ℤ, ◌&&◌, ◌*◌, ◌+◌, ◌==◌, ◌||◌, ◌∷◌,
}
use ragger_cpp.Sqlite.Episodes.{MemberRow, SourceTurn, EpisodeRow, Archive, has_text, is_none}
use ragger_cpp.Sqlite.Turns.{holds_id}

-- The local time of SQLite and of `mktime`: "%F %T" for an epoch, and back.
pub record LocalTime : Type 0 where
  pub render : ℕ → Bytes
  pub resolve : Bytes → ℕ

-- A row of the query for candidates.
pub record CandidateRow : Type 0 where
  pub candidate_id : ℕ
  pub candidate_text : Bytes
  pub epoch : ℕ
  pub turn_vector : Bytes
  pub summary_vector : Bytes

abbrev pub has_value : Option Bytes → Bool
has_value none = false
has_value (some s) = true

abbrev pub text_of : Option Bytes → Bytes
text_of none = []
text_of (some s) = s

-- JOIN turns t ON t.turn_id = ts.turn_id
unfoldable pub joined_turn : Option ℕ → List SourceTurn → Option SourceTurn
joined_turn id [] = none
joined_turn id (t ∷ ts) = if holds_id t.turn_id id then some t else joined_turn id ts

-- `pending_episode_l2_conditions`
unfoldable pub is_pending_l2 : List SourceTurn → ℕ → MemberRow → Bool
is_pending_l2 turns since r = elim (joined_turn r.member_turn turns) [
  | none ↦ false
  | some t ↦
      has_text r.member_text
      && (is_none r.member_of
          && (ltb since r.turn_datetime && (has_value r.summary_blob && has_value t.turn_blob)))
]

-- JOIN sessions ss ON … = ss.session_id WHERE ss.guid = ?
unfoldable pub in_session : Bytes → List (Bytes × ℕ) → Option ℕ → Bool
in_session guid [] id = false
in_session guid ((g, s) ∷ rows) id = (equal g guid && holds_id s id) || in_session guid rows id

-- ORDER BY e.span_start DESC, e.episode_id DESC
unfoldable pub starts_later : EpisodeRow → EpisodeRow → Bool
starts_later a b =
    ltb b.span_start a.span_start || (a.span_start == b.span_start && ltb b.episode_id a.episode_id)

-- The first row in that order.
unfoldable pub last_episode : Bytes → List (Bytes × ℕ) → List EpisodeRow → Option EpisodeRow
last_episode guid sessions [] = none
last_episode guid sessions (r ∷ rows) =
    let rest = last_episode guid sessions rows in
    if in_session guid sessions r.session_id
    then elim rest [ none ↦ some r | some q ↦ if starts_later q r then some q else some r ]
    else rest

unfoldable pub last_episode_end : LocalTime → Archive → Bytes → Bytes
last_episode_end clock st guid =
    if null guid then [] else elim (last_episode guid st.sessions st.episodes) [
      | none ↦ []
      | some e ↦ clock.render e.span_end
    ]

abbrev pub candidate_of : List SourceTurn → MemberRow → CandidateRow
candidate_of turns r = record {
  candidate_id = r.turn_summary_id;
  candidate_text = text_of r.member_text;
  epoch = r.turn_datetime;
  turn_vector = elim (joined_turn r.member_turn turns) [ none ↦ [] | some t ↦ text_of t.turn_blob ];
  summary_vector = text_of r.summary_blob;
}

-- ORDER BY ts.turn_datetime ASC, ts.turn_summary_id ASC
unfoldable pub insert_candidate : CandidateRow → List CandidateRow → List CandidateRow
insert_candidate c [] = c ∷ []
insert_candidate c (d ∷ ds) =
    if ltb d.epoch c.epoch || (d.epoch == c.epoch && ltb d.candidate_id c.candidate_id)
    then d ∷ insert_candidate c ds
    else c ∷ d ∷ ds

unfoldable pub candidates_from :
    Bytes → List (Bytes × ℕ) → List SourceTurn → ℕ → List MemberRow → List CandidateRow
candidates_from guid sessions turns since [] = []
candidates_from guid sessions turns since (r ∷ rows) =
    let rest = candidates_from guid sessions turns since rows in
    if in_session guid sessions r.member_session && is_pending_l2 turns since r
    then insert_candidate (candidate_of turns r) rest
    else rest

unfoldable pub episode_candidate_turns : LocalTime → Archive → Bytes → Bytes → List CandidateRow
episode_candidate_turns clock st guid since_ts =
    if null guid
    then []
    else candidates_from guid st.sessions st.turns
        (if null since_ts then 0 else clock.resolve since_ts) st.members

-- COALESCE((SELECT MAX(e.span_end) …), 0)
unfoldable pub max_span_end : ℕ → List EpisodeRow → ℕ
max_span_end session [] = 0
max_span_end session (r ∷ rows) =
    let rest = max_span_end session rows in
    if holds_id session r.session_id then max r.span_end rest else rest

unfoldable pub has_pending : List SourceTurn → ℕ → ℕ → List MemberRow → Bool
has_pending turns session since [] = false
has_pending turns session since (r ∷ rows) =
    (holds_id session r.member_session && is_pending_l2 turns since r)
    || has_pending turns session since rows

unfoldable pub is_summarized : ℕ → List MemberRow → Bool
is_summarized turn [] = false
is_summarized turn (r ∷ rows) = holds_id turn r.member_turn || is_summarized turn rows

-- Is there a turn of the session with an answer and with no summary?
unfoldable pub has_unsummarized : ℕ → List MemberRow → List SourceTurn → Bool
has_unsummarized session members [] = false
has_unsummarized session members (t ∷ ts) =
    (holds_id session t.turn_session
      && (has_text t.assistant_text && not (is_summarized t.turn_id members)))
    || has_unsummarized session members ts

-- MAX(t.created_at), which is NULL for a session with no turn.
unfoldable pub newest_turn : ℕ → List SourceTurn → Option ℕ
newest_turn session [] = none
newest_turn session (t ∷ ts) =
    let rest = newest_turn session ts in
    if holds_id session t.turn_session
    then elim rest [ none ↦ some t.created_at | some n ↦ some (max t.created_at n) ]
    else rest

-- `newest < unixepoch('now','-<idle> minutes')`
unfoldable pub is_idle : ℕ → ℕ → Option ℕ → Bool
is_idle now idle none = false
is_idle now idle (some newest) = ltb (newest + 60 * idle) now

unfoldable pub needs_close : Archive → ℕ → ℕ → ℕ → Bool
needs_close st now idle session =
    has_pending st.turns session (max_span_end session st.episodes) st.members
    && (not (has_unsummarized session st.members st.turns)
        && is_idle now idle (newest_turn session st.turns))

-- The guids of the sessions that pass, in the order of the table, which is that of the ids.
unfoldable pub guids_needing_close : Archive → ℕ → ℕ → List (Bytes × ℕ) → List Bytes
guids_needing_close st now idle [] = []
guids_needing_close st now idle ((guid, session) ∷ rows) =
    let rest = guids_needing_close st now idle rows in
    if needs_close st now idle session && not (null guid) then guid ∷ rest else rest

unfoldable pub episodes_needing_close : Archive → ℕ → ℤ → List Bytes
episodes_needing_close st now idle_minutes =
    if positive idle_minutes
    then guids_needing_close st now (magnitude idle_minutes) st.sessions
    else []
