-- ===== src/Sqlite/Episodes.antt =====
-- `store_episode_close` of src/sqlite/write.cpp: the table `episodes`, and the columns of
-- `turn_summaries` that it reads or writes. A model is its name, `none` where the id is NULL.
-- Failures of the database itself and the text index are left out.
pub mod Membership
use ragger_cpp.Prelude.{
  Bool, Bytes, List, Option, [], equal, false, if◌then◌else◌, inl, inr, length, ltb, none, not,
  null, some, true, ℕ, ◌&&◌, ◌++◌, ◌+◌, ◌==◌, ◌||◌, ◌∷◌, ◌⊎◌,
}
use ragger_cpp.Sqlite.Paths.{Home, normalize_path}
use ragger_cpp.Sqlite.Turns.{name_or_null, holds_id}

pub record EpisodeRow : Type 0 where
  pub episode_id : ℕ
  pub text : Bytes
  pub session_id : Option ℕ
  pub model : Option Bytes
  pub supersedes : Option ℕ
  pub span_start : ℕ
  pub span_end : ℕ

-- A row of `turn_summaries`.
pub record MemberRow : Type 0 where
  pub turn_summary_id : ℕ
  pub member_text : Option Bytes
  pub member_session : Option ℕ
  pub member_of : Option ℕ
  pub member_turn : Option ℕ
  pub turn_datetime : ℕ
  pub summary_blob : Option Bytes

-- The columns of `turns` that closing an episode reads. A blob is `none` where it is NULL.
pub record SourceTurn : Type 0 where
  pub turn_id : ℕ
  pub turn_session : Option ℕ
  pub assistant_text : Option Bytes
  pub created_at : ℕ
  pub turn_blob : Option Bytes

-- `last_episode` is the AUTOINCREMENT counter of `episodes`; `cached` says whether the cache of the
-- episodes still stands.
pub record Archive : Type 0 where
  pub sessions : List (Bytes × ℕ)
  pub turns : List SourceTurn
  pub members : List MemberRow
  pub episodes : List EpisodeRow
  pub last_episode : ℕ
  pub cached : Bool

pub record EpisodeClose : Type 0 where
  pub close_text : Bytes
  pub model_name : Bytes
  pub session_guid : Bytes
  pub start : ℕ
  pub end : ℕ
  pub member_turn_summary_ids : List ℕ

-- What `store_episode_close` throws.
pub data CloseError : Type 0 where
  empty_text no_members bad_span not_encoded : CloseError
  unknown_session : Bytes → CloseError
  not_assignable : ℕ → CloseError

abbrev pub is_none : Option ℕ → Bool
is_none none = true
is_none (some n) = false

-- `text != ''`
abbrev pub has_text : Option Bytes → Bool
has_text none = false
has_text (some text) = not (null text)

unfoldable pub find_session : Bytes → List (Bytes × ℕ) → Option ℕ
find_session guid [] = none
find_session guid ((g, id) ∷ rows) = if equal guid g then some id else find_session guid rows

-- The rows under the partial unique index on `episodes(session_id, span_start)`.
unfoldable pub span_is_taken : ℕ → ℕ → List EpisodeRow → Bool
span_is_taken session start [] = false
span_is_taken session start (r ∷ rows) =
    (is_none r.supersedes && (holds_id session r.session_id && r.span_start == start))
    || span_is_taken session start rows

-- session_id = ? AND episode_id IS NULL AND text != ''
unfoldable pub is_assignable : ℕ → MemberRow → Bool
is_assignable session r =
    holds_id session r.member_session && (is_none r.member_of && has_text r.member_text)

-- The UPDATE of the row with the primary key `id`, and whether it changed one.
unfoldable pub assign : ℕ → ℕ → ℕ → List MemberRow → Bool × List MemberRow
assign episode session id [] = (false, [])
assign episode session id (r ∷ rows) =
    let rest = assign episode session id rows in
    if r.turn_summary_id == id
    then if is_assignable session r
      then (true, record r { member_of = some episode } ∷ rows)
      else (false, r ∷ rows)
    else (rest.0, r ∷ rest.1)

-- The loop over the members; the count is of the rows changed.
unfoldable pub assign_all : ℕ → ℕ → List ℕ → List MemberRow → ℕ × List MemberRow
assign_all episode session [] rows = (0, rows)
assign_all episode session (id ∷ ids) rows =
    let one = assign episode session id rows in
    let rest = assign_all episode session ids one.1 in ((if one.0 then 1 else 0) + rest.0, rest.1)

unfoldable pub new_episode : Home → ℕ → ℕ → EpisodeClose → EpisodeRow
new_episode home id session close = record {
  episode_id = id;
  text = normalize_path home close.close_text;
  session_id = some session;
  model = name_or_null close.model_name;
  supersedes = none;
  span_start = close.start;
  span_end = close.end;
}

-- The transaction. An exception and a taken span roll it back; the taken span gives 0.
unfoldable pub insert_episode : Home → Archive → ℕ → EpisodeClose → CloseError ⊎ (ℕ × Archive)
insert_episode home st session close =
    let id = st.last_episode + 1 in
    let (assigned, rows) = assign_all id session close.member_turn_summary_ids st.members in
    if span_is_taken session close.start st.episodes
    then inr (0, st)
    else if not (assigned == length close.member_turn_summary_ids)
    then inl (not_assignable assigned)
    else inr (
      id,
      record st {
        members = rows;
        episodes = st.episodes ++ new_episode home id session close ∷ [];
        last_episode = id;
        cached = false;
      },
    )

-- `encodes` says whether the embedder can encode a text; it throws where it cannot.
unfoldable pub store_episode_close :
    Home → (Bytes → Bool) → Archive → EpisodeClose → CloseError ⊎ (ℕ × Archive)
store_episode_close home encodes st close =
    if null close.close_text
    then inl empty_text
    else if null close.member_turn_summary_ids
    then inl no_members
    else if ltb close.end close.start
    then inl bad_span
    else elim (find_session close.session_guid st.sessions) [
      | none ↦ inl (unknown_session close.session_guid)
      | some session ↦
          if not (encodes (normalize_path home close.close_text))
          then inl not_encoded
          else insert_episode home st session close
    ]
