-- ===== src/Sqlite/Capture/Corrections.antt =====
-- `update_turn_meta` and `finalize_turn` of src/sqlite/write.cpp and `cleanup_old_conversations` of
-- src/sqlite/backend.cpp. The cutoff of a cleanup, which floats and the clock give, is an argument.
use ragger_cpp.Prelude.{
  Bool, Bytes, List, Option, [], false, if◌then◌else◌, ltb, none, not, null, some, true, ℕ, ◌&&◌,
  ◌+◌, ◌==◌, ◌∷◌,
}
use ragger_cpp.Sqlite.Capture.{
  CapturedTurn, Session, Log, get_or_create_session, lower_bound, upper_bound, coalesce,
  turn_embed_text,
}
use ragger_cpp.Sqlite.Knowledge.{Writer, is_dated, get_or_create_model}
use ragger_cpp.Sqlite.Turns.{holds_id, name_or_null}
use ragger_cpp.Sqlite.Paths.{normalize_path}

-- MIN(created_at) of the session, NULL without turns
unfoldable pub min_created : ℕ → List CapturedTurn → Option ℕ
min_created id [] = none
min_created id (t ∷ ts) =
    let rest = min_created id ts in
    if holds_id id t.session_id then lower_bound rest t.created_at else rest

-- MAX(created_at)
unfoldable pub max_created : ℕ → List CapturedTurn → Option ℕ
max_created id [] = none
max_created id (t ∷ ts) =
    let rest = max_created id ts in
    if holds_id id t.session_id then upper_bound rest t.created_at else rest

unfoldable pub set_span : ℕ → Option ℕ → Option ℕ → List Session → List Session
set_span id low high [] = []
set_span id low high (s ∷ ss) =
    let rest = set_span id low high ss in
    if s.session_id == id then record s { started_on = low; ended_on = high } ∷ rest else s ∷ rest

abbrev pub recompute_span : Option ℕ → List CapturedTurn → List Session → List Session
recompute_span none ts ss = ss
recompute_span (some id) ts ss = set_span id (min_created id ts) (max_created id ts) ss

-- The session that the turn is moved to, if it is another than its old one.
unfoldable pub recompute_new : Option ℕ → Option ℕ → List CapturedTurn → List Session → List Session
recompute_new old none ts ss = ss
recompute_new old (some id) ts ss = if holds_id id old then ss else recompute_span (some id) ts ss

-- The session of a turn; the outer `none` is a row that is not there.
unfoldable pub session_of : ℕ → List CapturedTurn → Option (Option ℕ)
session_of id [] = none
session_of id (t ∷ ts) =
    let rest = session_of id ts in if t.turn_id == id then some t.session_id else rest

abbrev pub given_or : {A : Type 0} → Option A → A → A
given_or none old = old
given_or (some new) old = new

-- A session that is not given is left as it is.
abbrev pub session_or : Option ℕ → Option ℕ → Option ℕ
session_or none old = old
session_or (some id) old = some id

-- `turn_id` is the primary key, so one row is set at most.
unfoldable pub move_turn : ℕ → Option ℕ → Option ℕ → List CapturedTurn → List CapturedTurn
move_turn id time session [] = []
move_turn id time session (t ∷ ts) =
    let rest = move_turn id time session ts in
    if t.turn_id == id
    then record t {
      session_id = session_or session t.session_id;
      created_at = given_or time t.created_at;
    }
      ∷ ts
    else t ∷ rest

abbrev pub given_time : Writer → Bytes → Option ℕ
given_time w timestamp = if null timestamp then none else some (w.epoch timestamp)

-- A session is made for a new guid whether or not the row is there.
-- `none` is the exception of a malformed time, which rolls everything back.
unfoldable pub update_turn_meta : Writer → Log → ℕ → Bytes → Bytes → Option (Bool × Log)
update_turn_meta w st id timestamp guid =
    let (session, st1) = get_or_create_session guid [] [] st in
    let turns = move_turn id (given_time w timestamp) session st1.turns in
    if null timestamp && null guid
    then some (true, st)
    else if not (is_dated w timestamp)
    then none
    else (elim (session_of id st.turns) [
      | none ↦ some (false, st1)
      | some old ↦ some (
        true,
        record st1 {
          turns = turns;
          sessions = recompute_new old session turns (recompute_span old turns st1.sessions);
        },
      )
    ])

unfoldable pub keep_since : ℕ → List CapturedTurn → ℕ × List CapturedTurn
keep_since cutoff [] = (0, [])
keep_since cutoff (t ∷ ts) =
    let (deleted, kept) = keep_since cutoff ts in
    if ltb t.created_at cutoff then (deleted + 1, kept) else (deleted, t ∷ kept)

-- The spans of the sessions are left as they are.
unfoldable pub cleanup_old_conversations : ℕ → Log → ℕ × Log
cleanup_old_conversations cutoff st =
    let (deleted, kept) = keep_since cutoff st.turns in (deleted, record st { turns = kept })

unfoldable pub user_text_of : ℕ → List CapturedTurn → Option Bytes
user_text_of id [] = none
user_text_of id (t ∷ ts) =
    let rest = user_text_of id ts in if t.turn_id == id then some t.user_text else rest

-- COALESCE(?, model_id): a model that is given replaces the one of the row.
unfoldable pub finalize_row : ℕ → Bytes → Option Bytes → List CapturedTurn → List CapturedTurn
finalize_row id text model [] = []
finalize_row id text model (t ∷ ts) =
    let rest = finalize_row id text model ts in
    if t.turn_id == id
    then record t { assistant_text = text; model = coalesce model t.model; embedded = true } ∷ rest
    else t ∷ rest

-- The assistant side is bound as it is, so that an empty one is no NULL in the code.
-- `none` is the exception of an embedder that cannot encode; only the model is there then.
unfoldable pub finalize_turn : Writer → Log → ℕ → Bytes → Bytes → Option (Bool × Log)
finalize_turn w st id assistant model_name =
    let a = normalize_path w.home assistant in
    elim (user_text_of id st.turns) [
      | none ↦ some (false, st)
      | some u ↦
          if w.encodes (turn_embed_text u a)
          then some (
            true,
            record st {
              turns = finalize_row id a (name_or_null model_name) st.turns;
              models = get_or_create_model model_name st.models;
            },
          )
          else none
    ]
