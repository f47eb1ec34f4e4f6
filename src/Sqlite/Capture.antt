-- ===== src/Sqlite/Capture.antt =====
-- `store_turn`, `get_or_create_session` and `touch_session_span` of src/sqlite/write.cpp, and
-- `capture_turn` of src/memory.cpp. `now` is the clock's second. Failures of the database, the
-- connections beside this one and the text index are left out.
pub mod Merged
pub mod Sessions
pub mod Rows
pub mod Kept
pub mod Newest
pub mod Again
pub mod Corrections
pub mod Spans
use ragger_cpp.Prelude.{
  Bool, Bytes, List, Option, [], codes, equal, false, find, if◌then◌else◌, leb, length, ltb, negsuc,
  none, not, null, pos, some, starts_with, true, ℕ, ℤ, ◌&&◌, ◌++◌, ◌+◌, ◌==◌, ◌||◌, ◌∷◌,
}
use ragger_cpp.Sqlite.Knowledge.{Writer, is_dated, get_or_create_model}
use ragger_cpp.Sqlite.Paths.{normalize_path}
use ragger_cpp.Sqlite.Turns.{name_or_null, holds_id}
use ragger_cpp.Summarizer.Markers.{strip_system_injected_prefix}

-- A row of `turns`; an empty assistant side stands for NULL.
pub record CapturedTurn : Type 0 where
  pub turn_id : ℕ
  pub model : Option Bytes
  pub session_id : Option ℕ
  pub user_text : Bytes
  pub assistant_text : Bytes
  pub embedded : Bool
  pub created_at : ℕ

pub record Session : Type 0 where
  pub session_id : ℕ
  pub guid : Bytes
  pub name : Option Bytes
  pub name_source : Option Bytes
  pub started_on : Option ℕ
  pub ended_on : Option ℕ

-- The tables and their AUTOINCREMENT counters.
pub record Log : Type 0 where
  pub turns : List CapturedTurn
  pub last_turn : ℕ
  pub sessions : List Session
  pub last_session : ℕ
  pub models : List Bytes

pub record Exchange : Type 0 where
  pub user : Bytes
  pub assistant : Bytes
  pub model_name : Bytes
  pub defer_embedding : Bool
  pub session_guid : Bytes
  pub source_timestamp : Bytes
  pub session_name : Bytes
  pub name_source : Bytes

unfoldable pub find_guid : Bytes → List Session → Option ℕ
find_guid guid [] = none
find_guid guid (s ∷ ss) = if equal s.guid guid then some s.session_id else find_guid guid ss

-- `name IS NULL OR name != ?`
abbrev pub is_renamed : Option Bytes → Bytes → Bool
is_renamed none name = true
is_renamed (some old) name = not (equal old name)

unfoldable pub rename_session : ℕ → Bytes → Bytes → List Session → List Session
rename_session id name source [] = []
rename_session id name source (s ∷ ss) =
    let rest = rename_session id name source ss in
    if s.session_id == id && is_renamed s.name name
    then record s { name = some name; name_source = some source } ∷ rest
    else s ∷ rest

abbrev new_session : ℕ → Bytes → Bytes → Bytes → Session
new_session id guid name source = record {
  session_id = id;
  guid = guid;
  name = name_or_null name;
  name_source = if null name then none else some source;
  started_on = none;
  ended_on = none;
}

-- `none` is the 0 of an empty guid.
unfoldable pub get_or_create_session : Bytes → Bytes → Bytes → Log → Option ℕ × Log
get_or_create_session guid name source st =
    if null guid then (none, st) else (elim (find_guid guid st.sessions) [
      | some id ↦ (
        some id,
        if null name
            then st
            else record st { sessions = rename_session id name source st.sessions },
      )
      | none ↦ (
        some (st.last_session + 1),
        record st {
          sessions = st.sessions ++ new_session (st.last_session + 1) guid name source ∷ [];
          last_session = st.last_session + 1;
        },
      )
    ])

abbrev pub lower_bound : Option ℕ → ℕ → Option ℕ
lower_bound none t = some t
lower_bound (some s) t = some (if ltb t s then t else s)

abbrev pub upper_bound : Option ℕ → ℕ → Option ℕ
upper_bound none t = some t
upper_bound (some s) t = some (if ltb s t then t else s)

unfoldable pub touch_span : ℕ → ℕ → List Session → List Session
touch_span id t [] = []
touch_span id t (s ∷ ss) =
    let rest = touch_span id t ss in
    if s.session_id == id
    then record s { started_on = lower_bound s.started_on t; ended_on = upper_bound s.ended_on t }
      ∷ rest
    else s ∷ rest

abbrev pub touch_session_span : Option ℕ → ℕ → List Session → List Session
touch_session_span none t ss = ss
touch_session_span (some id) t ss = touch_span id t ss

-- The newer by id of a row and the one found behind it.
abbrev pub newer : CapturedTurn → Option CapturedTurn → CapturedTurn
newer t none = t
newer t (some u) = if ltb t.turn_id u.turn_id then u else t

-- ORDER BY turn_id DESC LIMIT 1
unfoldable pub newest_turn : ℕ → List CapturedTurn → Option CapturedTurn
newest_turn session [] = none
newest_turn session (t ∷ ts) =
    let rest = newest_turn session ts in
    if holds_id session t.session_id then some (newer t rest) else rest

-- Same user text, within five minutes.
unfoldable pub is_same_exchange : ℕ → Bytes → CapturedTurn → Bool
is_same_exchange now user t = equal t.user_text user && leb now (t.created_at + 300)

-- The text that the row is to have: filled, grown, as it is, or continued.
unfoldable pub merge_text : Bytes → Bytes → Bytes
merge_text prev new =
    if null prev || (leb (length prev) (length new) && starts_with prev new)
    then new
    else (elim (find new prev) [ some k ↦ prev | none ↦ prev ++ (codes "\n\n" ++ new) ])

-- COALESCE(model_id, ?)
abbrev pub coalesce : Option Bytes → Option Bytes → Option Bytes
coalesce none new = new
coalesce (some old) new = some old

unfoldable pub update_turn : ℕ → Bytes → Option Bytes → Bool → List CapturedTurn → List CapturedTurn
update_turn id text model embedded [] = []
update_turn id text model embedded (t ∷ ts) =
    let rest = update_turn id text model embedded ts in
    if t.turn_id == id
    then record t { assistant_text = text; model = coalesce t.model model; embedded = embedded }
      ∷ rest
    else t ∷ rest

-- `turn_embed_text`
abbrev pub turn_embed_text : Bytes → Bytes → Bytes
turn_embed_text u a = if null a then u else u ++ codes "\n" ++ 0x1F ∷ codes "\n" ++ a

-- The row found by the probe, where there is a session.
unfoldable pub probe :
    ℕ → Bytes → Bytes → Bytes → Option ℕ → List CapturedTurn → Option CapturedTurn
probe now u a timestamp none ts = none
probe now u a timestamp (some session) ts =
    if null a || not (null timestamp) then none else (elim (newest_turn session ts) [
      | none ↦ none
      | some t ↦ if is_same_exchange now u t then some t else none
    ])

-- The row of the exchange is there already. The embedder throws, here `none`, where it cannot encode.
unfoldable pub merge_turn : Writer → Log → CapturedTurn → Bytes → Exchange → Option (ℕ × Log)
merge_turn w st t a e =
    let merged = merge_text t.assistant_text a in
    if equal merged t.assistant_text
    then some (t.turn_id, st)
    else if not e.defer_embedding && not (w.encodes (turn_embed_text t.user_text merged))
    then none
    else some (
      t.turn_id,
      record st {
        turns =
            update_turn t.turn_id merged (name_or_null e.model_name) (not e.defer_embedding)
              st.turns;
      },
    )

unfoldable pub time_of : Writer → ℕ → Bytes → ℕ
time_of w now timestamp = if null timestamp then now else w.epoch timestamp

unfoldable pub insert_turn :
    Writer → ℕ → Log → Option ℕ → Bytes → Bytes → Exchange → Option (ℕ × Log)
insert_turn w now st session u a e =
    let id = st.last_turn + 1 in
    let embeds = not e.defer_embedding && not (null a) in
    let time = time_of w now e.source_timestamp in
    if embeds && not (w.encodes (turn_embed_text u a)) || not (is_dated w e.source_timestamp)
    then none
    else some (
      id,
      record st {
        turns =
            st.turns
            ++ record {
              turn_id = id;
              model = name_or_null e.model_name;
              session_id = session;
              user_text = u;
              assistant_text = a;
              embedded = embeds;
              created_at = time;
            }
              ∷ [];
        last_turn = id;
        sessions = touch_session_span session time st.sessions;
      },
    )

-- `none` is an exception: the model and the session are there then, but no turn is written.
unfoldable pub store_turn : Writer → ℕ → Log → Exchange → Option (ℕ × Log)
store_turn w now st e =
    let u = normalize_path w.home e.user in
    let a = normalize_path w.home e.assistant in
    let st1 = record st { models = get_or_create_model e.model_name st.models } in
    let (session, st2) = get_or_create_session e.session_guid e.session_name e.name_source st1 in
    elim (probe now u a e.source_timestamp session st2.turns) [
      | some t ↦ merge_turn w st2 t a e
      | none ↦ insert_turn w now st2 session u a e
    ]

-- `stored`, the id, which is -1 where nothing is, and the text; with `capturing` off or nothing to keep, nothing is stored.
unfoldable pub capture_turn : Bool → Writer → ℕ → Log → Exchange → Option ((Bool × ℤ × Bytes) × Log)
capture_turn capturing w now st e =
    let clean = strip_system_injected_prefix e.user in
    if not capturing
    then some ((false, negsuc 0, []), st)
    else if null clean && null e.assistant
    then some ((false, negsuc 0, []), st)
    else (elim (store_turn w now st
        (record e { user = clean; defer_embedding = false; source_timestamp = [] })) [
          | none ↦ none
          | some (id, st') ↦ some ((true, pos id, clean), st')
        ])
