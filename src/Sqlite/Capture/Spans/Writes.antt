-- ===== src/Sqlite/Capture/Spans/Writes.antt =====
-- The spans of the sessions under each of the writes.
use ragger_cpp.Prelude.{
  All, All-append, All-imp, Bool, Bool-cases, Bytes, List, Option, Option-cases, [], arith, equal,
  inl, inr, ltb, none, not, null, refl, some, subst, ℕ, ◌&&◌, ◌++◌, ◌+◌, ◌==◌, ◌||◌, ◌∷◌, ◌≡◌, ◌≤◌,
}
use ragger_cpp.Sqlite.Capture.Corrections.{keep_since, cleanup_old_conversations}
use ragger_cpp.Sqlite.Capture.Spans.Sessions.{IsKnown, IsSpanned, get_or_create_session-IsSpanned}
use ragger_cpp.Sqlite.Capture.Spans.{Covered, touch_span-AllCovered}
use ragger_cpp.Sqlite.Capture.{
  CapturedTurn, Session, Log, Exchange, get_or_create_session, touch_span, touch_session_span,
  update_turn, probe, merge_turn, insert_turn, merge_text, turn_embed_text, time_of, store_turn,
  coalesce,
}
use ragger_cpp.Sqlite.Knowledge.{Writer, is_dated, get_or_create_model}
use ragger_cpp.Sqlite.Paths.{normalize_path}
use ragger_cpp.Sqlite.Turns.{name_or_null}

-- A property of a row's session and date is kept by the update of its other columns.
update_turn-All :
    (P : CapturedTurn → Type 0) (id : ℕ) (text : Bytes) (model : Option Bytes) (embedded : Bool)
    (ts : List CapturedTurn)
    → ((t : CapturedTurn)
        → P t
        → P (record t {
          assistant_text = text;
          model = coalesce t.model model;
          embedded = embedded;
        }))
    → All P ts
    → All P (update_turn id text model embedded ts)
unfolding update_turn
update_turn-All P id text model embedded [] f h = tt
update_turn-All P id text model embedded (t ∷ ts) f h =
    let rest = update_turn-All P id text model embedded ts f h.1 in
    elim (Bool-cases (t.turn_id == id)) [ inl e ↦ rw e (f t h.0, rest) | inr e ↦ rw e (h.0, rest) ]

touch_span-All :
    (last : ℕ) (session : Option ℕ) (time : ℕ) (ss : List Session)
    → All (λ (s : Session). s.session_id ≤ last) ss
    → All (λ (s : Session). s.session_id ≤ last) (touch_session_span session time ss)
unfolding touch_span
touch_span-All last none time ss h = h
touch_span-All last (some id) time [] h = tt
touch_span-All last (some id) time (s ∷ ss) h =
    let rest = touch_span-All last (some id) time ss h.1 in
    elim (Bool-cases (s.session_id == id)) [ inl e ↦ rw e (h.0, rest) | inr e ↦ rw e (h.0, rest) ]

merge_turn-IsSpanned :
    (w : Writer) (st st' : Log) (t : CapturedTurn) (a : Bytes) (e : Exchange) (id : ℕ)
    → merge_turn w st t a e ≡ some (id, st')
    → IsSpanned st
    → IsSpanned st'
unfolding merge_turn
merge_turn-IsSpanned w st st' t a e id h l =
    let merged = merge_text t.assistant_text a in
    elim (Bool-cases (equal merged t.assistant_text)) [
      | inl same ↦ let there : st ≡ st' = ground (arith, same, h) in subst IsSpanned there l
      | inr new ↦
          elim (Bool-cases
            (not e.defer_embedding && not (w.encodes (turn_embed_text t.user_text merged)))) [
              | inl failed ↦ absurd (ground (arith, new, failed, h))
              | inr fine ↦
                  let model = name_or_null e.model_name in
                  let vector = not e.defer_embedding in
                  let ts = update_turn t.turn_id merged model vector st.turns in
                  let same : record st { turns = ts } ≡ st' = ground (arith, new, fine, h) in
                  subst IsSpanned same (
                    All-imp (λ s. All (Covered s) st.turns) (λ s. All (Covered s) ts)
                        (λ s k.
                          update_turn-All (Covered s) t.turn_id merged model vector st.turns
                            (λ q c. c) k)
                        st.sessions l.0,
                    update_turn-All (λ q. IsKnown st.last_session q.session_id) t.turn_id merged
                        model vector st.turns (λ q c. c) l.1,
                    l.2,
                  )
            ]
    ]

insert_turn-IsSpanned :
    (w : Writer) (now : ℕ) (st st' : Log) (session : Option ℕ) (u a : Bytes) (e : Exchange) (id : ℕ)
    → insert_turn w now st session u a e ≡ some (id, st')
    → IsKnown st.last_session session
    → IsSpanned st
    → IsSpanned st'
unfolding insert_turn
insert_turn-IsSpanned w now st st' session u a e id h k l =
    let embeds = not e.defer_embedding && not (null a) in
    let time = time_of w now e.source_timestamp in
    let new : CapturedTurn = record {
      turn_id = st.last_turn + 1;
      model = name_or_null e.model_name;
      session_id = session;
      user_text = u;
      assistant_text = a;
      embedded = embeds;
      created_at = time;
    } in
    elim (Bool-cases
      (embeds && not (w.encodes (turn_embed_text u a)) || not (is_dated w e.source_timestamp))) [
        | inl failed ↦ absurd (ground (arith, failed, h))
        | inr fine ↦
            let after : Log = record st {
              turns = st.turns ++ new ∷ [];
              last_turn = st.last_turn + 1;
              sessions = touch_session_span session time st.sessions;
            } in
            let same : after ≡ st' = ground (arith, fine, h) in
            subst IsSpanned same (
              touch_span-AllCovered st.turns new session st.sessions refl l.0,
              All-append (λ q. IsKnown st.last_session q.session_id) st.turns (new ∷ []) l.1
                  (k, tt),
              touch_span-All st.last_session session time st.sessions l.2,
            )
      ]

pub store_turn-IsSpanned :
    (w : Writer) (now : ℕ) (st st' : Log) (e : Exchange) (id : ℕ)
    → store_turn w now st e ≡ some (id, st')
    → IsSpanned st
    → IsSpanned st'
unfolding store_turn
store_turn-IsSpanned w now st st' e id h l =
    let u = normalize_path w.home e.user in
    let a = normalize_path w.home e.assistant in
    let st1 = record st { models = get_or_create_model e.model_name st.models } in
    let given = get_or_create_session e.session_guid e.session_name e.name_source st1 in
    let kept = get_or_create_session-IsSpanned e.session_guid e.session_name e.name_source st1 l in
    elim (Option-cases (probe now u a e.source_timestamp given.0 given.1.turns)) [
      | inl p ↦
          insert_turn-IsSpanned w now given.1 st' given.0 u a e id (rw (p, store_turn) at h) kept.1
            kept.0
      | inr (t, p) ↦ merge_turn-IsSpanned w given.1 st' t a e id (rw (p, store_turn) at h) kept.0
    ]

keep_since-All :
    (P : CapturedTurn → Type 0) (cutoff : ℕ) (ts : List CapturedTurn)
    → All P ts
    → All P (keep_since cutoff ts).1
unfolding keep_since
keep_since-All P cutoff [] h = tt
keep_since-All P cutoff (t ∷ ts) h =
    let rest = keep_since-All P cutoff ts h.1 in
    elim (Bool-cases (ltb t.created_at cutoff)) [ inl e ↦ rw e rest | inr e ↦ rw e (h.0, rest) ]

pub cleanup_old_conversations-IsSpanned :
    (cutoff : ℕ) (st : Log) → IsSpanned st → IsSpanned (cleanup_old_conversations cutoff st).1
unfolding cleanup_old_conversations
cleanup_old_conversations-IsSpanned cutoff st l = (
  All-imp (λ s. All (Covered s) st.turns) (λ s. All (Covered s) (keep_since cutoff st.turns).1)
      (λ s k. keep_since-All (Covered s) cutoff st.turns k) st.sessions l.0,
  keep_since-All (λ q. IsKnown st.last_session q.session_id) cutoff st.turns l.1,
  l.2,
)
