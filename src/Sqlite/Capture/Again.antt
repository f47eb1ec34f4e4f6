-- ===== src/Sqlite/Capture/Again.antt =====
-- The same exchange captured twice.
use ragger_cpp.Prelude.{
  ==_iff, Bool-cases, Bytes, List, Option-cases, [], ap, arith, equal, equal_iff, false, inl, inr,
  not, null, refl, some, subst, sym, true, ℕ, ◌&&◌, ◌++◌, ◌+◌, ◌==◌, ◌∙◌, ◌∷◌, ◌≡◌, ◌≤◌,
}
use ragger_cpp.Sqlite.Capture.Rows.{Rising}
use ragger_cpp.Sqlite.Capture.Kept.{probe-Probed, get_or_create_session-turns}
use ragger_cpp.Sqlite.Capture.Merged.{merge_text-merge_text}
use ragger_cpp.Sqlite.Capture.{
  CapturedTurn, Log, Exchange, newest_turn, is_same_exchange, coalesce, merge_text, update_turn,
  probe, merge_turn, insert_turn, find_guid, touch_session_span, time_of, get_or_create_session,
  store_turn,
}
use ragger_cpp.Sqlite.Knowledge.{Writer, get_or_create_model}
use ragger_cpp.Sqlite.Paths.{normalize_path}
use ragger_cpp.Sqlite.Turns.{name_or_null}
use ragger_cpp.Sqlite.Capture.Sessions.{
  find_guid-touch_session_span, session_found, session_given, session_kept,
}
use ragger_cpp.Sqlite.Capture.Newest.{merge_text_self, newest_turn-append, newest_turn-update_turn}

-- The newest turn of the session is the row, which another capture of the exchange leaves as it is.
record IsSettled (now : ℕ) (u a : Bytes) (session : ℕ) (ts : List CapturedTurn) (id : ℕ)
    : Type 0 where
  turn : CapturedTurn
  newest : newest_turn session ts ≡ some turn
  names : turn.turn_id ≡ id
  same_user : turn.user_text ≡ u
  recent : now ≤ turn.created_at + 300
  merges : merge_text turn.assistant_text a ≡ turn.assistant_text

merge_turn-IsSettled :
    (w : Writer) (now : ℕ) (st : Log) (t : CapturedTurn) (u a : Bytes) (e : Exchange) (session : ℕ)
    (out : ℕ × Log)
    → newest_turn session st.turns ≡ some t
    → t.user_text ≡ u
    → now ≤ t.created_at + 300
    → merge_turn w st t a e ≡ some out
    → IsSettled now u a session out.1.turns out.0 × (out.1.sessions ≡ st.sessions)
unfolding merge_turn
merge_turn-IsSettled w now st t u a e session out n s k h =
    let merged = merge_text t.assistant_text a in
    let model = name_or_null e.model_name in
    let embedded = not e.defer_embedding in
    elim (Bool-cases (equal merged t.assistant_text)) [
      | inl f ↦
          let result : ◌≡◌ {A = ℕ × Log} (t.turn_id, st) out = ground (arith, f, h) in
          subst
            (λ (o : ℕ × Log).
              IsSettled now u a session o.1.turns o.0 × (o.1.sessions ≡ st.sessions))
            result
            (
              record {
                turn = t;
                newest = n;
                names = refl;
                same_user = s;
                recent = k;
                merges = (equal_iff merged t.assistant_text).0 f;
              },
              refl,
            )
      | inr f ↦
          let rows = update_turn t.turn_id merged model embedded st.turns in
          let result : ◌≡◌ {A = ℕ × Log} (t.turn_id, record st { turns = rows }) out =
            ground (arith, f, h) in
          let itself : (t.turn_id == t.turn_id) ≡ true = (==_iff t.turn_id t.turn_id).1 refl in
          subst
            (λ (o : ℕ × Log).
              IsSettled now u a session o.1.turns o.0 × (o.1.sessions ≡ st.sessions))
            result
            (
              record {
                turn = record t {
                  assistant_text = merged;
                  model = coalesce t.model model;
                  embedded = embedded;
                };
                newest =
                    newest_turn-update_turn session t.turn_id merged model embedded st.turns
                    ∙ rw n (rw itself refl);
                names = refl;
                same_user = s;
                recent = k;
                merges = merge_text-merge_text t.assistant_text a;
              },
              refl,
            )
    ]

insert_turn-IsSettled :
    (w : Writer) (now : ℕ) (st : Log) (u a : Bytes) (e : Exchange) (session : ℕ) (out : ℕ × Log)
    → Rising 0 st.turns st.last_turn
    → null e.source_timestamp ≡ true
    → insert_turn w now st (some session) u a e ≡ some out
    → IsSettled now u a session out.1.turns out.0
      × (out.1.sessions ≡ touch_session_span (some session) now st.sessions)
unfolding insert_turn time_of
insert_turn-IsSettled w now st u a e session out r z h =
    let t : CapturedTurn = record {
      turn_id = st.last_turn + 1;
      model = name_or_null e.model_name;
      session_id = some session;
      user_text = u;
      assistant_text = a;
      embedded = not e.defer_embedding && not (null a);
      created_at = now;
    } in
    let st' : Log = record st {
      turns = st.turns ++ t ∷ [];
      last_turn = st.last_turn + 1;
      sessions = touch_session_span (some session) now st.sessions;
    } in
    let result : ◌≡◌ {A = ℕ × Log} (st.last_turn + 1, st') out = ground (arith, z, h) in
    subst
      (λ (o : ℕ × Log).
        IsSettled now u a session o.1.turns o.0
        × (o.1.sessions ≡ touch_session_span (some session) now st.sessions))
      result
      (
        record {
          turn = t;
          newest = newest_turn-append 0 st.last_turn session st.turns t r refl refl;
          names = refl;
          same_user = refl;
          recent = omega arith;
          merges = merge_text_self a;
        },
        refl,
      )

probe-IsSettled :
    (w : Writer) (now : ℕ) (st : Log) (u a : Bytes) (e : Exchange) (session id : ℕ)
    → null a ≡ false
    → null e.source_timestamp ≡ true
    → IsSettled now u a session st.turns id
    → (t : CapturedTurn) × (probe now u a e.source_timestamp (some session) st.turns ≡ some t)
      × (merge_turn w st t a e ≡ some (id, st))
unfolding probe is_same_exchange merge_turn
probe-IsSettled w now st u a e session id na z s =
    let t = s.turn in
    let user : equal t.user_text u ≡ true = (equal_iff t.user_text u).1 s.same_user in
    let held : equal (merge_text t.assistant_text a) t.assistant_text ≡ true =
      (equal_iff (merge_text t.assistant_text a) t.assistant_text).1 s.merges in
    (
      t,
      rw na (rw z (rw s.newest (rw user (ground (arith, s.recent))))),
      rw held (ap (λ n. some (n, st)) s.names),
    )

-- If an exchange with a session and a reply, not imported, is stored in a table whose ids rise
-- to the counter at most, then storing it again in the same second gives the same id and
-- leaves the turns as they are.
pub store_turn-again :
    (w : Writer) (now : ℕ) (st st' : Log) (e : Exchange) (id : ℕ)
    → Rising 0 st.turns st.last_turn
    → null e.session_guid ≡ false
    → null (normalize_path w.home e.assistant) ≡ false
    → null e.source_timestamp ≡ true
    → store_turn w now st e ≡ some (id, st')
    → (st'' : Log) × (store_turn w now st' e ≡ some (id, st'')) × (st''.turns ≡ st'.turns)
unfolding store_turn
store_turn-again w now st st' e id r g na z h =
    let u = normalize_path w.home e.user in
    let a = normalize_path w.home e.assistant in
    let st1 = record st { models = get_or_create_model e.model_name st.models } in
    let made = get_or_create_session e.session_guid e.session_name e.name_source st1 in
    let (turns, last) =
      get_or_create_session-turns e.session_guid e.session_name e.name_source st1 in
    let (session, is_session) = session_given e.session_guid e.session_name e.name_source st1 g in
    let found = session_found e.session_guid e.session_name e.name_source st1 g ∙ is_session in
    let r' : Rising 0 made.1.turns made.1.last_turn =
      subst (λ ts. Rising 0 ts made.1.last_turn) (sym turns)
        (subst (Rising 0 st.turns) (sym last) r) in
    let settled : IsSettled now u a session st'.turns id
        × (find_guid e.session_guid st'.sessions ≡ some session) =
      elim (Option-cases (probe now u a e.source_timestamp made.0 made.1.turns)) [
        | inl f ↦
            let inserted : insert_turn w now made.1 (some session) u a e ≡ some (id, st') =
              ap (λ o. insert_turn w now made.1 o u a e) (sym is_session) ∙ ground (arith, f, h) in
            let s = insert_turn-IsSettled w now made.1 u a e session (id, st') r' z inserted in
            (
              s.0,
              ap (find_guid e.session_guid) s.1
                  ∙ find_guid-touch_session_span e.session_guid (some session) now made.1.sessions
                  ∙ found,
            )
        | inr (t, f) ↦
            let p = probe-Probed now u a e.source_timestamp made.0 made.1.turns t f in
            let same : p.session_id ≡ session = ground (arith, p.of_session, is_session) in
            let s =
              merge_turn-IsSettled w now made.1 t u a e session (id, st')
                (ap (λ n. newest_turn n made.1.turns) (sym same) ∙ p.newest) p.same_user p.recent
                (ground (arith, f, h)) in
            (s.0, ap (find_guid e.session_guid) s.1 ∙ found)
      ] in
    let st2 = record st' { models = get_or_create_model e.model_name st'.models } in
    let next = get_or_create_session e.session_guid e.session_name e.name_source st2 in
    let (turns2, last2) =
      get_or_create_session-turns e.session_guid e.session_name e.name_source st2 in
    let again = session_kept e.session_guid e.session_name e.name_source st2 session g settled.1 in
    let (t, probed, merged) =
      probe-IsSettled w now next.1 u a e session id na z
        (subst (λ ts. IsSettled now u a session ts id) (sym turns2) settled.0) in
    let probed' : probe now u a e.source_timestamp next.0 next.1.turns ≡ some t =
      ap (λ o. probe now u a e.source_timestamp o next.1.turns) again ∙ probed in
    (next.1, rw (probed', store_turn) merged, turns2)
