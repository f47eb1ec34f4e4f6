-- ===== src/Sqlite/Capture/Kept.antt =====
-- What `store_turn` keeps of the turns that are there, and what it adds.
use ragger_cpp.Prelude.{
  Bool-cases, Bytes, List, Option, Option-cases, [], ap, append-nil, arith, equal, equal_iff, find,
  find_self, inl, inr, leb, none, not, null, refl, some, subst, sym, ℕ, ◌&&◌, ◌++◌, ◌+◌, ◌||◌, ◌∙◌,
  ◌∷◌, ◌≡◌, ◌≤◌,
}
use ragger_cpp.Sqlite.Capture.Merged.{merge_text-Keeps}
use ragger_cpp.Sqlite.Capture.{
  CapturedTurn, Log, Exchange, newest_turn, is_same_exchange, merge_text, update_turn, probe,
  merge_turn, insert_turn, find_guid, touch_session_span, time_of, get_or_create_session,
  store_turn,
}
use ragger_cpp.Sqlite.Knowledge.{Writer, get_or_create_model}
use ragger_cpp.Sqlite.Paths.{normalize_path}
use ragger_cpp.Sqlite.Turns.{name_or_null}
use ragger_cpp.Sqlite.Capture.Rows.{
  AllGrown, AllGrown-append, HasTurn, HasTurn-IsIn, HasTurn-append, Rising, Rising-append,
  newest_turn-IsIn, newest_turn_lem, update_turn-AllGrown, update_turn-HasTurn, update_turn-Rising,
}

-- What the probe found, and why.
pub record Probed (now : ℕ) (u : Bytes) (session : Option ℕ) (ts : List CapturedTurn)
    (t : CapturedTurn) : Type 0 where
  pub session_id : ℕ
  pub of_session : session ≡ some session_id
  pub newest : newest_turn session_id ts ≡ some t
  pub same_user : t.user_text ≡ u
  pub recent : now ≤ t.created_at + 300

pub probe-Probed :
    (now : ℕ) (u a timestamp : Bytes) (session : Option ℕ) (ts : List CapturedTurn)
    (t : CapturedTurn)
    → probe now u a timestamp session ts ≡ some t
    → Probed now u session ts t
unfolding probe is_same_exchange
probe-Probed now u a timestamp none ts t h = absurd (cc)
probe-Probed now u a timestamp (some s) ts t h =
    elim (Bool-cases (null a || not (null timestamp))) [
      | inl e ↦ absurd (ground (arith, e, h))
      | inr e ↦ elim (Option-cases (newest_turn s ts)) [
        | inl f ↦ absurd (ground (arith, e, f, h))
        | inr (q, f) ↦ elim (Bool-cases (equal q.user_text u && leb now (q.created_at + 300))) [
          | inr g ↦ absurd (ground (arith, e, f, g, h))
          | inl g ↦
              let same : q ≡ t = ground (arith, e, f, g, h) in
              record {
                session_id = s;
                of_session = refl;
                newest = f ∙ ap some same;
                same_user =
                    ap (λ (p : CapturedTurn). p.user_text) (sym same)
                    ∙ (equal_iff q.user_text u).0 (ground (arith, g));
                recent =
                    subst (λ (p : CapturedTurn). now ≤ p.created_at + 300) same (ground (arith, g));
              }
        ]
      ]
    ]

-- What a stored turn leaves: nothing is lost, and the exchange is in the row that is named.
abbrev pub Stored : Log → Bytes → Bytes → ℕ × Log → Type 0
Stored st u a (id, st') =
    AllGrown st.turns st'.turns × HasTurn id u a st'.turns × Rising 0 st'.turns st'.last_turn

merge_turn-Stored :
    (w : Writer) (now : ℕ) (st : Log) (t : CapturedTurn) (u a : Bytes) (e : Exchange)
    (session : Option ℕ) (out : ℕ × Log)
    → Rising 0 st.turns st.last_turn
    → Probed now u session st.turns t
    → merge_turn w st t a e ≡ some out
    → Stored st u a out
unfolding merge_turn
merge_turn-Stored w now st t u a e session out r p h =
    let merged = merge_text t.assistant_text a in
    let keeps = merge_text-Keeps t.assistant_text a in
    let row = newest_turn_lem 0 st.last_turn p.session_id st.turns t r p.newest in
    let there = newest_turn-IsIn p.session_id st.turns t p.newest in
    elim (Bool-cases (equal merged t.assistant_text)) [
      | inl f ↦
          let same = (equal_iff merged t.assistant_text).0 f in
          let result : ◌≡◌ {A = ℕ × Log} (t.turn_id, st) out = ground (arith, f, h) in
          subst (Stored st u a) result (
            subst (AllGrown st.turns) (append-nil st.turns) (AllGrown-append st.turns []),
            HasTurn-IsIn t u a st.turns there p.same_user (λ n. keeps.1 (ap (find a) same ∙ n)),
            r,
          )
      | inr f ↦
          let model = name_or_null e.model_name in
          let embedded = not e.defer_embedding in
          let rows = update_turn t.turn_id merged model embedded st.turns in
          let result : ◌≡◌ {A = ℕ × Log} (t.turn_id, record st { turns = rows }) out =
            ground (arith, f, h) in
          subst (Stored st u a) result (
            update_turn-AllGrown t merged model embedded st.turns row.0 keeps.0,
            update_turn-HasTurn t merged u a model embedded st.turns there p.same_user keeps.1,
            update_turn-Rising 0 st.last_turn t.turn_id merged model embedded st.turns r,
          )
    ]

insert_turn-Stored :
    (w : Writer) (now : ℕ) (st : Log) (session : Option ℕ) (u a : Bytes) (e : Exchange)
    (out : ℕ × Log)
    → Rising 0 st.turns st.last_turn
    → insert_turn w now st session u a e ≡ some out
    → Stored st u a out
unfolding insert_turn
insert_turn-Stored w now st session u a e out r h =
    let t : CapturedTurn = record {
      turn_id = st.last_turn + 1;
      model = name_or_null e.model_name;
      session_id = session;
      user_text = u;
      assistant_text = a;
      embedded = not e.defer_embedding && not (null a);
      created_at = time_of w now e.source_timestamp;
    } in
    let st' : Log = record st {
      turns = st.turns ++ t ∷ [];
      last_turn = st.last_turn + 1;
      sessions = touch_session_span session (time_of w now e.source_timestamp) st.sessions;
    } in
    let result : ◌≡◌ {A = ℕ × Log} (st.last_turn + 1, st') out = ground (arith, h) in
    subst (Stored st u a) result (
      AllGrown-append st.turns (t ∷ []),
      HasTurn-append (st.last_turn + 1) u a st.turns t refl refl (find_self a),
      Rising-append 0 st.last_turn st.turns t refl r,
    )

-- The session is found or made; the turns are not read.
pub get_or_create_session-turns :
    (guid name source : Bytes) (st : Log)
    → ((get_or_create_session guid name source st).1.turns ≡ st.turns)
      × ((get_or_create_session guid name source st).1.last_turn ≡ st.last_turn)
unfolding get_or_create_session
get_or_create_session-turns guid name source st = elim (Bool-cases (null guid)) [
  | inl e ↦ rw e (refl, refl)
  | inr e ↦ elim (Option-cases (find_guid guid st.sessions)) [
    | inl f ↦ rw e (rw f (refl, refl))
    | inr (id, f) ↦ elim (Bool-cases (null name)) [
      | inl g ↦ rw e (rw f (rw g (refl, refl)))
      | inr g ↦ rw e (rw f (rw g (refl, refl)))
    ]
  ]
]

-- If the ids of the turns rise to the counter at most and a turn is stored, then every row is
-- still in its place with its id, session, user side and date, and its assistant side starts
-- with what it had; a row with the id returned has the user side and, somewhere in its
-- assistant side, the reply; and the ids still rise.
pub store_turn_lem :
    (w : Writer) (now : ℕ) (st st' : Log) (e : Exchange) (id : ℕ)
    → Rising 0 st.turns st.last_turn
    → store_turn w now st e ≡ some (id, st')
    → AllGrown st.turns st'.turns
      × HasTurn id (normalize_path w.home e.user) (normalize_path w.home e.assistant) st'.turns
      × Rising 0 st'.turns st'.last_turn
unfolding store_turn
store_turn_lem w now st st' e id r h =
    let u = normalize_path w.home e.user in
    let a = normalize_path w.home e.assistant in
    let st1 = record st { models = get_or_create_model e.model_name st.models } in
    let made = get_or_create_session e.session_guid e.session_name e.name_source st1 in
    let (turns, last) =
      get_or_create_session-turns e.session_guid e.session_name e.name_source st1 in
    let r' : Rising 0 made.1.turns made.1.last_turn =
      subst (λ ts. Rising 0 ts made.1.last_turn) (sym turns)
        (subst (Rising 0 st.turns) (sym last) r) in
    let stored : Stored made.1 u a (id, st') =
      elim (Option-cases (probe now u a e.source_timestamp made.0 made.1.turns)) [
        | inl f ↦ insert_turn-Stored w now made.1 made.0 u a e (id, st') r' (ground (arith, f, h))
        | inr (t, f) ↦
            merge_turn-Stored w now made.1 t u a e made.0 (id, st') r'
              (probe-Probed now u a e.source_timestamp made.0 made.1.turns t f)
              (ground (arith, f, h))
      ] in
    (subst (λ ts. AllGrown ts st'.turns) turns stored.0, stored.1, stored.2)
