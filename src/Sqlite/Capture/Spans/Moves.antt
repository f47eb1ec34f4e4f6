-- ===== src/Sqlite/Capture/Spans/Moves.antt =====
-- The spans of the sessions when a turn is corrected or finalized.
use ragger_cpp.Prelude.{
  All, All-imp, Bool, Bool-cases, Bytes, List, Option, Option-cases, [], ap, arith, inl, inr, none,
  not, null, some, some-injective, subst, sym, true, ℕ, ◌&&◌, ◌==◌, ◌∙◌, ◌∷◌, ◌≡◌, ◌≢◌, ◌≤◌,
}
use ragger_cpp.Sqlite.Capture.Corrections.{
  given_time, session_or, session_of, move_turn, update_turn_meta, user_text_of, finalize_row,
  finalize_turn, recompute_span, recompute_new, set_span, min_created, max_created,
}
use ragger_cpp.Sqlite.Capture.Spans.Sessions.{IsKnown, IsSpanned, get_or_create_session-IsSpanned}
use ragger_cpp.Sqlite.Capture.Spans.{Covered, recompute_new-AllCovered}
use ragger_cpp.Sqlite.Capture.{
  CapturedTurn, Session, Log, get_or_create_session, coalesce, turn_embed_text,
}
use ragger_cpp.Sqlite.Knowledge.{Writer, is_dated, get_or_create_model}
use ragger_cpp.Sqlite.Turns.{holds_id, name_or_null}
use ragger_cpp.Sqlite.Paths.{normalize_path}

-- A session that the turn neither leaves nor joins covers its turns as before.
move_turn-Covered :
    (s : Session) (id : ℕ) (time session old : Option ℕ) (ts : List CapturedTurn)
    → session_of id ts ≡ some old
    → old ≢ some s.session_id
    → session ≢ some s.session_id
    → All (Covered s) ts
    → All (Covered s) (move_turn id time session ts)
unfolding move_turn session_of
move_turn-Covered s id time session old [] o d d' h = tt
move_turn-Covered s id time session old (t ∷ ts) o d d' h = elim (Bool-cases (t.turn_id == id)) [
  | inl e ↦
      let same : t.session_id ≡ old = some-injective t.session_id old (rw (e, session_of) at o) in
      rw e (λ f. absurd (elsewhere session d' (λ g. d (sym same ∙ g)) f), h.1)
  | inr e ↦
      rw e (h.0, move_turn-Covered s id time session old ts (rw (e, session_of) at o) d d' h.1)
]
  where
    elsewhere :
        (o : Option ℕ)
        → o ≢ some s.session_id
        → t.session_id ≢ some s.session_id
        → session_or o t.session_id ≡ some s.session_id
        → ⊥
    elsewhere none d e f = e f
    elsewhere (some k) d e f = d f

move_turn-IsKnown :
    (last id : ℕ) (time session : Option ℕ) (ts : List CapturedTurn)
    → IsKnown last session
    → All (λ (t : CapturedTurn). IsKnown last t.session_id) ts
    → All (λ (t : CapturedTurn). IsKnown last t.session_id) (move_turn id time session ts)
unfolding move_turn
move_turn-IsKnown last id time session [] k h = tt
move_turn-IsKnown last id time session (t ∷ ts) k h =
    let rest = move_turn-IsKnown last id time session ts k h.1 in
    elim (Bool-cases (t.turn_id == id)) [
      | inl e ↦ rw e (either session k, h.1)
      | inr e ↦ rw e (h.0, rest)
    ]
  where
    either : (o : Option ℕ) → IsKnown last o → IsKnown last (session_or o t.session_id)
    either none k = h.0
    either (some n) k = k

set_span-known :
    (last id : ℕ) (low high : Option ℕ) (ss : List Session)
    → All (λ (s : Session). s.session_id ≤ last) ss
    → All (λ (s : Session). s.session_id ≤ last) (set_span id low high ss)
unfolding set_span
set_span-known last id low high [] h = tt
set_span-known last id low high (s ∷ ss) h =
    let rest = set_span-known last id low high ss h.1 in
    elim (Bool-cases (s.session_id == id)) [ inl e ↦ rw e (h.0, rest) | inr e ↦ rw e (h.0, rest) ]

recompute_span-known :
    (last : ℕ) (o : Option ℕ) (ts : List CapturedTurn) (ss : List Session)
    → All (λ (s : Session). s.session_id ≤ last) ss
    → All (λ (s : Session). s.session_id ≤ last) (recompute_span o ts ss)
recompute_span-known last none ts ss h = h
recompute_span-known last (some id) ts ss h =
    set_span-known last id (min_created id ts) (max_created id ts) ss h

recompute_new-known :
    (last : ℕ) (old o : Option ℕ) (ts : List CapturedTurn) (ss : List Session)
    → All (λ (s : Session). s.session_id ≤ last) ss
    → All (λ (s : Session). s.session_id ≤ last) (recompute_new old o ts ss)
unfolding recompute_new
recompute_new-known last old none ts ss h = h
recompute_new-known last old (some id) ts ss h = elim (Bool-cases (holds_id id old)) [
  | inl e ↦ rw e h
  | inr e ↦ rw e (recompute_span-known last (some id) ts ss h)
]

pub update_turn_meta-IsSpanned :
    (w : Writer) (st st' : Log) (id : ℕ) (timestamp guid : Bytes) (done : Bool)
    → update_turn_meta w st id timestamp guid ≡ some (done, st')
    → IsSpanned st
    → IsSpanned st'
unfolding update_turn_meta
update_turn_meta-IsSpanned w st st' id timestamp guid done h l =
    let given = get_or_create_session guid [] [] st in
    let session = given.0 in
    let st1 = given.1 in
    let kept = get_or_create_session-IsSpanned guid [] [] st l in
    let time = given_time w timestamp in
    let ts = move_turn id time session st1.turns in
    elim (Bool-cases (null timestamp && null guid)) [
      | inl e ↦ let same : st ≡ st' = ground (arith, e, h) in subst IsSpanned same l
      | inr e ↦ elim (Bool-cases (not (is_dated w timestamp))) [
        | inl bad ↦ absurd (ground (arith, e, bad, h))
        | inr good ↦ elim (Option-cases (session_of id st.turns)) [
          | inl f ↦
              let same : st1 ≡ st' = ground (arith, e, good, f, h) in subst IsSpanned same kept.0
          | inr (old, f) ↦
              let after : Log = record st1 {
                turns = ts;
                sessions = recompute_new old session ts (recompute_span old ts st1.sessions);
              } in
              let same : after ≡ st' = ground (arith, e, good, f, h) in
              subst IsSpanned same (
                recompute_new-AllCovered ts old session st1.sessions (
                    All-imp (λ s. All (Covered s) st1.turns)
                      (λ s.
                        old ≢ some s.session_id → session ≢ some s.session_id → All (Covered s) ts)
                      (λ s h d d'.
                        move_turn-Covered s id time session old st1.turns
                          (ap (session_of id) kept.2 ∙ f) d d' h)
                      st1.sessions kept.0.0),
                move_turn-IsKnown st1.last_session id time session st1.turns kept.1 kept.0.1,
                recompute_new-known st1.last_session old session ts _
                    (recompute_span-known st1.last_session old ts st1.sessions kept.0.2),
              )
        ]
      ]
    ]

finalize_row-All :
    (P : CapturedTurn → Type 0) (id : ℕ) (text : Bytes) (model : Option Bytes)
    (ts : List CapturedTurn)
    → ((t : CapturedTurn)
        → P t
        → P (record t { assistant_text = text; model = coalesce model t.model; embedded = true }))
    → All P ts
    → All P (finalize_row id text model ts)
unfolding finalize_row
finalize_row-All P id text model [] f h = tt
finalize_row-All P id text model (t ∷ ts) f h =
    let rest = finalize_row-All P id text model ts f h.1 in
    elim (Bool-cases (t.turn_id == id)) [ inl e ↦ rw e (f t h.0, rest) | inr e ↦ rw e (h.0, rest) ]

pub finalize_turn-IsSpanned :
    (w : Writer) (st st' : Log) (id : ℕ) (assistant model_name : Bytes) (done : Bool)
    → finalize_turn w st id assistant model_name ≡ some (done, st')
    → IsSpanned st
    → IsSpanned st'
unfolding finalize_turn
finalize_turn-IsSpanned w st st' id assistant model_name done h l =
    let a = normalize_path w.home assistant in
    let model = name_or_null model_name in
    let ts = finalize_row id a model st.turns in
    elim (Option-cases (user_text_of id st.turns)) [
      | inl gone ↦ let same : st ≡ st' = ground (arith, gone, h) in subst IsSpanned same l
      | inr (u, there) ↦ elim (Bool-cases (w.encodes (turn_embed_text u a))) [
        | inr failed ↦ absurd (ground (arith, there, failed, h))
        | inl fine ↦
            let after : Log = record st {
              turns = ts;
              models = get_or_create_model model_name st.models;
            } in
            let same : after ≡ st' = ground (arith, there, fine, h) in
            subst IsSpanned same (
              All-imp (λ s. All (Covered s) st.turns) (λ s. All (Covered s) ts)
                  (λ s k. finalize_row-All (Covered s) id a model st.turns (λ q c. c) k) st.sessions
                  l.0,
              finalize_row-All (λ q. IsKnown st.last_session q.session_id) id a model st.turns
                  (λ q c. c) l.1,
              l.2,
            )
      ]
    ]
