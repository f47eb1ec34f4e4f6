-- ===== src/Sqlite/Capture/Spans/Sessions.antt =====
-- What is kept of sessions, under `get_or_create_session`.
use ragger_cpp.Prelude.{
  All, All-append, All-imp, Bool-cases, Bytes, List, Option, Option-cases, [], arith, equal, inl,
  inr, none, null, refl, some, ℕ, ◌&&◌, ◌+◌, ◌==◌, ◌∷◌, ◌≡◌, ◌≤◌,
}
use ragger_cpp.Sqlite.Capture.Spans.{Covered, AllCovered}
use ragger_cpp.Sqlite.Capture.{
  CapturedTurn, Session, Log, find_guid, rename_session, new_session, is_renamed,
  get_or_create_session,
}

-- A session that was given out before.
abbrev pub IsKnown : ℕ → Option ℕ → Type 0
IsKnown last none = Unit {0}
IsKnown last (some id) = id ≤ last

-- Sessions cover their turns, and the ids of sessions are at most the counter.
abbrev pub IsSpanned : Log → Type 0
IsSpanned st =
    AllCovered st.turns st.sessions
    × All (λ (t : CapturedTurn). IsKnown st.last_session t.session_id) st.turns
    × All (λ (s : Session). s.session_id ≤ st.last_session) st.sessions

rename_session-All :
    (P : Session → Type 0) (id : ℕ) (name source : Bytes) (ss : List Session)
    → ((s : Session) → P s → P (record s { name = some name; name_source = some source }))
    → All P ss
    → All P (rename_session id name source ss)
unfolding rename_session
rename_session-All P id name source [] f h = tt
rename_session-All P id name source (s ∷ ss) f h =
    let rest = rename_session-All P id name source ss f h.1 in
    elim (Bool-cases (s.session_id == id && is_renamed s.name name)) [
      | inl e ↦ rw e (f s h.0, rest)
      | inr e ↦ rw e (h.0, rest)
    ]

find_guid-known :
    (guid : Bytes) (ss : List Session) (last id : ℕ)
    → All (λ (s : Session). s.session_id ≤ last) ss
    → find_guid guid ss ≡ some id
    → id ≤ last
unfolding find_guid
find_guid-known guid [] last id h f = cc
find_guid-known guid (s ∷ ss) last id h f = elim (Bool-cases (equal s.guid guid)) [
  | inl e ↦ ground (arith, e, f, h.0)
  | inr e ↦ find_guid-known guid ss last id h.1 (ground (arith, e, f))
]

pub IsKnown-suc : (last : ℕ) (o : Option ℕ) → IsKnown last o → IsKnown (last + 1) o
IsKnown-suc last none h = tt
IsKnown-suc last (some id) h = omega (arith, h)

-- A new session has no turns; the session that is given is known.
pub get_or_create_session-IsSpanned :
    (guid name source : Bytes) (st : Log)
    → IsSpanned st
    → IsSpanned (get_or_create_session guid name source st).1
      × IsKnown
          (get_or_create_session guid name source st).1.last_session
          (get_or_create_session guid name source st).0
      × ((get_or_create_session guid name source st).1.turns ≡ st.turns)
unfolding get_or_create_session
get_or_create_session-IsSpanned guid name source st (c, k, b) = elim (Bool-cases (null guid)) [
  | inl g ↦ rw g ((c, k, b), tt, refl)
  | inr g ↦ elim (Option-cases (find_guid guid st.sessions)) [
    | inl f ↦
        let new = new_session (st.last_session + 1) guid name source in
        rw g (
          rw f (
            (
              All-append (λ s. All (Covered s) st.turns) st.sessions (new ∷ []) c
                  (
                    All-imp (λ (t : CapturedTurn). IsKnown st.last_session t.session_id)
                        (Covered new) (λ t h e. absurd (unknown t.session_id h e)) st.turns k,
                    tt,
                  ),
              All-imp (λ (t : CapturedTurn). IsKnown st.last_session t.session_id)
                  (λ (t : CapturedTurn). IsKnown (st.last_session + 1) t.session_id)
                  (λ t h. IsKnown-suc st.last_session t.session_id h) st.turns k,
              All-append (λ (s : Session). s.session_id ≤ st.last_session + 1) st.sessions
                  (new ∷ [])
                  (All-imp (λ (s : Session). s.session_id ≤ st.last_session)
                    (λ (s : Session). s.session_id ≤ st.last_session + 1) (λ s h. omega (arith, h))
                    st.sessions b)
                  (omega arith, tt),
            ),
            omega arith,
            refl,
          ))
    | inr (id, f) ↦ elim (Bool-cases (null name)) [
      | inl n ↦ rw g (rw f (rw n ((c, k, b), find_guid-known guid st.sessions _ id b f, refl)))
      | inr n ↦ rw g (
          rw f (
            rw n (
              (
                rename_session-All (λ s. All (Covered s) st.turns) id name source st.sessions
                    (λ s h. h) c,
                k,
                rename_session-All (λ s. s.session_id ≤ st.last_session) id name source st.sessions
                    (λ s h. h) b,
              ),
              find_guid-known guid st.sessions _ id b f,
              refl,
            )))
    ]
  ]
]
  where
    unknown : (o : Option ℕ) → IsKnown st.last_session o → o ≡ some (st.last_session + 1) → ⊥
    unknown none h e = cc e
    unknown (some id) h e = ground (arith, h, e)
