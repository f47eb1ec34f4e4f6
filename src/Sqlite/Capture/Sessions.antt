-- ===== src/Sqlite/Capture/Sessions.antt =====
-- The session of a captured turn.
use ragger_cpp.Prelude.{
  Bool-cases, Bytes, List, Option, Option-cases, [], arith, equal, equal_self, false, inl, inr,
  none, null, refl, some, ℕ, ◌++◌, ◌+◌, ◌∙◌, ◌∷◌, ◌≡◌,
}
use ragger_cpp.Sqlite.Capture.{
  Session, Log, find_guid, rename_session, touch_span, touch_session_span, get_or_create_session,
}

find_guid-rename_session :
    (guid : Bytes) (id : ℕ) (name source : Bytes) (ss : List Session)
    → find_guid guid (rename_session id name source ss) ≡ find_guid guid ss
unfolding find_guid rename_session
find_guid-rename_session guid id name source [] = refl
find_guid-rename_session guid id name source (s ∷ ss) =
    ground (arith, find_guid-rename_session guid id name source ss)

pub find_guid-touch_session_span :
    (guid : Bytes) (session : Option ℕ) (t : ℕ) (ss : List Session)
    → find_guid guid (touch_session_span session t ss) ≡ find_guid guid ss
unfolding find_guid touch_span
find_guid-touch_session_span guid none t ss = refl
find_guid-touch_session_span guid (some id) t [] = refl
find_guid-touch_session_span guid (some id) t (s ∷ ss) =
    ground (arith, find_guid-touch_session_span guid (some id) t ss)

find_guid-append :
    (guid : Bytes) (ss : List Session) (s : Session)
    → find_guid guid ss ≡ none
    → s.guid ≡ guid
    → find_guid guid (ss ++ s ∷ []) ≡ some s.session_id
unfolding find_guid
find_guid-append guid [] s h e = rw e (rw (equal_self guid) refl)
find_guid-append guid (q ∷ ss) s h e = elim (Bool-cases (equal q.guid guid)) [
  | inl f ↦ absurd (ground (arith, f, h))
  | inr f ↦ rw f (find_guid-append guid ss s (ground (arith, f, h)) e)
]

-- The session that is given is found from then on.
pub session_found :
    (guid name source : Bytes) (st : Log)
    → null guid ≡ false
    → find_guid guid (get_or_create_session guid name source st).1.sessions
      ≡ (get_or_create_session guid name source st).0
unfolding get_or_create_session
session_found guid name source st g = elim (Option-cases (find_guid guid st.sessions)) [
  | inl f ↦ rw g (rw f (find_guid-append guid st.sessions _ f refl))
  | inr (id, f) ↦ elim (Bool-cases (null name)) [
    | inl n ↦ rw g (rw f (rw n f))
    | inr n ↦ rw g (rw f (rw n (find_guid-rename_session guid id name source st.sessions ∙ f)))
  ]
]

pub session_kept :
    (guid name source : Bytes) (st : Log) (id : ℕ)
    → null guid ≡ false
    → find_guid guid st.sessions ≡ some id
    → (get_or_create_session guid name source st).0 ≡ some id
unfolding get_or_create_session
session_kept guid name source st id g f = rw g (rw f refl)

pub session_given :
    (guid name source : Bytes) (st : Log)
    → null guid ≡ false
    → (id : ℕ) × ((get_or_create_session guid name source st).0 ≡ some id)
unfolding get_or_create_session
session_given guid name source st g = elim (Option-cases (find_guid guid st.sessions)) [
  | inl f ↦ (st.last_session + 1, rw g (rw f refl))
  | inr (id, f) ↦ (id, rw g (rw f refl))
]
