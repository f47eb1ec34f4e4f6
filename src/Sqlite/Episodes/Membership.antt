-- ===== src/Sqlite/Episodes/Membership.antt =====
-- Which episode a turn summary belongs to, before and after a close.
use ragger_cpp.Prelude.{
  Bool, Bool-cases, Bytes, List, Option, Option-cases, [], arith, false, if◌then◌else◌, inl, inr,
  length, none, refl, some, true, ℕ, ◌++◌, ◌+◌, ◌==◌, ◌||◌, ◌∙◌, ◌∷◌, ◌≡◌, ◌≢◌, ◌≤◌, ◌⊎◌,
}
use ragger_cpp.Sqlite.Paths.{Home}
use ragger_cpp.Sqlite.Episodes.{
  MemberRow, EpisodeRow, EpisodeClose, Archive, assign, assign_all, is_assignable,
  store_episode_close, insert_episode, find_session, span_is_taken, new_episode, holds_id,
}

-- The column `episode_id` of the row.
unfoldable pub episode_of : ℕ → List MemberRow → Option ℕ
episode_of id [] = none
episode_of id (r ∷ rows) = if r.turn_summary_id == id then r.member_of else episode_of id rows

unfoldable pub contains : ℕ → List ℕ → Bool
contains k [] = false
contains k (id ∷ ids) = k == id || contains k ids

assign-keeps :
    (episode session id k x : ℕ) (rows : List MemberRow)
    → episode_of k rows ≡ some x
    → episode_of k (assign episode session id rows).1 ≡ some x
unfolding episode_of assign is_assignable
assign-keeps episode session id k x [] h = h
assign-keeps episode session id k x (r ∷ rows) h =
    ground (arith, assign-keeps episode session id k x rows)

assign-episode_of :
    (episode session id k : ℕ) (rows : List MemberRow)
    → (assign episode session id rows).0 ≡ true
    → episode_of k (assign episode session id rows).1
      ≡ (if k == id then some episode else episode_of k rows)
unfolding episode_of assign
assign-episode_of episode session id k [] h = cc
assign-episode_of episode session id k (r ∷ rows) h =
    ground (arith, assign-episode_of episode session id k rows)

assign_all-keeps :
    (episode session k x : ℕ) (ids : List ℕ) (rows : List MemberRow)
    → episode_of k rows ≡ some x
    → episode_of k (assign_all episode session ids rows).1 ≡ some x
unfolding assign_all
assign_all-keeps episode session k x [] rows h = h
assign_all-keeps episode session k x (id ∷ ids) rows h =
    assign_all-keeps episode session k x ids _ (assign-keeps episode session id k x rows h)

assign_all-le :
    (episode session : ℕ) (ids : List ℕ) (rows : List MemberRow)
    → (assign_all episode session ids rows).0 ≤ length ids
unfolding assign_all
assign_all-le episode session [] rows = omega arith
assign_all-le episode session (id ∷ ids) rows =
    let one = assign episode session id rows in
    ground (arith, assign_all-le episode session ids one.1)

assign_all-episode_of :
    (episode session k : ℕ) (ids : List ℕ) (rows : List MemberRow)
    → (assign_all episode session ids rows).0 ≡ length ids
    → episode_of k (assign_all episode session ids rows).1
      ≡ (if contains k ids then some episode else episode_of k rows)
unfolding assign_all contains
assign_all-episode_of episode session k [] rows h = refl
assign_all-episode_of episode session k (id ∷ ids) rows h =
    let one = assign episode session id rows in
    elim (Bool-cases one.0) [
      | inl hit ↦
          let rest = assign_all-episode_of episode session k ids one.1 (ground (arith, hit)) in
          rest ∙ rw (assign-episode_of episode session id k rows hit) (ground arith)
      | inr miss ↦ absurd (ground (arith, miss, assign_all-le episode session ids one.1))
    ]

-- A close that was already made changes nothing; a new one is written whole.
insert_episode-cases :
    (home : Home) (st st' : Archive) (session : ℕ) (close : EpisodeClose) (id : ℕ)
    → insert_episode home st session close ≡ inr (id, st')
    → ((id ≡ 0) × (st' ≡ st))
      ⊎ (((assign_all id session close.member_turn_summary_ids st.members).0
            ≡ length close.member_turn_summary_ids)
          × (st'.members ≡ (assign_all id session close.member_turn_summary_ids st.members).1)
          × (st'.sessions ≡ st.sessions)
          × (st'.episodes ≡ st.episodes ++ new_episode home id session close ∷ []))
unfolding insert_episode
insert_episode-cases home st st' session close id h =
    elim (Bool-cases (span_is_taken session close.start st.episodes)) [
      | inl taken ↦ inl (ground (arith, taken))
      | inr unused ↦
          let next = st.last_episode + 1 in
          let done = assign_all next session close.member_turn_summary_ids st.members in
          elim (Bool-cases (done.0 == length close.member_turn_summary_ids)) [
            | inr short ↦ absurd (ground (arith, unused, short))
            | inl full ↦
                let named : id ≡ next = ground (arith, unused, full) in
                inr (
                  rw named (ground (arith, full)),
                  rw named (ground (arith, unused, full)),
                  ground (arith, unused, full),
                  rw named (ground (arith, unused, full)),
                )
          ]
    ]

store_episode_close-inr :
    (home : Home) (encodes : Bytes → Bool) (st st' : Archive) (close : EpisodeClose) (id : ℕ)
    → store_episode_close home encodes st close ≡ inr (id, st')
    → (session : ℕ) × (find_session close.session_guid st.sessions ≡ some session)
      × (insert_episode home st session close ≡ inr (id, st'))
unfolding store_episode_close
store_episode_close-inr home encodes st st' close id h =
    elim (Option-cases (find_session close.session_guid st.sessions)) [
      | inl e ↦ absurd (ground (arith, e))
      | inr (session, e) ↦ (session, e, ground (arith, e))
    ]

holds_id-some : (n : ℕ) → holds_id n (some n) ≡ true
holds_id-some n = ground arith

span_is_taken-append :
    (session start : ℕ) (rows : List EpisodeRow) (r : EpisodeRow)
    → r.supersedes ≡ none
    → r.session_id ≡ some session
    → r.span_start ≡ start
    → span_is_taken session start (rows ++ r ∷ []) ≡ true
unfolding span_is_taken
span_is_taken-append session start [] r a b c = rw (a, b, c) (ground arith)
span_is_taken-append session start (q ∷ rows) r a b c =
    rw (span_is_taken-append session start rows r a b c) (ground arith)

taken_span :
    (home : Home) (st : Archive) (session : ℕ) (close : EpisodeClose)
    → span_is_taken session close.start st.episodes ≡ true
    → insert_episode home st session close ≡ inr (0, st)
unfolding insert_episode
taken_span home st session close h = rw h refl

insert_episode-again :
    (home : Home) (st st' : Archive) (session : ℕ) (close : EpisodeClose) (id : ℕ)
    → insert_episode home st session close ≡ inr (id, st')
    → insert_episode home st' session close ≡ inr (0, st')
unfolding new_episode
insert_episode-again home st st' session close id h =
    elim (insert_episode-cases home st st' session close id h) [
      | inl (none_made, same) ↦ cc
      | inr (full, rows, named, more) ↦
          let taken : span_is_taken session close.start st'.episodes ≡ true = rw more (
            span_is_taken-append session close.start st.episodes (new_episode home id session close)
              refl refl refl) in
          taken_span home st' session close taken
    ]

insert_episode-sessions :
    (home : Home) (st st' : Archive) (session : ℕ) (close : EpisodeClose) (id : ℕ)
    → insert_episode home st session close ≡ inr (id, st')
    → st'.sessions ≡ st.sessions
insert_episode-sessions home st st' session close id h =
    elim (insert_episode-cases home st st' session close id h) [
      | inl (none_made, same) ↦ rw same refl
      | inr (full, rows, named, more) ↦ named
    ]

store_episode_close-again :
    (home : Home) (encodes : Bytes → Bool) (st st' : Archive) (close : EpisodeClose) (id : ℕ)
    → store_episode_close home encodes st close ≡ inr (id, st')
    → store_episode_close home encodes st' close ≡ inr (0, st')
unfolding store_episode_close
store_episode_close-again home encodes st st' close id h =
    let (session, known, inserted) = store_episode_close-inr home encodes st st' close id h in
    let sessions = insert_episode-sessions home st st' session close id inserted in
    let still : find_session close.session_guid st'.sessions ≡ some session = rw sessions known in
    let again = insert_episode-again home st st' session close id inserted in
    ground (arith, known, still, again)

-- A summary that is in an episode stays in it, whatever comes of the close.
pub store_episode_close-keeps :
    (home : Home) (encodes : Bytes → Bool) (st st' : Archive) (close : EpisodeClose) (id k x : ℕ)
    → store_episode_close home encodes st close ≡ inr (id, st')
    → episode_of k st.members ≡ some x
    → episode_of k st'.members ≡ some x
store_episode_close-keeps home encodes st st' close id k x h e =
    let (session, known, inserted) = store_episode_close-inr home encodes st st' close id h in
    elim (insert_episode-cases home st st' session close id inserted) [
      | inl (none_made, same) ↦ rw same e
      | inr (full, rows, named, more) ↦
          rw rows (assign_all-keeps id session k x close.member_turn_summary_ids st.members e)
    ]

-- If a close is stored under an id that is not 0, each turn summary that the close names is
-- then in that episode, and every other one is as it was; and the same close made again gives
-- 0 and changes nothing.
pub store_episode_close-members :
    (home : Home) (encodes : Bytes → Bool) (st st' : Archive) (close : EpisodeClose) (id k : ℕ)
    → store_episode_close home encodes st close ≡ inr (id, st')
    → id ≢ 0
    → (episode_of k st'.members
        ≡ (if contains k close.member_turn_summary_ids then some id else episode_of k st.members))
      × (store_episode_close home encodes st' close ≡ inr (0, st'))
store_episode_close-members home encodes st st' close id k h d =
    let (session, known, inserted) = store_episode_close-inr home encodes st st' close id h in
    elim (insert_episode-cases home st st' session close id inserted) [
      | inl (none_made, same) ↦ absurd (d none_made)
      | inr (full, rows, named, more) ↦ (
        rw rows (assign_all-episode_of id session k close.member_turn_summary_ids st.members full),
        store_episode_close-again home encodes st st' close id h,
      )
    ]
