-- ===== src/Sqlite/Pending/Agreement.antt =====
-- The scan for sessions to close, against the query for their candidates.
use ragger_cpp.Prelude.{
  Bool, Bool-cases, Bytes, List, Option, Option-cases, [], arith, equal, equal_iff, false,
  if◌then◌else◌, inl, inr, magnitude, none, not, null, refl, some, subst, sym, true, ℕ, ℤ, ◌&&◌,
  ◌||◌, ◌∷◌, ◌≡◌, ◌≤◌,
}
use ragger_cpp.Sqlite.Episodes.{MemberRow, SourceTurn, EpisodeRow, Archive}
use ragger_cpp.Sqlite.Turns.{holds_id}
use ragger_cpp.Sqlite.Pending.{
  LocalTime, CandidateRow, in_session, is_pending_l2, last_episode, last_episode_end,
  insert_candidate, candidate_of, candidates_from, episode_candidate_turns, max_span_end,
  has_pending, needs_close, guids_needing_close, episodes_needing_close,
}

-- No guid stands for two sessions: `guid` is UNIQUE.
abbrev pub IsKeyed : List (Bytes × ℕ) → Type 0
IsKeyed [] = Unit {0}
IsKeyed ((g, s) ∷ rows) = ((t : ℕ) → in_session g rows (some t) ≡ false) × IsKeyed rows

unfoldable pub listed : Bytes → List Bytes → Bool
listed g [] = false
listed g (h ∷ hs) = equal h g || listed g hs

in_session-one :
    (g : Bytes) (s t : ℕ) (rows : List (Bytes × ℕ))
    → IsKeyed rows
    → in_session g rows (some s) ≡ true
    → in_session g rows (some t) ≡ true
    → s ≡ t
unfolding in_session
in_session-one g s t [] k a b = cc
in_session-one g s t ((h, u) ∷ rows) (fresh, k) a b = elim (Bool-cases (equal h g)) [
  | inl same ↦
      let e : h ≡ g = (equal_iff h g).0 same in
      let none_s : in_session g rows (some s) ≡ false =
        subst (λ x. in_session x rows (some s) ≡ false) e (fresh s) in
      let none_t : in_session g rows (some t) ≡ false =
        subst (λ x. in_session x rows (some t) ≡ false) e (fresh t) in
      ground (arith, same, none_s, none_t)
  | inr other ↦ in_session-one g s t rows k (ground (arith, other)) (ground (arith, other))
]

in_session-none : (g : Bytes) (rows : List (Bytes × ℕ)) → in_session g rows none ≡ false
unfolding in_session
in_session-none g [] = refl
in_session-none g ((h, s) ∷ rows) = ground (arith, in_session-none g rows)

-- The row of an episode whose session has the guid.
in_session-holds :
    (g : Bytes) (sessions : List (Bytes × ℕ)) (session : ℕ) (id : Option ℕ)
    → IsKeyed sessions
    → in_session g sessions (some session) ≡ true
    → in_session g sessions id ≡ true
    → holds_id session id ≡ true
in_session-holds g sessions session none k own h = cc (in_session-none g sessions)
in_session-holds g sessions session (some s) k own h =
    ground (arith, in_session-one g s session sessions k h own)

last_episode-le :
    (g : Bytes) (sessions : List (Bytes × ℕ)) (session : ℕ) (rows : List EpisodeRow)
    (e : EpisodeRow)
    → IsKeyed sessions
    → in_session g sessions (some session) ≡ true
    → last_episode g sessions rows ≡ some e
    → (e.span_end ≤ max_span_end session rows)
unfolding last_episode max_span_end
last_episode-le g sessions session [] e k own h = cc
last_episode-le g sessions session (r ∷ rows) e k own h =
    elim (Bool-cases (in_session g sessions r.session_id)) [
      | inl here ↦
          let held = in_session-holds g sessions session r.session_id k own here in
          elim (Option-cases (last_episode g sessions rows)) [
            | inl only ↦ ground (arith, held, here, only)
            | inr (q, more) ↦
                ground
                  (arith, held, here, more, last_episode-le g sessions session rows q k own more)
          ]
      | inr away ↦ ground (arith, away, last_episode-le g sessions session rows e k own)
    ]

is_pending_l2_mono :
    (turns : List SourceTurn) (a b : ℕ) (r : MemberRow)
    → a ≤ b
    → is_pending_l2 turns b r ≡ true
    → is_pending_l2 turns a r ≡ true
unfolding is_pending_l2
is_pending_l2_mono turns a b r le h = ground arith

insert_candidate-null :
    (c : CandidateRow) (ds : List CandidateRow) → null (insert_candidate c ds) ≡ false
unfolding insert_candidate
insert_candidate-null c [] = refl
insert_candidate-null c (d ∷ ds) = ground arith

holds_id-eq : (n : ℕ) (id : Option ℕ) → holds_id n id ≡ true → id ≡ some n
holds_id-eq n none h = cc
holds_id-eq n (some m) h = ground arith

has_pending-candidates :
    (g : Bytes) (sessions : List (Bytes × ℕ)) (turns : List SourceTurn) (session a b : ℕ)
    (rows : List MemberRow)
    → in_session g sessions (some session) ≡ true
    → a ≤ b
    → has_pending turns session b rows ≡ true
    → null (candidates_from g sessions turns a rows) ≡ false
unfolding has_pending candidates_from
has_pending-candidates g sessions turns session a b [] own le h = cc
has_pending-candidates g sessions turns session a b (r ∷ rows) own le h =
    elim (Bool-cases (holds_id session r.member_session && is_pending_l2 turns b r)) [
      | inl this ↦
          let held = holds_id-eq session r.member_session (ground (arith, this)) in
          let ready = is_pending_l2_mono turns a b r le (ground (arith, this)) in
          let inside : in_session g sessions r.member_session ≡ true =
            subst (λ id. in_session g sessions id ≡ true) (sym held) own in
          rw (inside, ready) (insert_candidate-null (candidate_of turns r) _)
      | inr other ↦
          let rest =
            has_pending-candidates g sessions turns session a b rows own le
              (ground (arith, other)) in
          elim (Bool-cases (in_session g sessions r.member_session && is_pending_l2 turns a r)) [
            | inl also ↦ rw also (insert_candidate-null (candidate_of turns r) _)
            | inr not_here ↦ rw not_here rest
          ]
    ]

guids-session :
    (st : Archive) (now idle : ℕ) (g : Bytes) (rows : List (Bytes × ℕ))
    → listed g (guids_needing_close st now idle rows) ≡ true
    → (session : ℕ) × (in_session g rows (some session) ≡ true)
      × (needs_close st now idle session ≡ true)
      × (null g ≡ false)
unfolding guids_needing_close listed in_session
guids-session st now idle g [] h = absurd (ground arith)
guids-session st now idle g ((h, s) ∷ rows) l =
    elim (Bool-cases (needs_close st now idle s && not (null h))) [
      | inr skipped ↦
          let (session, own, need, named) = guids-session st now idle g rows (rw skipped at l) in
          (session, ground (arith, own), need, named)
      | inl taken ↦ elim (Bool-cases (equal h g)) [
        | inl same ↦
            let e : h ≡ g = (equal_iff h g).0 same in
            (
              s,
              ground (arith, same),
              ground (arith, taken),
              subst (λ x. null x ≡ false) e (ground (arith, taken)),
            )
        | inr other ↦
            let (session, own, need, named) =
              guids-session st now idle g rows (ground (arith, taken, other)) in
            (session, ground (arith, own), need, named)
      ]
    ]

-- The epoch from which candidates are read.
abbrev since_epoch : LocalTime → Bytes → ℕ
since_epoch clock since_ts = if null since_ts then 0 else clock.resolve since_ts

since_epoch-le :
    (clock : LocalTime) (st : Archive) (g : Bytes) (session : ℕ)
    → ((e : ℕ) → clock.resolve (clock.render e) ≤ e)
    → IsKeyed st.sessions
    → in_session g st.sessions (some session) ≡ true
    → null g ≡ false
    → since_epoch clock (last_episode_end clock st g) ≤ max_span_end session st.episodes
unfolding last_episode_end
since_epoch-le clock st g session back keyed own named =
    elim (Option-cases (last_episode g st.sessions st.episodes)) [
      | inl never ↦ ground (arith, named, never)
      | inr (e, last) ↦ ground (
        arith,
        named,
        last,
        back e.span_end,
        last_episode-le g st.sessions session st.episodes e keyed own last,
      )
    ]

-- Provided that a time rendered and read back is not later, and that a guid has one session: a
-- session that the scan names as needing a close has candidates for it.
pub episodes_needing_close-candidates :
    (clock : LocalTime) (st : Archive) (now : ℕ) (idle_minutes : ℤ) (g : Bytes)
    → ((e : ℕ) → clock.resolve (clock.render e) ≤ e)
    → IsKeyed st.sessions
    → listed g (episodes_needing_close st now idle_minutes) ≡ true
    → null (episode_candidate_turns clock st g (last_episode_end clock st g)) ≡ false
unfolding episodes_needing_close episode_candidate_turns needs_close listed
episodes_needing_close-candidates clock st now idle_minutes g back keyed l =
    let (session, own, need, named) =
      guids-session st now (magnitude idle_minutes) g st.sessions (ground (arith, l)) in
    rw named (
      has_pending-candidates g st.sessions st.turns session _ (max_span_end session st.episodes)
        st.members own (since_epoch-le clock st g session back keyed own named)
        (ground (arith, need)))
