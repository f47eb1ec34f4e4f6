-- ===== src/Service/Episode/Joins.antt =====
-- What committing the segments of a close does to the members.
use ragger_cpp.Prelude.{
  All, Bytes, List, Option, Sum-cases, [], arith, false, inl, inr, map, none, refl, some, subst,
  sym, true, ℕ, ◌∙◌, ◌∷◌, ◌≡◌, ◌≢◌,
}
use ragger_cpp.Service.Boundaries.{Candidate}
use ragger_cpp.Service.Episode.{
  Segment, CloseSetting, CloseOutcome, closed, threw, slice, close_of, also, commit_segments,
}
use ragger_cpp.Sqlite.Episodes.{Archive, store_episode_close, is_none}
use ragger_cpp.Sqlite.Episodes.Membership.{
  episode_of, contains, store_episode_close-members, store_episode_close-keeps,
}

-- None of the ids is 0, which is what a span that was closed before gives.
abbrev pub AllStored : List ℕ → Type 0
AllStored = All (λ id. id ≢ 0)

-- The candidate is a member of some episode.
abbrev pub InEpisode : {W : Type 0} → Archive → Candidate W → Type 0
InEpisode st c = is_none (episode_of c.turn_summary_id st.members) ≡ false

some-is_none : (o : Option ℕ) → is_none o ≡ false → (x : ℕ) × (o ≡ some x)
some-is_none none h = cc
some-is_none (some x) h = (x, refl)

-- A property of the ids that a list names holds of each of its candidates.
All-named :
    {W : Type 0}
    → (P : ℕ → Type 0) (cs : List (Candidate W))
    → ((k : ℕ) → contains k (map (λ c. c.turn_summary_id) cs) ≡ true → P k)
    → All (λ c. P c.turn_summary_id) cs
unfolding contains
All-named P [] h = tt
All-named P (c ∷ cs) h =
    (h c.turn_summary_id (ground arith), All-named P cs (λ k m. h k (ground (arith, m))))

also-closed :
    (id : ℕ) (o : CloseOutcome) (ids : List ℕ)
    → also id o ≡ closed ids
    → (rest : List ℕ) × (o ≡ closed rest) × (ids ≡ id ∷ rest)
also-closed id (closed rest) ids h = (rest, refl, ground arith)
also-closed id (threw e) ids h = absurd (ground arith)
also-closed id CloseOutcome.no_session ids h = absurd (ground arith)
also-closed id CloseOutcome.nothing_new ids h = absurd (ground arith)
also-closed id CloseOutcome.not_configured ids h = absurd (ground arith)
also-closed id CloseOutcome.inference_failed ids h = absurd (ground arith)
also-closed id CloseOutcome.no_segments ids h = absurd (ground arith)

abbrev pub range : Segment → ℕ × ℕ
range seg = (seg.seg_start, seg.seg_end)

module _ {W : Type 0} (c : CloseSetting W) (guid model : Bytes) (cs : List (Candidate W)) where
  pub commit_segments-keeps :
      (k x : ℕ) (segs : List Segment) (st : Archive)
      → episode_of k st.members ≡ some x
      → episode_of k (commit_segments c guid model cs segs st).0.members ≡ some x
  unfolding commit_segments
  commit_segments-keeps k x [] st n = n
  commit_segments-keeps k x (seg ∷ segs) st n =
      let close = close_of guid model cs seg in
      elim (Sum-cases (store_episode_close c.home c.encodes st close)) [
        | inl (e, failed) ↦ rw (failed, commit_segments) n
        | inr ((id, st1), stored) ↦
            rw (stored, commit_segments)
              (commit_segments-keeps k x segs st1
                (store_episode_close-keeps c.home c.encodes st st1 close id k x stored n))
      ]

  pub commit_segments-joins :
      (segs : List Segment) (st : Archive) (ids : List ℕ)
      → (commit_segments c guid model cs segs st).1 ≡ closed ids
      → AllStored ids
      → All
          (λ seg.
            All (InEpisode (commit_segments c guid model cs segs st).0) (slice cs (range seg)))
          segs
  unfolding commit_segments close_of
  commit_segments-joins [] st ids h a = tt
  commit_segments-joins (seg ∷ segs) st ids h a =
      let close = close_of guid model cs seg in
      elim (Sum-cases (store_episode_close c.home c.encodes st close)) [
        | inl (e, failed) ↦ absurd (ground (arith, failed))
        | inr ((id, st1), stored) ↦
            let (rest, more, split) =
              also-closed id (commit_segments c guid model cs segs st1).1 ids
                (ground (arith, stored)) in
            let all : AllStored (id ∷ rest) = subst AllStored split a in
            let now : (k : ℕ)
                → contains k close.member_turn_summary_ids ≡ true
                → episode_of k st1.members ≡ some id =
              λ k m.
                (store_episode_close-members c.home c.encodes st st1 close id k stored all.0).0
                ∙ rw m refl in
            let same : (commit_segments c guid model cs (seg ∷ segs) st).0
                ≡ (commit_segments c guid model cs segs st1).0 =
              rw (stored, commit_segments) refl in
            subst (λ last. All (λ s. All (InEpisode last) (slice cs (range s))) (seg ∷ segs))
              (sym same)
              (
                All-named
                    (λ k.
                      is_none (episode_of k (commit_segments c guid model cs segs st1).0.members)
                      ≡ false)
                    (slice cs (range seg))
                    (λ k m. rw (commit_segments-keeps k id segs st1 (now k m)) refl),
                commit_segments-joins segs st1 rest more all.1,
              )
      ]
