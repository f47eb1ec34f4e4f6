-- ===== src/Service/Episode/Members.antt =====
-- What becomes of the candidates of a close.
use ragger_cpp.Prelude.{
  All, All-concat, All-drop, All-map, All-take, Bool-cases, Bytes, List, Option, Option-cases, [],
  arith, drop, false, inl, inr, length, ltb, map, none, null, refl, some, subst, sym, true, ℕ, ◌&&◌,
  ◌-◌, ◌==◌, ◌||◌, ◌∷◌, ◌≡◌,
}
use ragger_cpp.Service.Boundaries.{Float, Candidate, find_episode_boundaries}
use ragger_cpp.Service.Episode.{
  Segment, CloseSetting, closed, decoded, spans, slice, texts_of, segments_of, commit_segments,
  candidates_of, commit_all, handle_episode_close, last_episode_end,
}
use ragger_cpp.Service.Episode.Segments.{find_episode_boundaries-partition}
use ragger_cpp.Service.Turn.{Inference}
use ragger_cpp.Sqlite.Pending.{
  candidates_from, insert_candidate, is_pending_l2, in_session, text_of, candidate_of, CandidateRow,
  episode_candidate_turns,
}
use ragger_cpp.Sqlite.Episodes.{SourceTurn, MemberRow, Archive}
use ragger_cpp.Summarizer.Transcript.{Env, summarize_texts}
use ragger_cpp.Service.Episode.Joins.{AllStored, InEpisode, commit_segments-joins, range}

abbrev HasText : {W : Type 0} → Candidate W → Type 0
HasText c = null c.summary_text ≡ false

module _ {W : Type 0} where
  texts_of-null : (cs : List (Candidate W)) → All HasText cs → null (texts_of cs) ≡ true → cs ≡ []
  unfolding texts_of
  texts_of-null [] h n = refl
  texts_of-null (c ∷ cs) h n = absurd (ground (arith, h.0))

  -- What holds of the candidates of every segment holds of those of every span.
  segments_of-All :
      (env : Env) (P : Candidate W → Type 0) (cs : List (Candidate W)) (ranges : List (ℕ × ℕ))
      (segs : List Segment)
      → All HasText cs
      → segments_of env cs ranges ≡ some segs
      → All (λ seg. All P (slice cs (range seg))) segs
      → All (λ r. All P (slice cs r)) ranges
  unfolding segments_of
  segments_of-All env P cs [] segs t h a = tt
  segments_of-All env P cs (r ∷ ranges) segs t h a =
      let texts = texts_of (slice cs r) in
      let here : All HasText (slice cs r) =
        All-take HasText (r.1 - r.0) (drop r.0 cs) (All-drop HasText r.0 cs t) in
      elim (Bool-cases (null texts)) [
        | inl silent ↦
            let none_here : slice cs r ≡ [] = texts_of-null (slice cs r) here silent in
            (
              subst (All P) (sym none_here) tt,
              segments_of-All env P cs ranges segs t (ground (arith, silent)) a,
            )
        | inr spoken ↦ elim (Bool-cases (null (summarize_texts env texts))) [
          | inl failed ↦ absurd (ground (arith, spoken, failed))
          | inr answered ↦ elim (Option-cases (segments_of env cs ranges)) [
            | inl stuck ↦ absurd (ground (arith, spoken, answered, stuck))
            | inr (rest, more) ↦
                let first : Segment = record {
                  summary = summarize_texts env texts;
                  seg_start = r.0;
                  seg_end = r.1;
                  turn_count = length texts;
                } in
                let split : segs ≡ first ∷ rest = ground (arith, spoken, answered, more) in
                let both : All (λ s. All P (slice cs (range s))) (first ∷ rest) =
                  subst (All (λ s. All P (slice cs (range s)))) split a in
                (both.0, segments_of-All env P cs ranges rest t more both.1)
          ]
        ]
      ]

insert_candidate-All :
    (P : CandidateRow → Type 0) (c : CandidateRow) (ds : List CandidateRow)
    → P c
    → All P ds
    → All P (insert_candidate c ds)
unfolding insert_candidate
insert_candidate-All P c [] p h = (p, tt)
insert_candidate-All P c (d ∷ ds) p h =
    elim (Bool-cases
      (ltb d.epoch c.epoch || (d.epoch == c.epoch && ltb d.candidate_id c.candidate_id))) [
        | inl after ↦ rw after (h.0, insert_candidate-All P c ds p h.1)
        | inr before ↦ rw before (p, h)
      ]

is_pending_l2-text :
    (turns : List SourceTurn) (since : ℕ) (r : MemberRow)
    → is_pending_l2 turns since r ≡ true
    → null (text_of r.member_text) ≡ false
unfolding is_pending_l2
is_pending_l2-text turns since r h = ground arith

candidates_from-HasText :
    (guid : Bytes) (sessions : List (Bytes × ℕ)) (turns : List SourceTurn) (since : ℕ)
    (rows : List MemberRow)
    → All (λ c. null c.candidate_text ≡ false) (candidates_from guid sessions turns since rows)
unfolding candidates_from
candidates_from-HasText guid sessions turns since [] = tt
candidates_from-HasText guid sessions turns since (r ∷ rows) =
    let rest = candidates_from-HasText guid sessions turns since rows in
    elim (Bool-cases (in_session guid sessions r.member_session && is_pending_l2 turns since r)) [
      | inl taken ↦ rw taken (
          insert_candidate-All (λ c. null c.candidate_text ≡ false) (candidate_of turns r) _
            (is_pending_l2-text turns since r (ground (arith, taken))) rest)
      | inr left ↦ rw left rest
    ]

module _ {W : Type 0} where
  candidates_of-HasText :
      (c : CloseSetting W) (st : Archive) (guid : Bytes) → All HasText (candidates_of c st guid)
  unfolding candidates_of episode_candidate_turns decoded
  candidates_of-HasText c st guid =
      All-map HasText (decoded c.decode)
        (episode_candidate_turns c.clock st guid (last_episode_end c.clock st guid))
        (elim (Bool-cases (null guid)) [
          | inl unnamed ↦ rw unnamed tt
          | inr named ↦ rw named (candidates_from-HasText guid st.sessions st.turns _ st.members)
        ])

  commit_all-members :
      ⦃f : Float W⦄
      → (c : CloseSetting W) (inf : Inference) (guid : Bytes) (cs : List (Candidate W))
        (st : Archive) (ids : List ℕ) (segs : Option (List Segment))
      → segments_of inf.env cs (spans (length cs) (find_episode_boundaries c.params cs)) ≡ segs
      → All HasText cs
      → (commit_all c inf guid cs st segs).1 ≡ closed ids
      → AllStored ids
      → All (InEpisode (commit_all c inf guid cs st segs).0) cs
  unfolding commit_all
  commit_all-members c inf guid cs st ids none e t h a = absurd (ground arith)
  commit_all-members c inf guid cs st ids (some []) e t h a = absurd (ground arith)
  commit_all-members c inf guid cs st ids (some (s ∷ segs)) e t h a =
      let last = (commit_segments c guid inf.memory_model cs (s ∷ segs) st).0 in
      let joined = commit_segments-joins c guid inf.memory_model cs (s ∷ segs) st ids h a in
      let ranges = spans (length cs) (find_episode_boundaries c.params cs) in
      let covered = segments_of-All inf.env (InEpisode last) cs ranges (s ∷ segs) t e joined in
      subst (All (InEpisode last)) (find_episode_boundaries-partition c.params cs) (
        All-concat (InEpisode last) (map (slice cs) ranges)
          (All-map (All (InEpisode last)) (slice cs) ranges covered))

-- If a close of a session ends with every segment stored under an id that is not 0, then each
-- candidate that was read is in an episode afterwards.
pub handle_episode_close-members :
    {W : Type 0}
    → ⦃f : Float W⦄
    → (c : CloseSetting W) (inf : Option Inference) (st : Archive) (guid : Bytes) (ids : List ℕ)
    → (handle_episode_close c inf st guid).1 ≡ closed ids
    → AllStored ids
    → All (InEpisode (handle_episode_close c inf st guid).0) (candidates_of c st guid)
unfolding handle_episode_close
handle_episode_close-members c none st guid ids h a = absurd (ground arith)
handle_episode_close-members c (some i) st guid ids h a =
    let cs = candidates_of c st guid in
    elim (Bool-cases (null guid)) [
      | inl unnamed ↦ absurd (ground (arith, unnamed))
      | inr named ↦ elim (Bool-cases (null cs)) [
        | inl nothing ↦ absurd (ground (arith, named, nothing))
        | inr waiting ↦
            rw (named, waiting)
              (commit_all-members c i guid cs st ids _ refl (candidates_of-HasText c st guid)
                (rw (named, waiting) at h) a)
      ]
    ]
