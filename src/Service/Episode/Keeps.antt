-- ===== src/Service/Episode/Keeps.antt =====
-- What a close leaves of the members that were there.
use ragger_cpp.Prelude.{
  Bool, Bool-cases, Bytes, List, Option, Option-cases, Sum-cases, [], false, inl, inr, none, null,
  refl, some, true, ℕ, ◌∙◌, ◌∷◌, ◌≡◌,
}
use ragger_cpp.Service.Boundaries.{Float, Candidate}
use ragger_cpp.Service.Episode.Joins.{commit_segments-keeps}
use ragger_cpp.Service.Episode.{
  Segment, CloseSetting, CloseOutcome, closed, threw, close_of, also, commit_segments,
  candidates_of, commit_all, handle_episode_close,
}
use ragger_cpp.Service.Turn.{Inference}
use ragger_cpp.Sqlite.Episodes.{Archive, store_episode_close}
use ragger_cpp.Sqlite.Episodes.Membership.{episode_of}

-- The outcomes after which the archive may have changed.
commits : CloseOutcome → Bool
commits (closed ids) = true
commits (threw e) = true
commits CloseOutcome.no_session = false
commits CloseOutcome.nothing_new = false
commits CloseOutcome.not_configured = false
commits CloseOutcome.inference_failed = false
commits CloseOutcome.no_segments = false

also-commits : (id : ℕ) (o : CloseOutcome) → commits (also id o) ≡ commits o
unfolding commits
also-commits id (closed ids) = refl
also-commits id (threw e) = refl
also-commits id CloseOutcome.no_session = refl
also-commits id CloseOutcome.nothing_new = refl
also-commits id CloseOutcome.not_configured = refl
also-commits id CloseOutcome.inference_failed = refl
also-commits id CloseOutcome.no_segments = refl

abbrev Frame : Archive → Archive × CloseOutcome → Type 0
Frame st out =
    ((k x : ℕ) → episode_of k st.members ≡ some x → episode_of k out.0.members ≡ some x)
    × (commits out.1 ≡ false → out.0 ≡ st)

module _ {W : Type 0} where
  commit_segments-commits :
      (c : CloseSetting W) (guid model : Bytes) (cs : List (Candidate W)) (segs : List Segment)
      (st : Archive)
      → commits (commit_segments c guid model cs segs st).1 ≡ true
  unfolding commit_segments commits
  commit_segments-commits c guid model cs [] st = refl
  commit_segments-commits c guid model cs (seg ∷ segs) st =
      elim (Sum-cases (store_episode_close c.home c.encodes st (close_of guid model cs seg))) [
        | inl (e, failed) ↦ rw (failed, commit_segments) refl
        | inr ((id, st1), stored) ↦
            rw (stored, commit_segments)
              (also-commits id (commit_segments c guid model cs segs st1).1
                ∙ commit_segments-commits c guid model cs segs st1)
      ]

  commit_all-Frame :
      (c : CloseSetting W) (inf : Inference) (guid : Bytes) (cs : List (Candidate W)) (st : Archive)
      (segs : Option (List Segment))
      → Frame st (commit_all c inf guid cs st segs)
  unfolding commit_all commits
  commit_all-Frame c inf guid cs st none = (λ k x h. h, λ h. refl)
  commit_all-Frame c inf guid cs st (some []) = (λ k x h. h, λ h. refl)
  commit_all-Frame c inf guid cs st (some (s ∷ segs)) = (
    λ k x h. commit_segments-keeps c guid inf.memory_model cs k x (s ∷ segs) st h,
    λ h. cc (commit_segments-commits c guid inf.memory_model cs (s ∷ segs) st),
  )

handle_episode_close-Frame :
    {W : Type 0}
    → ⦃f : Float W⦄ → (c : CloseSetting W) (inf : Option Inference) (st : Archive) (guid : Bytes)
    → Frame st (handle_episode_close c inf st guid)
unfolding handle_episode_close commits
handle_episode_close-Frame c inf st guid =
    let cs = candidates_of c st guid in
    elim (Bool-cases (null guid)) [
      | inl unnamed ↦ rw unnamed (λ k x h. h, λ h. refl)
      | inr named ↦ elim (Bool-cases (null cs)) [
        | inl nothing ↦ rw (named, nothing) (λ k x h. h, λ h. refl)
        | inr waiting ↦ elim (Option-cases inf) [
          | inl off ↦ rw (named, waiting, off) (λ k x h. h, λ h. refl)
          | inr (i, on) ↦ rw (named, waiting, on) (commit_all-Frame c i guid cs st _)
        ]
      ]
    ]

-- Whatever becomes of a close, exceptions included, a turn summary that was in an episode is
-- in the same episode afterwards.
pub handle_episode_close-keeps :
    {W : Type 0}
    → ⦃f : Float W⦄
    → (c : CloseSetting W) (inf : Option Inference) (st : Archive) (guid : Bytes) (k x : ℕ)
    → episode_of k st.members ≡ some x
    → episode_of k (handle_episode_close c inf st guid).0.members ≡ some x
handle_episode_close-keeps c inf st guid k x = (handle_episode_close-Frame c inf st guid).0 k x

handle_episode_close-unwritten :
    {W : Type 0}
    → ⦃f : Float W⦄ → (c : CloseSetting W) (inf : Option Inference) (st : Archive) (guid : Bytes)
    → commits (handle_episode_close c inf st guid).1 ≡ false
    → (handle_episode_close c inf st guid).0 ≡ st
handle_episode_close-unwritten c inf st guid = (handle_episode_close-Frame c inf st guid).1
