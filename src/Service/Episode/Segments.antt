-- ===== src/Service/Episode/Segments.antt =====
-- How the segments lie in the candidates.
use ragger_cpp.Prelude.{
  Bool-cases, List, [], ap, append-nil, arith, concat, drop, drop-drop, inl, inr, length,
  length-drop, map, refl, take-append-drop, take_long, ℕ, ◌++◌, ◌+◌, ◌-◌, ◌<◌, ◌∙◌, ◌∷◌, ◌≡◌, ◌≤◌,
}
use ragger_cpp.Service.Boundaries.{
  Float, Candidate, EpisodeBoundaryParams, is_boundary, boundaries_from, find_episode_boundaries,
}
use ragger_cpp.Service.Episode.{spans, slice}

-- Strictly rising, from above `b`.
abbrev pub Rising : ℕ → List ℕ → Type 0
Rising b [] = Unit {0}
Rising b (c ∷ cs) = (b < c) × Rising c cs

Rising-weaken : (a b : ℕ) (cs : List ℕ) → a ≤ b → Rising b cs → Rising a cs
Rising-weaken a b [] h r = tt
Rising-weaken a b (c ∷ cs) h r = (omega arith, r.1)

module _ {W : Type 0} ⦃f : Float W⦄ where
  boundaries_from-Rising :
      (p : EpisodeBoundaryParams W) (i b : ℕ) (prev : Candidate W) (cs : List (Candidate W))
      → b < i
      → Rising b (boundaries_from p i prev cs)
  unfolding boundaries_from
  boundaries_from-Rising p i b prev [] h = tt
  boundaries_from-Rising p i b prev (c ∷ cs) h = elim (Bool-cases (is_boundary p prev c)) [
    | inl cut ↦ rw cut (h, boundaries_from-Rising p (i + 1) i c cs (omega arith))
    | inr same ↦ rw same (boundaries_from-Rising p (i + 1) b c cs (omega arith))
  ]

module _ {W : Type 0} where
  slices-drop :
      (cs : List (Candidate W)) (b : ℕ) (bs : List ℕ)
      → Rising b bs
      → concat (map (slice cs) (spans (length cs) (b ∷ bs))) ≡ drop b cs
  unfolding spans
  slices-drop cs b [] r =
      rw (append-nil {A = Candidate W} (slice cs (b, length cs)))
        (take_long (length cs - b) (drop b cs) (omega (arith, length-drop b cs)))
  slices-drop cs b (c ∷ bs) r =
      let rest = slices-drop cs c bs r.1 in
      let skip : drop c cs ≡ drop (c - b) (drop b cs) =
        ap (λ n. drop n cs) (omega arith) ∙ drop-drop b (c - b) cs in
      ap (◌++◌ (slice cs (b, c))) (rest ∙ skip) ∙ take-append-drop (c - b) (drop b cs)

-- For any parameters and any similarity of floats, the segments between the boundaries, one
-- behind the other, are the candidates: none is lost, repeated or moved.
pub find_episode_boundaries-partition :
    {W : Type 0}
    → ⦃f : Float W⦄ → (p : EpisodeBoundaryParams W) (cs : List (Candidate W))
    → concat (map (slice cs) (spans (length cs) (find_episode_boundaries p cs))) ≡ cs
unfolding find_episode_boundaries spans
find_episode_boundaries-partition p [] = refl
find_episode_boundaries-partition p (c ∷ cs) =
    slices-drop (c ∷ cs) 0 (boundaries_from p 1 c cs)
      (boundaries_from-Rising p 1 0 c cs (omega arith))
