-- ===== src/Service/Boundaries.antt =====
-- src/episode_boundaries.cpp: where a session is cut into episodes. `float` is an argument: a type
-- with the operations that the code uses.
use ragger_cpp.Prelude.{
  Bool, Bytes, List, [], if◌then◌else◌, leb, length, negsuc, not, null, pos, ℕ, ℤ, ◌+◌, ◌-◌, ◌==◌,
  ◌||◌, ◌∷◌,
}

pub record Float (W : Type 0) : Type 0 where
  pub of_int : ℤ → W
  pub add : W → W → W
  pub mul : W → W → W
  pub div : W → W → W
  pub sqrt : W → W
  pub lt : W → W → Bool
  pub le : W → W → Bool
  pub trunc : W → ℤ

-- `a - b` of two `int64_t`s.
abbrev pub difference : ℕ → ℕ → ℤ
difference a b = if leb b a then pos (a - b) else negsuc (b - a - 1)

-- The columns of an `EpisodeCandidateTurn` that are read; its time stamp is not.
pub record Candidate (W : Type 0) : Type 0 where
  pub turn_summary_id : ℕ
  pub summary_text : Bytes
  pub epoch : ℕ
  pub turn_embedding : List W
  pub summary_embedding : List W

pub record EpisodeBoundaryParams (W : Type 0) : Type 0 where
  pub base : W
  pub threshold_cap : W
  pub step : W
  pub step_minutes : W

module _ {W : Type 0} ⦃f : Float W⦄ where
  -- The three sums of the loop, each from the left.
  unfoldable pub sums : W × W × W → List W → List W → W × W × W
  sums acc [] b = acc
  sums acc (x ∷ a) [] = acc
  sums (dot, ma, mb) (x ∷ a) (y ∷ b) =
      sums (f.add dot (f.mul x y), f.add ma (f.mul x x), f.add mb (f.mul y y)) a b

  unfoldable pub cosine_similarity : List W → List W → W
  cosine_similarity a b =
      let nought = f.of_int (pos 0) in
      if not (length a == length b) || null a
      then nought
      else let (dot, ma, mb) = sums (nought, nought, nought) a b in
        let denom = f.mul (f.sqrt ma) (f.sqrt mb) in
        if f.lt nought denom then f.div dot denom else nought

  -- `std::min(a, b)`
  abbrev pub min_float : W → W → W
  min_float a b = if f.lt b a then b else a

  unfoldable pub threshold_at : EpisodeBoundaryParams W → W → W
  threshold_at p gap_minutes =
      min_float
        (if f.lt (f.of_int (pos 0)) p.step_minutes
          then f.add p.base (f.mul p.step (f.of_int (f.trunc (f.div gap_minutes p.step_minutes))))
          else p.base)
        p.threshold_cap

  -- Does an episode start at `curr`?
  unfoldable pub is_boundary : EpisodeBoundaryParams W → Candidate W → Candidate W → Bool
  is_boundary p prev curr =
      let turn_sim = cosine_similarity curr.turn_embedding prev.turn_embedding in
      let summ_sim = cosine_similarity curr.summary_embedding prev.summary_embedding in
      let avg_sim = f.div (f.add turn_sim summ_sim) (f.of_int (pos 2)) in
      let gap_minutes = f.div (f.of_int (difference curr.epoch prev.epoch)) (f.of_int (pos 60)) in
      f.le avg_sim (threshold_at p gap_minutes)

  -- The loop, at the index `i` of the candidate behind `prev`.
  unfoldable pub boundaries_from :
      EpisodeBoundaryParams W → ℕ → Candidate W → List (Candidate W) → List ℕ
  boundaries_from p i prev [] = []
  boundaries_from p i prev (curr ∷ rest) =
      let more = boundaries_from p (i + 1) curr rest in
      if is_boundary p prev curr then i ∷ more else more

  unfoldable pub find_episode_boundaries : EpisodeBoundaryParams W → List (Candidate W) → List ℕ
  find_episode_boundaries p [] = []
  find_episode_boundaries p (c ∷ cs) = 0 ∷ boundaries_from p 1 c cs
