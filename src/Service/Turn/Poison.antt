-- ===== src/Service/Turn/Poison.antt =====
-- A turn that the model cannot summarize.
use ragger_cpp.Prelude.{
  List, Option, [], ap, arith, false, null, pos, refl, some, suc, zero, ℕ, ◌+◌, ◌<◌, ◌∙◌, ◌∷◌, ◌≡◌,
  ◌≢◌, ◌≤◌,
}
use ragger_cpp.Service.Turn.{
  TurnJob, Inference, Setting, State, deferred, abandoned, bump, forget, failure_count, is_short,
  bad_model, on_failure, with_summary, ask_summary, handle_l2,
}
use ragger_cpp.Sqlite.Turns.{turn_summary_exists, mark_turn_summarized}

pub failure_count-bump :
    (id : ℕ) (m : List (ℕ × ℕ)) → failure_count id (bump id m) ≡ failure_count id m + 1
unfolding failure_count bump
failure_count-bump id [] = ground arith
failure_count-bump id ((k, n) ∷ m) = ground (arith, failure_count-bump id m)

pub failure_count-bump_ne :
    (id other : ℕ) (m : List (ℕ × ℕ))
    → id ≢ other
    → failure_count other (bump id m) ≡ failure_count other m
unfolding failure_count bump
failure_count-bump_ne id other [] h = ground arith
failure_count-bump_ne id other ((k, n) ∷ m) h = ground (arith, failure_count-bump_ne id other m h)

pub failure_count-forget : (id : ℕ) (m : List (ℕ × ℕ)) → failure_count id (forget id m) ≡ 0
unfolding failure_count forget
failure_count-forget id [] = refl
failure_count-forget id ((k, n) ∷ m) = ground (arith, failure_count-forget id m)

-- The same job, so many times in a row.
pub attempts : Setting → Option Inference → ℕ → State → TurnJob → State
attempts c inf zero s j = s
attempts c inf (suc n) s j = attempts c inf n (handle_l2 c inf s j).0 j

handle_l2-failing :
    (c : Setting) (inf : Inference) (s : State) (j : TurnJob)
    → null j.assistant_text ≡ false
    → is_short j ≡ false
    → turn_summary_exists s.store j.turn_id ≡ false
    → ask_summary inf j ≡ []
    → handle_l2 c (some inf) s j ≡ on_failure c s j
unfolding handle_l2 with_summary
handle_l2-failing c inf s j a h e f = rw a (rw h (rw e (rw f refl)))

-- `n` failures below the limit, the last of which reaches `limit`.
module _ (c : Setting) (inf : Inference) (j : TurnJob) (limit : ℕ)
    (allowed : c.max_turn_failures ≡ pos (suc limit)) (answered : null j.assistant_text ≡ false)
    (long : is_short j ≡ false) (failing : ask_summary inf j ≡ []) where
  on_failure-below :
      (s : State)
      → failure_count j.turn_id s.failures < limit
      → on_failure c s j ≡ (record s { failures = bump j.turn_id s.failures }, deferred)
  unfolding on_failure
  on_failure-below s h = rw allowed (ground (arith, failure_count-bump j.turn_id s.failures))

  on_failure-at :
      (s : State)
      → failure_count j.turn_id s.failures ≡ limit
      → on_failure c s j ≡ (
        record s {
          store = (mark_turn_summarized s.store j.turn_id bad_model).1;
          failures = forget j.turn_id (bump j.turn_id s.failures);
        },
        abandoned,
      )
  unfolding on_failure
  on_failure-at s h = rw allowed (ground (arith, failure_count-bump j.turn_id s.failures))

  -- Fewer failures than the limit write nothing and are counted, each once.
  pub attempts-below :
      (n : ℕ) (s : State)
      → turn_summary_exists s.store j.turn_id ≡ false
      → failure_count j.turn_id s.failures + n ≤ limit
      → ((attempts c (some inf) n s j).store ≡ s.store)
        × (failure_count j.turn_id (attempts c (some inf) n s j).failures
            ≡ failure_count j.turn_id s.failures + n)
  unfolding attempts
  attempts-below zero s free h = (refl, omega arith)
  attempts-below (suc n) s free h =
      let counted = record s { failures = bump j.turn_id s.failures } in
      let next : (handle_l2 c (some inf) s j).0 ≡ counted =
        ap (λ r. r.0)
          (handle_l2-failing c inf s j answered long free failing
            ∙ on_failure-below s (omega arith)) in
      let one_more = failure_count-bump j.turn_id s.failures in
      let ih = attempts-below n counted free (omega (arith, one_more)) in
      rw (next, attempts) (ih.0, omega (arith, ih.1, one_more))

  attempts_last :
      (n : ℕ) (s : State)
      → attempts c (some inf) (suc n) s j
        ≡ (handle_l2 c (some inf) (attempts c (some inf) n s j) j).0
  unfolding attempts
  attempts_last zero s = refl
  attempts_last (suc n) s = attempts_last n (handle_l2 c (some inf) s j).0

  -- For a long turn without a row and without counted failures, whose summary the model
  -- never gives, and `max_turn_failures` at `limit + 1`: `limit` attempts leave the table as
  -- it is; one more marks the turn with the model 'bad' and forgets the count.
  pub attempts-abandon :
      (s : State)
      → turn_summary_exists s.store j.turn_id ≡ false
      → failure_count j.turn_id s.failures ≡ 0
      → ((attempts c (some inf) limit s j).store ≡ s.store)
        × ((attempts c (some inf) (suc limit) s j).store
            ≡ (mark_turn_summarized s.store j.turn_id bad_model).1)
        × (failure_count j.turn_id (attempts c (some inf) (suc limit) s j).failures ≡ 0)
  attempts-abandon s free zero_count =
      let before = attempts c (some inf) limit s j in
      let counted = attempts-below limit s free (omega arith) in
      let free_still : turn_summary_exists before.store j.turn_id ≡ false = rw counted.0 free in
      let last =
        ap (λ r. r.0)
          (handle_l2-failing c inf before j answered long free_still failing
            ∙ on_failure-at before (omega (arith, counted.1))) in
      (
        counted.0,
        ap (λ r. r.store) (attempts_last limit s ∙ last)
            ∙ ap (λ st. (mark_turn_summarized st j.turn_id bad_model).1) counted.0,
        ap (λ r. failure_count j.turn_id r.failures) (attempts_last limit s ∙ last)
            ∙ failure_count-forget j.turn_id (bump j.turn_id before.failures),
      )
