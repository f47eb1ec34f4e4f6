-- ===== src/Summarizer/Transcript/Contract.antt =====
-- The size contract of a summary.
use ragger_cpp.Prelude.{
  Bool-cases, Bytes, List, Option-cases, [], arith, codes, inl, inr, length, length-append,
  magnitude, max, refl, tests, true, ℕ, ◌++◌, ◌+◌, ◌<◌, ◌∷◌, ◌≡◌, ◌≤◌, ◌⊎◌,
}
use ragger_cpp.Summarizer.Budget.{make_budget-le_source}
use ragger_cpp.Summarizer.Transcript.{
  Env, Turn, messages_for, ask, combined_of, conversation_of, source_size, verbatim, joined,
  enforce_cap, is_trivial, budget_for, summarize_long, summarize_transcript, total_size, cap_text,
  summarize_blobs, summarize_texts,
}
use ragger_cpp.Util.Utf8.Boundary.{utf8_safe_prefix_bounded}

enforce_cap-le :
    (cap : ℕ) (fallback result : Bytes) → length (enforce_cap cap fallback result) ≤ cap
unfolding enforce_cap
enforce_cap-le cap fallback result = ground (arith, (utf8_safe_prefix_bounded result cap).2)

cap_text-le : (cap : ℕ) (result : Bytes) → length (cap_text cap result) ≤ cap
unfolding cap_text
cap_text-le cap result = ground (arith, (utf8_safe_prefix_bounded result cap).2)

summarize_long-le :
    (env : Env) (turns : List Turn)
    → length (summarize_long env turns) ≤ (budget_for env (source_size turns)).hard_cap
unfolding summarize_long
summarize_long-le env turns =
    let budget = budget_for env (source_size turns) in
    elim (Option-cases (ask env (messages_for env budget (conversation_of turns)))) [
      | inl e ↦ rw (e, summarize_long) (omega arith)
      | inr (r, e) ↦ rw (e, summarize_long) (enforce_cap-le budget.hard_cap (joined [] turns) r)
    ]

verbatim-le : (t : Turn) → length (verbatim t) ≤ source_size (t ∷ []) + 3
unfolding verbatim source_size
verbatim-le (u, a) = ground (arith, length-append u (codes " | " ++ a))

-- Whatever the model answers, the summary of a transcript is within the hard cap of its
-- budget, or the transcript is a single pair of under 120 bytes; the text stored for that is
-- shorter than 123 bytes and the same with every model and configuration.
pub summarize_transcript_capped :
    (env : Env) (turns : List Turn)
    → ((is_trivial turns ≡ true)
        × (length (summarize_transcript env turns) < 123)
        × ((other : Env) → summarize_transcript other turns ≡ summarize_transcript env turns))
      ⊎ (length (summarize_transcript env turns) ≤ (budget_for env (source_size turns)).hard_cap)
unfolding summarize_transcript
summarize_transcript_capped env [] = inr (omega arith)
summarize_transcript_capped env (t ∷ turns) = elim (Bool-cases (is_trivial (t ∷ turns))) [
  | inl e ↦ rw e (inl (refl, trivial t turns e, λ other. refl))
  | inr e ↦ rw e (inr (summarize_long-le env (t ∷ turns)))
]
  where
    trivial :
        (t : Turn) (turns : List Turn) → is_trivial (t ∷ turns) ≡ true → length (verbatim t) < 123
    trivial t [] e = unfold is_trivial in omega (tests, verbatim-le t, e)
    trivial t (u ∷ turns) e = unfold is_trivial in cc

-- With percentages of at most 100, no summary is longer than its source plus the 3 bytes that join
-- a short pair, or than 40 bytes.
pub summarize_transcript-le_source :
    (env : Env) (turns : List Turn)
    → magnitude env.target_pct ≤ 100
    → magnitude env.max_pct ≤ 100
    → length (summarize_transcript env turns) ≤ max 40 (source_size turns + 3)
unfolding summarize_transcript
summarize_transcript-le_source env [] ht hm = omega arith
summarize_transcript-le_source env (t ∷ []) ht hm = ground (
  arith,
  verbatim-le t,
  summarize_long-le env (t ∷ []),
  make_budget-le_source env.target_pct env.max_pct (source_size (t ∷ [])) ht hm,
)
summarize_transcript-le_source env (t ∷ u ∷ turns) ht hm =
    unfold is_trivial in
    omega (
      arith,
      summarize_long-le env (t ∷ u ∷ turns),
      make_budget-le_source env.target_pct env.max_pct (source_size (t ∷ u ∷ turns)) ht hm,
    )

summarize_blobs-le :
    (env : Env) (texts : List Bytes)
    → length (summarize_blobs env texts) ≤ (budget_for env (total_size texts)).hard_cap
unfolding summarize_blobs
summarize_blobs-le env texts =
    let budget = budget_for env (total_size texts) in
    elim (Option-cases (ask env (messages_for env budget (combined_of [] texts)))) [
      | inl e ↦ rw (e, summarize_blobs) (omega arith)
      | inr (r, e) ↦ rw (e, summarize_blobs) (cap_text-le budget.hard_cap r)
    ]

-- The same contract for a list of texts.
pub summarize_texts_capped :
    (env : Env) (texts : List Bytes)
    → length (summarize_texts env texts) ≤ (budget_for env (total_size texts)).hard_cap
unfolding summarize_texts
summarize_texts_capped env texts = ground (arith, summarize_blobs-le env texts)
