-- ===== src/Memory/Context/Once/Walking.antt =====
-- Each layer of a recipe keeps the invariant of the walk.
use ragger_cpp.Agent.Handle.{is_one_of}
use ragger_cpp.Memory.Context.Once.{IsNewestFirst, Differ, Apart}
use ragger_cpp.Memory.Context.{
  build_context, Turn, Dated, ChunkKind, of_raw_turn, of_turn_summary, of_episode, of_decision,
  of_search, ContextChunk, Sources, Walk, allows, push, push_raw, raw_turns, push_summary,
  turn_summaries_from, push_all, undated, wanted, survivors, query_of, over_fetch, general,
  run_layer, run_layers, start, keep_capped, apply_cap, assemble,
}
use ragger_cpp.Memory.Recipe.{
  resolve_recipe, effective_default, LayerKind, raw_turn, turn_summary, episode, project_summary,
  decisions, general_search, RecipeLayer, Recipe,
}
use ragger_cpp.Prelude.{
  All, All-imp, All-reverse, Bool, Bool-cases, Bytes, List, Option, Option-cases, [], if◌then◌else◌,
  inl, inr, ltb, negsuc, not, null, pos, refl, reverse, ℕ, ℤ, ◌+◌, ◌==◌, ◌||◌, ◌∷◌, ◌≡◌, ◌≢◌,
}
use ragger_cpp.Memory.Context.Once.Pushes.{
  IsWalking, push-other, push_raw-IsWalking, push_summary-IsWalking,
}

raw_turns-IsWalking :
    (limit : ℤ) (taken : ℕ) (ts : List Turn) (w : Walk)
    → w.turns ≡ ts
    → IsWalking w
    → IsWalking (raw_turns limit taken ts w)
unfolding raw_turns
raw_turns-IsWalking limit taken [] w e h = h
raw_turns-IsWalking limit taken (t ∷ ts) w e h = elim (Bool-cases (allows limit taken)) [
  | inl a ↦ rw a (
      raw_turns-IsWalking limit (taken + 1) ts (push_raw w t ts) refl
        (push_raw-IsWalking w t ts e h))
  | inr a ↦ rw a h
]

turn_summaries_from-IsWalking :
    (limit : ℤ) (taken : ℕ) (ss : List Dated) (w : Walk)
    → IsWalking w
    → IsWalking (turn_summaries_from limit taken ss w)
unfolding turn_summaries_from
turn_summaries_from-IsWalking limit taken [] w h = h
turn_summaries_from-IsWalking limit taken (s ∷ ss) w h = elim (Bool-cases (allows limit taken)) [
  | inr a ↦ rw a h
  | inl a ↦ elim (Bool-cases (is_one_of s.timestamp w.consumed)) [
    | inl e ↦
        rw a (rw e (turn_summaries_from-IsWalking limit taken ss (record w { summaries = ss }) h))
    | inr e ↦
        let w' = record w { summaries = ss } in
        rw a (
          rw e (
            turn_summaries_from-IsWalking limit (taken + 1) ss (push_summary w' s)
              (push_summary-IsWalking w' s e h)))
  ]
]

push_all-IsWalking :
    (kind : ChunkKind) (ds : List Dated) (w : Walk)
    → kind ≢ of_raw_turn
    → kind ≢ of_turn_summary
    → IsWalking w
    → IsWalking (push_all kind ds w)
unfolding push_all
push_all-IsWalking kind [] w r s h = h
push_all-IsWalking kind (d ∷ ds) w r s h =
    push_all-IsWalking kind ds (push w kind d.text d.timestamp) r s
      (push-other kind d.text d.timestamp w r s h)

general-IsWalking : (n : ℕ) (src : Sources) (w : Walk) → IsWalking w → IsWalking (general n src w)
unfolding general
general-IsWalking n src w h = elim (Bool-cases (null (query_of src))) [
  | inl e ↦ rw e h
  | inr e ↦ rw e (
      push_all-IsWalking of_search
        (reverse (survivors n w.rev (src.search (query_of src) (n + over_fetch)))) w
        (λ k. absurd (cc k)) (λ k. absurd (cc k)) h)
]

kind_layer :
    (src : Sources) (kind : LayerKind) (limit : ℤ) (w : Walk)
    → IsWalking w
    → IsWalking (run_layer src (record { kind = kind; limit = limit }) w)
unfolding run_layer
kind_layer src raw_turn limit w h = raw_turns-IsWalking limit 0 w.turns w refl h
kind_layer src turn_summary limit w h = turn_summaries_from-IsWalking limit 0 w.summaries w h
kind_layer src episode limit w h =
    push_all-IsWalking of_episode (src.episodes (wanted limit 1)) w (λ k. absurd (cc k))
      (λ k. absurd (cc k)) h
kind_layer src project_summary limit w h = h
kind_layer src decisions limit w h =
    push_all-IsWalking of_decision (undated (src.current_decisions (wanted limit 3))) w
      (λ k. absurd (cc k)) (λ k. absurd (cc k)) h
kind_layer src general_search limit w h = general-IsWalking (wanted limit 5) src w h

pub run_layers-IsWalking :
    (src : Sources) (ls : List RecipeLayer) (w : Walk)
    → IsWalking w
    → IsWalking (run_layers src ls w)
unfolding run_layers
run_layers-IsWalking src [] w h = h
run_layers-IsWalking src (l ∷ ls) w h =
    run_layers-IsWalking src ls (run_layer src l w) (kind_layer src l.kind l.limit w h)

keep_capped-All {κ} :
    (P : ContextChunk → Type κ) (cost : Bytes → ℕ) (cap total : ℕ) (cs : List ContextChunk)
    → All P cs
    → All P (keep_capped cost cap total cs)
unfolding keep_capped
keep_capped-All P cost cap total [] a = tt
keep_capped-All P cost cap total (c ∷ cs) a = elim (Bool-cases (ltb cap (total + cost c.text))) [
  | inl e ↦ rw e tt
  | inr e ↦ rw e (a.0, keep_capped-All P cost cap (total + cost c.text) cs a.1)
]

apply_cap-All {κ} :
    (P : ContextChunk → Type κ) (r : Recipe) (cs : List ContextChunk)
    → All P cs
    → All P (apply_cap r cs)
unfolding apply_cap
apply_cap-All P r cs a = cap r.max_tokens
  where
    cap :
        (m : ℤ)
        → All P
            (elim m [ pos n ↦ if n == 0 then cs else keep_capped r.cost n 0 cs | negsuc n ↦ cs ])
    cap (negsuc n) = a
    cap (pos n) = elim (Bool-cases (n == 0)) [
      | inl e ↦ rw e a
      | inr e ↦ rw e (keep_capped-All P r.cost n 0 cs a)
    ]

Apart-sub :
    (xs ys : List ContextChunk)
    → ((P : ContextChunk → Type 0) → All P xs → All P ys)
    → Apart xs
    → Apart ys
Apart-sub xs ys f a =
    f (λ s. All (Differ s) ys)
      (All-imp (λ s. All (Differ s) xs) (λ s. All (Differ s) ys) (λ s. f (Differ s)) xs a)

assemble-Apart :
    (r : Recipe) (src : Sources) → IsNewestFirst src.turns_desc → Apart (assemble r src)
unfolding assemble
assemble-Apart r src n =
    let w = run_layers src r.layers (start src) in
    let walking = run_layers-IsWalking src r.layers (start src) (n, tt, tt, tt) in
    Apart-sub w.rev (reverse (apply_cap r w.rev))
      (λ P a. All-reverse P (apply_cap r w.rev) (apply_cap-All P r w.rev a)) walking.3

-- If the turns are given newest first by their timestamps, no configuration, choice of recipe
-- or session gives a context with a raw turn and a turn summary of the same timestamp.
pub build_context-Apart :
    (capturing building : Bool) (recipes : List Recipe) (configured : Bytes) (stored : Option Bytes)
    (recipe_name session : Bytes) (src : Sources)
    → IsNewestFirst src.turns_desc
    → Apart
        (build_context capturing building recipes configured stored recipe_name session src).chunks
unfolding build_context
build_context-Apart capturing building recipes configured stored recipe_name session src n =
    elim (Bool-cases (not capturing || not building)) [
      | inl off ↦ rw off tt
      | inr on ↦
          elim (Option-cases
            (resolve_recipe recipes recipe_name (effective_default configured stored))) [
              | inl f ↦ rw on (rw f tt)
              | inr (r, f) ↦ elim (Bool-cases (null session)) [
                | inl e ↦ rw on (rw f (rw e tt))
                | inr e ↦ rw on (rw f (rw e (assemble-Apart r src n)))
              ]
            ]
    ]
