-- ===== src/Sqlite/Capture/Spans.antt =====
-- The span of a session around its turns, in the statements on `sessions` and `turns`.
pub mod Sessions
pub mod Writes
pub mod Moves
pub mod Steps
use ragger_cpp.Prelude.{
  All, All-append, All-imp, All-zip, Bool-cases, List, Option, [], ap, arith, inl, inr, ltb, none,
  refl, some, some-injective, subst, sym, ℕ, ◌++◌, ◌==◌, ◌∙◌, ◌∷◌, ◌≡◌, ◌≢◌, ◌≤◌,
}
use ragger_cpp.Sqlite.Capture.{
  CapturedTurn, Session, lower_bound, upper_bound, touch_span, touch_session_span,
}
use ragger_cpp.Sqlite.Capture.Corrections.{
  min_created, max_created, set_span, recompute_span, recompute_new,
}
use ragger_cpp.Sqlite.Turns.{holds_id}

abbrev pub StartsBy : Option ℕ → ℕ → Type 0
StartsBy none t = ⊥
StartsBy (some a) t = a ≤ t

abbrev pub EndsBy : Option ℕ → ℕ → Type 0
EndsBy none t = ⊥
EndsBy (some b) t = t ≤ b

-- If the turn is of the session, it is in its span.
abbrev pub Covered : Session → CapturedTurn → Type 0
Covered s t =
    t.session_id ≡ some s.session_id
    → StartsBy s.started_on t.created_at × EndsBy s.ended_on t.created_at

abbrev pub AllCovered : List CapturedTurn → List Session → Type 0
AllCovered ts ss = All (λ s. All (Covered s) ts) ss

lower_bound-StartsBy :
    (o : Option ℕ) (t : ℕ)
    → StartsBy (lower_bound o t) t × ((u : ℕ) → StartsBy o u → StartsBy (lower_bound o t) u)
lower_bound-StartsBy none t = (omega arith, λ u h. absurd h)
lower_bound-StartsBy (some s) t = elim (Bool-cases (ltb t s)) [
  | inl e ↦ rw e (omega arith, λ u h. ground (arith, e, h))
  | inr e ↦ rw e (ground (arith, e), λ u h. h)
]

upper_bound-EndsBy :
    (o : Option ℕ) (t : ℕ)
    → EndsBy (upper_bound o t) t × ((u : ℕ) → EndsBy o u → EndsBy (upper_bound o t) u)
upper_bound-EndsBy none t = (omega arith, λ u h. absurd h)
upper_bound-EndsBy (some s) t = elim (Bool-cases (ltb s t)) [
  | inl e ↦ rw e (omega arith, λ u h. ground (arith, e, h))
  | inr e ↦ rw e (ground (arith, e), λ u h. h)
]

-- A session whose span is widened to a time covers what it did, and the turns of that time.
pub touch_span-AllCovered :
    (ts : List CapturedTurn) (new : CapturedTurn) (session : Option ℕ) (ss : List Session)
    → new.session_id ≡ session
    → AllCovered ts ss
    → AllCovered (ts ++ new ∷ []) (touch_session_span session new.created_at ss)
unfolding touch_span
touch_span-AllCovered ts new none ss e h =
    All-imp (λ s. All (Covered s) ts) (λ s. All (Covered s) (ts ++ new ∷ []))
      (λ s k. All-append (Covered s) ts (new ∷ []) k (λ f. absurd (cc (e, f)), tt)) ss h
touch_span-AllCovered ts new (some id) ss e h = touched ss h
  where
    touched :
        (ss : List Session)
        → AllCovered ts ss
        → AllCovered (ts ++ new ∷ []) (touch_span id new.created_at ss)
    touched [] h = tt
    touched (s ∷ ss) h = elim (Bool-cases (s.session_id == id)) [
      | inl same ↦
          let low = lower_bound-StartsBy s.started_on new.created_at in
          let high = upper_bound-EndsBy s.ended_on new.created_at in
          let wide : Session = record s {
            started_on = lower_bound s.started_on new.created_at;
            ended_on = upper_bound s.ended_on new.created_at;
          } in
          rw same (
            All-append (Covered wide) ts (new ∷ [])
                (All-imp (Covered s) (Covered wide)
                  (λ t k f. let (a, b) = k f in (low.1 t.created_at a, high.1 t.created_at b)) ts
                  h.0)
                (λ f. (low.0, high.0), tt),
            touched ss h.1,
          )
      | inr other ↦ rw other (
        All-append (Covered s) ts (new ∷ []) h.0
            (λ f. absurd (ground (arith, other, some-injective id s.session_id (sym e ∙ f))), tt),
        touched ss h.1,
      )
    ]

min_created-StartsBy :
    (id : ℕ) (ts : List CapturedTurn)
    → All (λ t. t.session_id ≡ some id → StartsBy (min_created id ts) t.created_at) ts
unfolding min_created
min_created-StartsBy id [] = tt
min_created-StartsBy id (t ∷ ts) =
    let bound = lower_bound-StartsBy (min_created id ts) t.created_at in
    let rest = min_created-StartsBy id ts in
    let Within : Option ℕ → CapturedTurn → Type 0 =
      λ m u. u.session_id ≡ some id → StartsBy m u.created_at in
    elim (Bool-cases (holds_id id t.session_id)) [
      | inl e ↦
          let m = lower_bound (min_created id ts) t.created_at in
          let same : min_created id (t ∷ ts) ≡ m = rw e refl in
          subst (λ m. All (Within m) (t ∷ ts)) (sym same)
            (
              λ f. bound.0,
              All-imp (Within (min_created id ts)) (Within m) (λ u k f. bound.1 u.created_at (k f))
                  ts rest,
            )
      | inr e ↦
          let same : min_created id (t ∷ ts) ≡ min_created id ts = rw e refl in
          subst (λ m. All (Within m) (t ∷ ts)) (sym same) (λ f. absurd (ground (arith, e, f)), rest)
    ]

max_created-EndsBy :
    (id : ℕ) (ts : List CapturedTurn)
    → All (λ t. t.session_id ≡ some id → EndsBy (max_created id ts) t.created_at) ts
unfolding max_created
max_created-EndsBy id [] = tt
max_created-EndsBy id (t ∷ ts) =
    let bound = upper_bound-EndsBy (max_created id ts) t.created_at in
    let rest = max_created-EndsBy id ts in
    let Within : Option ℕ → CapturedTurn → Type 0 =
      λ m u. u.session_id ≡ some id → EndsBy m u.created_at in
    elim (Bool-cases (holds_id id t.session_id)) [
      | inl e ↦
          let m = upper_bound (max_created id ts) t.created_at in
          let same : max_created id (t ∷ ts) ≡ m = rw e refl in
          subst (λ m. All (Within m) (t ∷ ts)) (sym same)
            (
              λ f. bound.0,
              All-imp (Within (max_created id ts)) (Within m) (λ u k f. bound.1 u.created_at (k f))
                  ts rest,
            )
      | inr e ↦
          let same : max_created id (t ∷ ts) ≡ max_created id ts = rw e refl in
          subst (λ m. All (Within m) (t ∷ ts)) (sym same) (λ f. absurd (ground (arith, e, f)), rest)
    ]

set_span-All :
    (ts : List CapturedTurn) (R : ℕ → Type 0) (id : ℕ) (ss : List Session)
    → All (λ s. id ≢ s.session_id → R s.session_id → All (Covered s) ts) ss
    → All
        (λ s. R s.session_id → All (Covered s) ts)
        (set_span id (min_created id ts) (max_created id ts) ss)
unfolding set_span
set_span-All ts R id [] h = tt
set_span-All ts R id (s ∷ ss) h =
    let rest = set_span-All ts R id ss h.1 in
    elim (Bool-cases (s.session_id == id)) [
      | inl e ↦
          let same : s.session_id ≡ id = ground arith in
          let now : Session = record s {
            started_on = min_created id ts;
            ended_on = max_created id ts;
          } in
          rw e (
            λ r.
                All-zip (λ t. t.session_id ≡ some id → StartsBy (min_created id ts) t.created_at)
                  (λ t. t.session_id ≡ some id → EndsBy (max_created id ts) t.created_at)
                  (Covered now) (λ t a b f. let g = f ∙ ap some same in (a g, b g)) ts
                  (min_created-StartsBy id ts) (max_created-EndsBy id ts),
            rest,
          )
      | inr e ↦ rw e (h.0 (λ same. ground (arith, e, same)), rest)
    ]

-- After its span is recomputed a session covers its turns; the others are as they were.
pub recompute_span-All :
    (ts : List CapturedTurn) (R : ℕ → Type 0) (o : Option ℕ) (ss : List Session)
    → All (λ s. o ≢ some s.session_id → R s.session_id → All (Covered s) ts) ss
    → All (λ s. R s.session_id → All (Covered s) ts) (recompute_span o ts ss)
recompute_span-All ts R none ss h =
    All-imp (λ s. none ≢ some s.session_id → R s.session_id → All (Covered s) ts)
      (λ s. R s.session_id → All (Covered s) ts) (λ s k. k (λ e. cc e)) ss h
recompute_span-All ts R (some id) ss h = set_span-All ts R id ss (
    All-imp (λ s. some id ≢ some s.session_id → R s.session_id → All (Covered s) ts)
      (λ s. id ≢ s.session_id → R s.session_id → All (Covered s) ts)
      (λ s k d. k (λ e. d (some-injective id s.session_id e))) ss h)

-- After both recomputations every session covers its turns, if the others did before.
pub recompute_new-AllCovered :
    (ts : List CapturedTurn) (old new : Option ℕ) (ss : List Session)
    → All (λ s. old ≢ some s.session_id → new ≢ some s.session_id → All (Covered s) ts) ss
    → AllCovered ts (recompute_new old new ts (recompute_span old ts ss))
unfolding recompute_new
recompute_new-AllCovered ts old none ss h =
    let R : ℕ → Type 0 = λ k. none ≢ some k in
    All-imp (λ s. R s.session_id → All (Covered s) ts) (λ s. All (Covered s) ts)
      (λ s k. k (λ e. cc e)) _ (recompute_span-All ts R old ss h)
recompute_new-AllCovered ts old (some id) ss h =
    let R : ℕ → Type 0 = λ k. some id ≢ some k in
    let once = recompute_span-All ts R old ss h in
    elim (Bool-cases (holds_id id old)) [
      | inl e ↦ rw e (
          All-imp (λ s. Unit {0} → All (Covered s) ts) (λ s. All (Covered s) ts) (λ s k. k tt) _
            (recompute_span-All ts (λ k. Unit {0}) old ss
              (All-imp (λ s. old ≢ some s.session_id → R s.session_id → All (Covered s) ts)
                (λ s. old ≢ some s.session_id → Unit {0} → All (Covered s) ts)
                (λ s k d u. k d (λ f. d (ground (arith, e, f)))) ss h)))
      | inr e ↦ rw e (
          All-imp (λ s. Unit {0} → All (Covered s) ts) (λ s. All (Covered s) ts) (λ s k. k tt) _
            (recompute_span-All ts (λ k. Unit {0}) (some id) (recompute_span old ts ss)
              (All-imp (λ s. R s.session_id → All (Covered s) ts)
                (λ s. some id ≢ some s.session_id → Unit {0} → All (Covered s) ts) (λ s k d u. k d)
                (recompute_span old ts ss) once)))
    ]
