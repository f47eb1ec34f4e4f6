-- ===== src/Sqlite/Capture/Rows.antt =====
-- How the rows of turns change under a capture.
use ragger_cpp.Prelude.{
  ==_iff, All, All-imp, Bool, Bool-cases, Bytes, List, Option, Option-cases, [], ap, arith, find,
  inl, inr, ltb, none, refl, some, starts_with, starts_with_self, subst, sym, true, ℕ, ◌++◌, ◌+◌,
  ◌<◌, ◌==◌, ◌∙◌, ◌∷◌, ◌≡◌, ◌≢◌, ◌≤◌, ◌⊎◌,
}
use ragger_cpp.Sqlite.Capture.{CapturedTurn, newest_turn, update_turn}
use ragger_cpp.Sqlite.Turns.{holds_id}

-- The ids rise from above `b` to `last` at most.
abbrev pub Rising : ℕ → List CapturedTurn → ℕ → Type 0
Rising b [] last = b ≤ last
Rising b (t ∷ ts) last = (b < t.turn_id) × Rising t.turn_id ts last

-- The row of the id is `t`, and it is there.
abbrev pub IsRowOf : CapturedTurn → List CapturedTurn → Type 0
IsRowOf t ts = All (λ q. q.turn_id ≡ t.turn_id → q ≡ t) ts

Rising-All : (b last : ℕ) (ts : List CapturedTurn) → Rising b ts last → All (λ q. b < q.turn_id) ts
Rising-All b last [] r = tt
Rising-All b last (t ∷ ts) r = (
  r.0,
  All-imp (λ q. t.turn_id < q.turn_id) (λ q. b < q.turn_id) (λ q h. omega (arith, r.0, h)) ts
      (Rising-All t.turn_id last ts r.1),
)

-- What the probe finds is the one row of its id, and it is of the session.
pub newest_turn_lem :
    (b last session : ℕ) (ts : List CapturedTurn) (t : CapturedTurn)
    → Rising b ts last
    → newest_turn session ts ≡ some t
    → IsRowOf t ts × (b < t.turn_id)
unfolding newest_turn
newest_turn_lem b last session [] t r h = absurd (cc)
newest_turn_lem b last session (q ∷ ts) t r h = elim (Bool-cases (holds_id session q.session_id)) [
  | inr e ↦
      let (row, above) = newest_turn_lem q.turn_id last session ts t r.1 (ground (arith, e, h)) in
      ((λ same. absurd (omega (arith, same, above)), row), omega (arith, above, r.0))
  | inl e ↦ elim (Option-cases (newest_turn session ts)) [
    | inl f ↦
        let here : q ≡ t = ground (arith, e, f, h) in
        (
          subst (λ u. IsRowOf u (q ∷ ts)) here
              (
                λ same. refl,
                All-imp (λ p. q.turn_id < p.turn_id) (λ p. p.turn_id ≡ q.turn_id → p ≡ q)
                    (λ p k same. absurd (omega (arith, k, same))) ts
                    (Rising-All q.turn_id last ts r.1),
              ),
          subst (λ (u : CapturedTurn). b < u.turn_id) here r.0,
        )
    | inr (u, f) ↦
        let (row, above) = newest_turn_lem q.turn_id last session ts u r.1 f in
        let there : u ≡ t = ground (arith, e, f, h, above) in
        (
          subst (λ v. IsRowOf v (q ∷ ts)) there (λ same. absurd (omega (arith, same, above)), row),
          subst (λ (v : CapturedTurn). b < v.turn_id) there (omega (arith, above, r.0)),
        )
  ]
]

-- A row is as it was but for a longer assistant side, its model and its vector.
abbrev pub Grown : CapturedTurn → CapturedTurn → Type 0
Grown t u =
    (u.turn_id ≡ t.turn_id)
    × (u.session_id ≡ t.session_id)
    × (u.user_text ≡ t.user_text)
    × (u.created_at ≡ t.created_at)
    × (starts_with t.assistant_text u.assistant_text ≡ true)

-- Every row is still there, in its place; rows may follow.
abbrev pub AllGrown : List CapturedTurn → List CapturedTurn → Type 0
AllGrown [] us = Unit {0}
AllGrown (t ∷ ts) [] = ⊥
AllGrown (t ∷ ts) (u ∷ us) = Grown t u × AllGrown ts us

-- A row with the id has the user side, and the text somewhere in its assistant side.
abbrev pub HasTurn : ℕ → Bytes → Bytes → List CapturedTurn → Type 0
HasTurn id u a [] = ⊥
HasTurn id u a (t ∷ ts) =
    ((t.turn_id ≡ id) × (t.user_text ≡ u) × (find a t.assistant_text ≢ none)) ⊎ HasTurn id u a ts

Grown-self : (t : CapturedTurn) → Grown t t
Grown-self t = (refl, refl, refl, refl, starts_with_self t.assistant_text)

pub AllGrown-append : (ts us : List CapturedTurn) → AllGrown ts (ts ++ us)
AllGrown-append [] us = tt
AllGrown-append (t ∷ ts) us = (Grown-self t, AllGrown-append ts us)

pub HasTurn-append :
    (id : ℕ) (u a : Bytes) (ts : List CapturedTurn) (t : CapturedTurn)
    → t.turn_id ≡ id
    → t.user_text ≡ u
    → find a t.assistant_text ≢ none
    → HasTurn id u a (ts ++ t ∷ [])
HasTurn-append id u a [] t i s f = inl (i, s, f)
HasTurn-append id u a (q ∷ ts) t i s f = inr (HasTurn-append id u a ts t i s f)

pub update_turn-AllGrown :
    (t : CapturedTurn) (text : Bytes) (model : Option Bytes) (embedded : Bool)
    (ts : List CapturedTurn)
    → IsRowOf t ts
    → starts_with t.assistant_text text ≡ true
    → AllGrown ts (update_turn t.turn_id text model embedded ts)
unfolding update_turn
update_turn-AllGrown t text model embedded [] row s = tt
update_turn-AllGrown t text model embedded (q ∷ ts) row s =
    elim (Bool-cases (q.turn_id == t.turn_id)) [
      | inl e ↦
          let same : q ≡ t = row.0 ((==_iff q.turn_id t.turn_id).0 e) in
          rw e (
            (
              refl,
              refl,
              refl,
              refl,
              ap (λ (p : CapturedTurn). starts_with p.assistant_text text) same ∙ s,
            ),
            update_turn-AllGrown t text model embedded ts row.1 s,
          )
      | inr e ↦ rw e (Grown-self q, update_turn-AllGrown t text model embedded ts row.1 s)
    ]

abbrev IsIn : CapturedTurn → List CapturedTurn → Type 0
IsIn t [] = ⊥
IsIn t (q ∷ ts) = (q ≡ t) ⊎ IsIn t ts

pub newest_turn-IsIn :
    (session : ℕ) (ts : List CapturedTurn) (t : CapturedTurn)
    → newest_turn session ts ≡ some t
    → IsIn t ts
unfolding newest_turn
newest_turn-IsIn session [] t h = cc
newest_turn-IsIn session (q ∷ ts) t h = elim (Bool-cases (holds_id session q.session_id)) [
  | inr e ↦ inr (newest_turn-IsIn session ts t (ground (arith, e, h)))
  | inl e ↦ elim (Option-cases (newest_turn session ts)) [
    | inl f ↦ inl (ground (arith, e, f, h))
    | inr (u, f) ↦ elim (Bool-cases (ltb q.turn_id u.turn_id)) [
      | inl g ↦ inr (newest_turn-IsIn session ts t (f ∙ ground (arith, e, f, g, h)))
      | inr g ↦ inl (ground (arith, e, f, g, h))
    ]
  ]
]

pub HasTurn-IsIn :
    (t : CapturedTurn) (u a : Bytes) (ts : List CapturedTurn)
    → IsIn t ts
    → t.user_text ≡ u
    → find a t.assistant_text ≢ none
    → HasTurn t.turn_id u a ts
HasTurn-IsIn t u a [] i s f = absurd i
HasTurn-IsIn t u a (q ∷ ts) (inl same) s f = inl (
  ap (λ (p : CapturedTurn). p.turn_id) same,
  ap (λ (p : CapturedTurn). p.user_text) same ∙ s,
  λ n. f (ap (λ (p : CapturedTurn). find a p.assistant_text) (sym same) ∙ n),
)
HasTurn-IsIn t u a (q ∷ ts) (inr i) s f = inr (HasTurn-IsIn t u a ts i s f)

pub update_turn-HasTurn :
    (t : CapturedTurn) (text u a : Bytes) (model : Option Bytes) (embedded : Bool)
    (ts : List CapturedTurn)
    → IsIn t ts
    → t.user_text ≡ u
    → find a text ≢ none
    → HasTurn t.turn_id u a (update_turn t.turn_id text model embedded ts)
unfolding update_turn
update_turn-HasTurn t text u a model embedded [] i s f = absurd i
update_turn-HasTurn t text u a model embedded (q ∷ ts) (inl same) s f =
    let id : q.turn_id ≡ t.turn_id = ap (λ (p : CapturedTurn). p.turn_id) same in
    rw ((==_iff q.turn_id t.turn_id).1 id)
      (inl (id, ap (λ (p : CapturedTurn). p.user_text) same ∙ s, f))
update_turn-HasTurn t text u a model embedded (q ∷ ts) (inr i) s f =
    let rest = update_turn-HasTurn t text u a model embedded ts i s f in
    elim (Bool-cases (q.turn_id == t.turn_id)) [ inl e ↦ rw e (inr rest) | inr e ↦ rw e (inr rest) ]

pub update_turn-Rising :
    (b last id : ℕ) (text : Bytes) (model : Option Bytes) (embedded : Bool) (ts : List CapturedTurn)
    → Rising b ts last
    → Rising b (update_turn id text model embedded ts) last
unfolding update_turn
update_turn-Rising b last id text model embedded [] r = r
update_turn-Rising b last id text model embedded (q ∷ ts) r =
    let rest = update_turn-Rising q.turn_id last id text model embedded ts r.1 in
    elim (Bool-cases (q.turn_id == id)) [ inl e ↦ rw e (r.0, rest) | inr e ↦ rw e (r.0, rest) ]

pub Rising-append :
    (b last : ℕ) (ts : List CapturedTurn) (t : CapturedTurn)
    → t.turn_id ≡ last + 1
    → Rising b ts last
    → Rising b (ts ++ t ∷ []) (last + 1)
Rising-append b last [] t e r = (omega arith, omega arith)
Rising-append b last (q ∷ ts) t e r = (r.0, Rising-append q.turn_id last ts t e r.1)
