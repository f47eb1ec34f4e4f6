-- ===== src/Memory/Context/Once.antt =====
-- A turn in the context is there as it was or as its summary, not both.
pub mod Pushes
pub mod Walking
use ragger_cpp.Agent.Handle.{is_one_of}
use ragger_cpp.Memory.Context.{
  Turn, Dated, ChunkKind, of_raw_turn, of_turn_summary, ContextChunk, Walk, text_le, pass_turns,
}
use ragger_cpp.Prelude.{
  All, All-imp, Bool-cases, Bytes, List, [], arith, equal_self, false, inl, inr, refl, subst, sym,
  true, ◌++◌, ◌∷◌, ◌≡◌, ◌≢◌,
}

abbrev pub IsNewestFirst : List Turn → Type 0
IsNewestFirst [] = Unit {0}
IsNewestFirst (t ∷ ts) = All (λ u. text_le u.timestamp t.timestamp ≡ true) ts × IsNewestFirst ts

-- Not a summary and the raw turn of one time.
abbrev pub Differ : ContextChunk → ContextChunk → Type 0
Differ s r = s.kind ≡ of_turn_summary → r.kind ≡ of_raw_turn → s.timestamp ≢ r.timestamp

abbrev pub Apart : List ContextChunk → Type 0
Apart cs = All (λ s. All (λ r. Differ s r) cs) cs

pub text_le_self : (s : Bytes) → text_le s s ≡ true
unfolding text_le
text_le_self [] = refl
text_le_self (x ∷ s) = ground (arith, text_le_self s)

pub text_le-text_le : (s t u : Bytes) → text_le s t ≡ true → text_le t u ≡ true → text_le s u ≡ true
unfolding text_le
text_le-text_le [] t u h k = refl
text_le-text_le (x ∷ s) [] u h k = cc
text_le-text_le (x ∷ s) (y ∷ t) [] h k = cc
text_le-text_le (x ∷ s) (y ∷ t) (z ∷ u) h k = ground (arith, text_le-text_le s t u)

pub is_one_of-append :
    (y z : Bytes) (xs : List Bytes) → is_one_of y xs ≡ true → is_one_of y (xs ++ z ∷ []) ≡ true
unfolding is_one_of
is_one_of-append y z [] h = cc
is_one_of-append y z (x ∷ xs) h = ground (arith, is_one_of-append y z xs)

pub is_one_of-last : (z : Bytes) (xs : List Bytes) → is_one_of z (xs ++ z ∷ []) ≡ true
unfolding is_one_of
is_one_of-last z [] = ground (arith, equal_self z)
is_one_of-last z (x ∷ xs) = ground (arith, is_one_of-last z xs)

-- A turn passed by is consumed, and nothing else happens to the walk.
pub pass_turns-rev : (x : Bytes) (ts : List Turn) (w : Walk) → (pass_turns x ts w).rev ≡ w.rev
unfolding pass_turns
pass_turns-rev x [] w = refl
pass_turns-rev x (t ∷ ts) w = elim (Bool-cases (text_le x t.timestamp)) [
  | inl e ↦
      rw e
        (pass_turns-rev x ts (record w { turns = ts; consumed = w.consumed ++ t.timestamp ∷ [] }))
  | inr e ↦ rw e refl
]

pub pass_turns-consumed :
    (x y : Bytes) (ts : List Turn) (w : Walk)
    → is_one_of y w.consumed ≡ true
    → is_one_of y (pass_turns x ts w).consumed ≡ true
unfolding pass_turns
pass_turns-consumed x y [] w h = h
pass_turns-consumed x y (t ∷ ts) w h = elim (Bool-cases (text_le x t.timestamp)) [
  | inl e ↦
      let w' = record w { turns = ts; consumed = w.consumed ++ t.timestamp ∷ [] } in
      rw e (pass_turns-consumed x y ts w' (is_one_of-append y t.timestamp w.consumed h))
  | inr e ↦ rw e h
]

pub pass_turns-All {κ} :
    (P : Turn → Type κ) (x : Bytes) (ts : List Turn) (w : Walk)
    → w.turns ≡ ts
    → All P ts
    → All P (pass_turns x ts w).turns
unfolding pass_turns
pass_turns-All P x [] w s a = subst (All P) (sym s) a
pass_turns-All P x (t ∷ ts) w s a = elim (Bool-cases (text_le x t.timestamp)) [
  | inl e ↦
      let w' = record w { turns = ts; consumed = w.consumed ++ t.timestamp ∷ [] } in
      rw e (pass_turns-All P x ts w' refl a.1)
  | inr e ↦ rw e (subst (All P) (sym s) a)
]

pub pass_turns-IsNewestFirst :
    (x : Bytes) (ts : List Turn) (w : Walk)
    → w.turns ≡ ts
    → IsNewestFirst ts
    → IsNewestFirst (pass_turns x ts w).turns
unfolding pass_turns
pass_turns-IsNewestFirst x [] w s a = subst IsNewestFirst (sym s) a
pass_turns-IsNewestFirst x (t ∷ ts) w s a = elim (Bool-cases (text_le x t.timestamp)) [
  | inl e ↦
      let w' = record w { turns = ts; consumed = w.consumed ++ t.timestamp ∷ [] } in
      rw e (pass_turns-IsNewestFirst x ts w' refl a.1)
  | inr e ↦ rw e (subst IsNewestFirst (sym s) a)
]

-- The turns that are left are from before the time.
abbrev pub AllBefore : Bytes → List Turn → Type 0
AllBefore x ts = All (λ t. text_le x t.timestamp ≡ false) ts

older :
    (x : Bytes) (t : Turn) (ts : List Turn)
    → text_le x t.timestamp ≡ false
    → All (λ u. text_le u.timestamp t.timestamp ≡ true) ts
    → AllBefore x ts
older x t ts e =
    All-imp (λ u. text_le u.timestamp t.timestamp ≡ true) (λ u. text_le x u.timestamp ≡ false)
      (λ u h. elim (Bool-cases (text_le x u.timestamp)) [
        | inr f ↦ f
        | inl f ↦ absurd (cc (e, text_le-text_le x u.timestamp t.timestamp f h))
      ])
      ts

pub pass_turns-AllBefore :
    (x : Bytes) (ts : List Turn) (w : Walk)
    → w.turns ≡ ts
    → IsNewestFirst ts
    → AllBefore x (pass_turns x ts w).turns
unfolding pass_turns
pass_turns-AllBefore x [] w s a = subst (AllBefore x) (sym s) tt
pass_turns-AllBefore x (t ∷ ts) w s a = elim (Bool-cases (text_le x t.timestamp)) [
  | inl e ↦
      let w' = record w { turns = ts; consumed = w.consumed ++ t.timestamp ∷ [] } in
      rw e (pass_turns-AllBefore x ts w' refl a.1)
  | inr e ↦ rw e (subst (AllBefore x) (sym s) (e, older x t ts e a.0))
]
