-- ===== src/Prelude/Search.antt =====
-- Laws of the searches in a string.
use ragger_cpp.Prelude.Lists.{length, take, drop}
use ragger_cpp.Prelude.Tests.{Option-cases, Bool-cases, ◌==◌, ==_iff}
use ragger_cpp.Prelude.Text.{Bytes, find, starts_with, drop_while}
use Prim.Native.Nat.{ℕ, zero, suc, ◌+◌, ◌≤◌}
use mathlib.Core.Bool.{Bool, true, false}
use mathlib.Core.List.{[], ◌∷◌, ◌++◌}
use mathlib.Core.Logic.{inl, inr, ◌≢◌}
use mathlib.Core.Option.{none, some}
use mathlib.Core.Path.{◌≡◌, refl, ap, ◌∙◌}
use native.Mathlib.Omega.{arith}

starts_with-le : (p s : Bytes) → starts_with p s ≡ true → length p ≤ length s
unfolding starts_with
starts_with-le [] s h = omega arith
starts_with-le (x ∷ p) [] h = cc
starts_with-le (x ∷ p) (y ∷ s) h = ground (arith, starts_with-le p s)

-- A match lies inside the text.
pub find-le : (p s : Bytes) (k : ℕ) → find p s ≡ some k → k + length p ≤ length s
unfolding find
find-le [] [] k h = ground arith
find-le (y ∷ p) [] k h = cc
find-le p (x ∷ s) k h = elim (Option-cases (find p s)) [
  | inl e ↦ ground (arith, e, starts_with-le p (x ∷ s))
  | inr (j, e) ↦ ground (arith, e, starts_with-le p (x ∷ s), find-le p s j e)
]

-- A pattern that does not occur does not occur further on.
pub find-drop : (p s : Bytes) (n : ℕ) → find p s ≡ none → find p (drop n s) ≡ none
unfolding find
find-drop p s zero h = h
find-drop p [] (suc n) h = h
find-drop p (x ∷ s) (suc n) h = find-drop p s n (ground arith)

pub find-drop_while :
    (p s : Bytes) (q : ℕ → Bool) → find p s ≡ none → find p (drop_while q s) ≡ none
unfolding find drop_while
find-drop_while p [] q h = h
find-drop_while p (x ∷ s) q h = ground (arith, find-drop_while p s q)

-- A text without the pattern does not start with it.
pub find-starts_with : (p s : Bytes) → find p s ≡ none → starts_with p s ≡ false
unfolding find starts_with
find-starts_with [] [] h = cc
find-starts_with (y ∷ p) [] h = refl
find-starts_with p (x ∷ s) h = ground arith

pub length-drop_while : (q : ℕ → Bool) (s : Bytes) → length (drop_while q s) ≤ length s
unfolding drop_while
length-drop_while q [] = omega arith
length-drop_while q (x ∷ s) = ground (arith, length-drop_while q s)

pub drop_while-drop_while :
    (q : ℕ → Bool) (s : Bytes) → drop_while q (drop_while q s) ≡ drop_while q s
unfolding drop_while
drop_while-drop_while q [] = refl
drop_while-drop_while q (x ∷ s) = ground (arith, drop_while-drop_while q s)

-- A byte that is found parts the text.
pub find-split :
    (b : ℕ) (s : Bytes) (k : ℕ) → find (b ∷ []) s ≡ some k → s ≡ take k s ++ b ∷ drop (k + 1) s
unfolding find starts_with
find-split b [] k h = cc
find-split b (x ∷ s) k h = elim (Bool-cases (x == b)) [
  | inl e ↦ split-here k e (ground arith)
  | inr e ↦ elim (Option-cases (find (b ∷ []) s)) [
    | inl f ↦ absurd (ground (arith, f))
    | inr (j, f) ↦ split-later j k (ground (arith, f)) (find-split b s j f)
  ]
]
  where
    split-here :
        (k : ℕ) → (x == b) ≡ true → k ≡ 0 → x ∷ s ≡ take k (x ∷ s) ++ b ∷ drop (k + 1) (x ∷ s)
    split-here k e z = rw z (ap (λ c. c ∷ s) ((==_iff x b).0 e))

    split-later :
        (j k : ℕ)
        → k ≡ suc j
        → s ≡ take j s ++ b ∷ drop (j + 1) s
        → x ∷ s ≡ take k (x ∷ s) ++ b ∷ drop (k + 1) (x ∷ s)
    split-later j k z ih =
        rw z (ap (◌∷◌ x) ih ∙ ap (λ m. x ∷ (take j s ++ b ∷ drop m (x ∷ s))) one_more)
      where
        one_more : suc (j + 1) ≡ suc j + 1
        one_more = omega arith

-- A text that starts with another goes on behind it.
pub starts_with-drop : (p s : Bytes) → starts_with p s ≡ true → s ≡ p ++ drop (length p) s
unfolding starts_with
starts_with-drop [] s h = refl
starts_with-drop (x ∷ p) [] h = cc
starts_with-drop (x ∷ p) (y ∷ s) h =
    let same : y ≡ x = ground arith in rw same (ap (◌∷◌ x) (starts_with-drop p s (ground arith)))

pub starts_with_self : (p : Bytes) → starts_with p p ≡ true
unfolding starts_with
starts_with_self [] = refl
starts_with_self (x ∷ p) = ground (arith, starts_with_self p)

pub find_self : (p : Bytes) → find p p ≢ none
unfolding find
find_self [] h = cc
find_self (x ∷ p) h = absurd (ground (arith, starts_with_self (x ∷ p)))

-- A text is found at the end of another.
pub find-append : (p s : Bytes) → find p (s ++ p) ≢ none
unfolding find
find-append p [] h = find_self p h
find-append p (x ∷ s) h = elim (Option-cases (find p (s ++ p))) [
  | inl e ↦ find-append p s e
  | inr (k, e) ↦ absurd (ground (arith, e))
]
