-- ===== src/Prelude/Trim.antt =====
-- Laws of trimming at both ends.
use ragger_cpp.Prelude.Tests.{Bool-cases}
use ragger_cpp.Prelude.Text.{Bytes, drop_while, drop_end_while, keep_unless}
use Prim.Native.Nat.{ℕ}
use mathlib.Core.Bool.{Bool, true, false}
use mathlib.Core.List.{[], ◌∷◌}
use mathlib.Core.Logic.{inl, inr}
use mathlib.Core.Path.{◌≡◌, refl}
use native.Mathlib.Omega.{arith}

drop_while-keep_unless :
    (p : ℕ → Bool) (drops : Bool) (c : ℕ) (r : Bytes)
    → p c ≡ false
    → drop_while p (keep_unless drops c r) ≡ keep_unless drops c r
unfolding drop_while
drop_while-keep_unless p true c [] e = refl
drop_while-keep_unless p false c [] e = rw e refl
drop_while-keep_unless p drops c (d ∷ r) e = rw e refl

-- Trimming the end leaves nothing to trim at the start.
pub drop_while-drop_end_while :
    (p q : ℕ → Bool) (s : Bytes)
    → drop_while p (drop_end_while q (drop_while p s)) ≡ drop_end_while q (drop_while p s)
unfolding drop_while drop_end_while
drop_while-drop_end_while p q [] = refl
drop_while-drop_end_while p q (c ∷ s) = elim (Bool-cases (p c)) [
  | inl e ↦ rw e (drop_while-drop_end_while p q s)
  | inr e ↦ rw e (drop_while-keep_unless p (q c) c (drop_end_while q s) e)
]

drop_end_while-keep_unless :
    (p : ℕ → Bool) (c : ℕ) (r : Bytes)
    → drop_end_while p r ≡ r
    → drop_end_while p (keep_unless (p c) c r) ≡ keep_unless (p c) c r
unfolding drop_end_while
drop_end_while-keep_unless p c [] h = ground arith
drop_end_while-keep_unless p c (d ∷ r) h = rw h refl

pub drop_end_while-drop_end_while :
    (p : ℕ → Bool) (s : Bytes) → drop_end_while p (drop_end_while p s) ≡ drop_end_while p s
unfolding drop_end_while
drop_end_while-drop_end_while p [] = refl
drop_end_while-drop_end_while p (c ∷ s) =
    drop_end_while-keep_unless p c (drop_end_while p s) (drop_end_while-drop_end_while p s)
