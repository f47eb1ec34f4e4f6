-- ===== src/Prelude/Text.antt =====
-- A std::string as the list of its bytes, with the comparisons that the code uses.
use Prim.Native.Char.{code}
use Prim.Native.Nat.{ℕ, suc, ◌+◌}
use Prim.Native.String.{String}
use mathlib.Core.Bool.{Bool, true, false, ◌&&◌, ◌||◌}
use mathlib.Core.List.{List, [], ◌∷◌, ◌++◌, map}
use mathlib.Core.Logic.{◌↔◌}
use native.Mathlib.Omega.{arith}
use mathlib.Core.Option.{Option, none, some}
use mathlib.Core.Path.{◌≡◌, refl}
use ragger_cpp.Prelude.Lists.{drop, null}
use ragger_cpp.Prelude.Tests.{◌==◌, leb, if◌then◌else◌}

-- One place further on.
abbrev pub later : Option ℕ → Option ℕ
later none = none
later (some k) = some (suc k)

abbrev pub or_else {ℓ} : {A : Type ℓ} → Option A → Option A → Option A
or_else none b = b
or_else (some a) b = some a

abbrev pub Bytes : Type 0
Bytes = List ℕ

-- The code points of a literal: its bytes, if it is ASCII.
abbrev pub codes : String → Bytes
codes String.[] = []
codes (String.◌∷◌ c s) = code c ∷ codes s

-- `a == b` on strings.
unfoldable pub equal : Bytes → Bytes → Bool
equal (c ∷ s) (d ∷ t) = c == d && equal s t
equal [] [] = true
equal _ _ = false

-- `s.starts_with(p)`, `s.compare(0, p.size(), p) == 0`.
unfoldable pub starts_with : Bytes → Bytes → Bool
starts_with [] s = true
starts_with (x ∷ p) [] = false
starts_with (x ∷ p) (y ∷ s) = x == y && starts_with p s

pub equal_iff : (s t : Bytes) → (equal s t ≡ true) ↔ (s ≡ t)
unfolding equal
equal_iff [] [] = ground arith
equal_iff [] (d ∷ t) = ground arith
equal_iff (c ∷ s) [] = ground arith
equal_iff (c ∷ s) (d ∷ t) = ground (arith, equal_iff s t)

pub equal_self : (a : Bytes) → equal a a ≡ true
equal_self a = (equal_iff a a).1 refl

pub starts_with-append : (p s : Bytes) → starts_with p (p ++ s) ≡ true
unfolding starts_with
starts_with-append [] s = refl
starts_with-append (x ∷ p) s = ground (arith, starts_with-append p s)

-- `x` in front of what is kept of the rest; dropped with it if `drops` and nothing is kept.
abbrev pub keep_unless : Bool → ℕ → Bytes → Bytes
keep_unless drops x [] = if drops then [] else x ∷ []
keep_unless drops x (y ∷ s) = x ∷ y ∷ s

-- `s.find(p)`: the first place where `p` stands.
unfoldable pub find : Bytes → Bytes → Option ℕ
unfolding starts_with
find p [] = if null p then some 0 else none
find p (x ∷ s) = if starts_with p (x ∷ s) then some 0 else later (find p s)

-- `s.find(p, from)`, for a `p` that is not empty.
abbrev pub find_from : Bytes → Bytes → ℕ → Option ℕ
find_from p s from = elim (find p (drop from s)) [ none ↦ none | some k ↦ some (from + k) ]

-- `s.rfind(p)`, for a `p` that is not empty.
unfoldable pub rfind : Bytes → Bytes → Option ℕ
unfolding starts_with
rfind p [] = none
rfind p (x ∷ s) = or_else (later (rfind p s)) (if starts_with p (x ∷ s) then some 0 else none)

-- `s.erase(0, s.find_first_not_of(...))` for the set of bytes that `p` accepts.
unfoldable pub drop_while : (ℕ → Bool) → Bytes → Bytes
drop_while p [] = []
drop_while p (x ∷ s) = if p x then drop_while p s else x ∷ s

-- `s.erase(s.find_last_not_of(...) + 1)`.
unfoldable pub drop_end_while : (ℕ → Bool) → Bytes → Bytes
drop_end_while p [] = []
drop_end_while p (x ∷ s) = keep_unless (p x) x (drop_end_while p s)

-- `s.find_first_not_of(...)`.
unfoldable pub find_first_not : (ℕ → Bool) → Bytes → Option ℕ
find_first_not p [] = none
find_first_not p (x ∷ s) = if p x then later (find_first_not p s) else some 0

abbrev pub within : ℕ → ℕ → ℕ → Bool
within lo hi c = leb lo c && leb c hi

-- The functions of <cctype> in the "C" locale.
unfoldable pub is_digit : ℕ → Bool
is_digit c = within b'0' b'9' c

unfoldable pub is_upper : ℕ → Bool
is_upper c = within b'A' b'Z' c

unfoldable pub is_lower : ℕ → Bool
is_lower c = within b'a' b'z' c

unfoldable pub is_alpha : ℕ → Bool
unfolding is_upper is_lower
is_alpha c = is_upper c || is_lower c

unfoldable pub is_alnum : ℕ → Bool
unfolding is_alpha is_digit
is_alnum c = is_alpha c || is_digit c

unfoldable pub to_lower : ℕ → ℕ
unfolding is_upper
to_lower c = if is_upper c then c + 32 else c

-- `" \t\r\n"`
unfoldable pub is_blank : ℕ → Bool
is_blank c = c == b' ' || c == b'\t' || c == b'\r' || c == b'\n'

-- `std::isspace`: the blanks, vertical tab and form feed.
unfoldable pub is_space : ℕ → Bool
is_space c = c == b' ' || within 9 13 c

-- A string with every byte in lower case.
abbrev pub lower : Bytes → Bytes
lower = map to_lower
