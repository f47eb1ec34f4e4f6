-- ===== src/Agent/Handle/RoundTrip.antt =====
-- Reading back the handles that the agent surface prints.
use ragger_cpp.Agent.Handle.Decimal.{
  value, IsDigits, parse_digits-value, decimal, decimal-IsDigits, value-decimal, Leads,
  decimal-Leads,
}
use ragger_cpp.Agent.Handle.{
  known_layers, is_one_of, is_known_agent_layer, int_max, parse_rowid, with_rowid, colon,
  parse_parts, parse_agent_handle,
}
use ragger_cpp.Prelude.{
  All, Bool-cases, Bytes, List, [], ap, arith, drop, drop-append_one, equal, equal_iff, find, inl,
  inr, is_digit, length, none, refl, some, starts_with, subst, sym, take-append_left, true, ℕ, ◌++◌,
  ◌+◌, ◌<◌, ◌∙◌, ◌∷◌, ◌≡◌, ◌≤◌,
}

pub is_one_of-All :
    (P : Bytes → Type 0) (s : Bytes) (ts : List Bytes) → All P ts → is_one_of s ts ≡ true → P s
unfolding is_one_of
is_one_of-All P s [] a h = cc
is_one_of-All P s (t ∷ ts) (a, rest) h = elim (Bool-cases (equal s t)) [
  | inl e ↦ subst P (sym ((equal_iff s t).0 e)) a
  | inr e ↦ is_one_of-All P s ts rest (ground arith)
]

known-colon : (layer : Bytes) → is_known_agent_layer layer ≡ true → find colon layer ≡ none
unfolding is_known_agent_layer find starts_with
known-colon layer h =
    is_one_of-All (λ l. find colon l ≡ none) layer known_layers
      (refl, (refl, (refl, (refl, (refl, tt))))) h

find-append : (a s : Bytes) → find colon a ≡ none → find colon (a ++ b':' ∷ s) ≡ some (length a)
unfolding find starts_with
find-append [] s h = refl
find-append (x ∷ a) s h = ground (arith, find-append a s)

digits-colon : (s : Bytes) → IsDigits s → find colon s ≡ none
unfolding find starts_with is_digit
digits-colon [] d = refl
digits-colon (c ∷ s) d = ground (arith, digits-colon s d.1, d.0)

parse_rowid-digits :
    (s : Bytes) (n : ℕ)
    → Leads s
    → IsDigits s
    → value 0 s ≡ n
    → n ≤ int_max
    → parse_rowid s ≡ some n
unfolding parse_rowid
parse_rowid-digits [] n l d v k = absurd l
parse_rowid-digits (c ∷ s) n l d v k =
    rw l (parse_digits-value 0 (c ∷ s) d (omega (arith, v)) ∙ ap some v)

parse_rowid-decimal : (n : ℕ) → 0 < n → n ≤ int_max → parse_rowid (decimal (n + 1) n) ≡ some n
parse_rowid-decimal n p h =
    parse_rowid-digits (decimal (n + 1) n) n (decimal-Leads (n + 1) n p (omega arith))
      (decimal-IsDigits (n + 1) n) (value-decimal (n + 1) n (omega arith)) h

parse_parts-append :
    (layer s : Bytes)
    → is_known_agent_layer layer ≡ true
    → parse_parts (layer ++ b':' ∷ s) (length layer) ≡ with_rowid layer (parse_rowid s)
unfolding parse_parts
parse_parts-append layer s h =
    rw (take-append_left layer (b':' ∷ s), drop-append_one layer s b':', h) refl

parse_one_colon :
    (handle : Bytes) (k : ℕ)
    → find colon handle ≡ some k
    → find colon (drop (k + 1) handle) ≡ none
    → parse_agent_handle handle ≡ parse_parts handle k
unfolding parse_agent_handle
parse_one_colon handle k e f = ground (arith, e, f)

-- A handle of a known layer, a colon and the decimal digits of a positive id that fits an
-- `int` is read back as that layer and that id.
pub parse_agent_handle-decimal :
    (layer : Bytes) (n : ℕ)
    → is_known_agent_layer layer ≡ true
    → 0 < n
    → n ≤ int_max
    → parse_agent_handle (layer ++ b':' ∷ decimal (n + 1) n) ≡ some (layer, n)
unfolding with_rowid
parse_agent_handle-decimal layer n k p h =
    let s = decimal (n + 1) n in
    let no_more : find colon (drop (length layer + 1) (layer ++ b':' ∷ s)) ≡ none =
      rw (drop-append_one layer s b':') (digits-colon s (decimal-IsDigits (n + 1) n)) in
    parse_one_colon _ (length layer) (find-append layer s (known-colon layer k)) no_more
    ∙ parse_parts-append layer s k
    ∙ ap (with_rowid layer) (parse_rowid-decimal n p h)
