-- ===== src/Agent/Handle/Sound.antt =====
-- What a handle that is read looks like.
use ragger_cpp.Agent.Handle.Decimal.{value, IsDigits, parse_digits_sound, Leads}
use ragger_cpp.Agent.Handle.{
  is_known_agent_layer, int_max, parse_rowid, with_rowid, colon, parse_parts, parse_agent_handle,
}
use ragger_cpp.Prelude.{
  Bool-cases, Bytes, Option, Option-cases, [], arith, drop, find, find-split, find_from, inl, inr,
  none, some, take, true, ℕ, ◌++◌, ◌+◌, ◌==◌, ◌∷◌, ◌≡◌, ◌≤◌,
}

-- The parts that the parser splits a handle into.
pub record IsHandle (handle layer : Bytes) (n : ℕ) : Type 0 where
  pub digits : Bytes
  pub splits : handle ≡ layer ++ b':' ∷ digits
  pub known : is_known_agent_layer layer ≡ true
  pub all_digits : IsDigits digits
  pub leads : Leads digits
  pub number : n ≡ value 0 digits
  pub fits : n ≤ int_max

parse_rowid_sound :
    (s : Bytes) (n : ℕ)
    → parse_rowid s ≡ some n
    → Leads s × IsDigits s × (n ≡ value 0 s) × (n ≤ int_max)
unfolding parse_rowid
parse_rowid_sound [] n h = cc
parse_rowid_sound (c ∷ s) n h = elim (Bool-cases (c == b'0')) [
  | inl e ↦ absurd (ground arith)
  | inr e ↦
      let d = parse_digits_sound 0 (c ∷ s) n (omega arith) (ground arith) in (e, d.0, d.1, d.2)
]

with_rowid-some :
    (layer l : Bytes) (o : Option ℕ) (n : ℕ)
    → with_rowid layer o ≡ some (l, n)
    → (layer ≡ l) × (o ≡ some n)
unfolding with_rowid
with_rowid-some layer l none n h = cc
with_rowid-some layer l (some m) n h = (cc, cc)

parse_parts_sound :
    (handle layer : Bytes) (at n : ℕ)
    → find colon handle ≡ some at
    → parse_parts handle at ≡ some (layer, n)
    → IsHandle handle layer n
unfolding parse_parts
parse_parts_sound handle layer at n f h =
    elim (Bool-cases (is_known_agent_layer (take at handle))) [
      | inr e ↦ absurd (ground arith)
      | inl e ↦
          let w =
            with_rowid-some (take at handle) layer (parse_rowid (drop (at + 1) handle)) n
              (ground arith) in
          let r = parse_rowid_sound (drop (at + 1) handle) n w.1 in
          record {
            digits = drop (at + 1) handle;
            splits = rw (← w.0) (find-split b':' handle at f);
            known = rw (← w.0) e;
            all_digits = r.1;
            leads = r.0;
            number = r.2;
            fits = r.3;
          }
    ]

-- If a handle is read as a layer and an id, it is a known layer, a colon and digits without a
-- leading zero that stand for the id, and the id fits an `int`.
pub parse_agent_handle-IsHandle :
    (handle layer : Bytes) (n : ℕ)
    → parse_agent_handle handle ≡ some (layer, n)
    → IsHandle handle layer n
unfolding parse_agent_handle
parse_agent_handle-IsHandle handle layer n h = elim (Option-cases (find colon handle)) [
  | inl f ↦ absurd (ground (arith, f))
  | inr (k, f) ↦ elim (Option-cases (find_from colon handle (k + 1))) [
    | inl g ↦ parse_parts_sound handle layer k n f (ground (arith, f, g))
    | inr (j, g) ↦ absurd (ground (arith, f, g))
  ]
]
