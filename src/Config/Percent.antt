-- ===== src/Config/Percent.antt =====
-- The percentages of the summarizer.
use ragger_cpp.Agent.Handle.{is_one_of}
use ragger_cpp.Config.{
  ConfigMeta, CfgType, Accepts, config_meta, parse_int_strict, percent_keys, is_percent,
  check_integer, check_kind, validate_config_value,
}
use ragger_cpp.Prelude.{
  Bytes, List, Option, ap, arith, false, negsuc, none, null, pos, refl, some, subst, true, ℕ, ℤ,
  ◌≡◌, ◌≤◌,
}

percent-some : (n : ℤ) → is_percent n ≡ true → (k : ℕ) × (n ≡ pos k) × (1 ≤ k) × (k ≤ 100)
percent-some (pos k) h = (k, refl, ground arith, ground arith)
percent-some (negsuc k) h = cc

check_integer-none :
    (key : Bytes) (o : Option ℤ)
    → is_one_of key percent_keys ≡ true
    → check_integer key o ≡ none
    → (k : ℕ) × (o ≡ some (pos k)) × (1 ≤ k) × (k ≤ 100)
unfolding check_integer
check_integer-none key none p h = cc
check_integer-none key (some n) p h =
    let s = percent-some n (ground arith) in (s.0, ap some s.1, s.2, s.3)

-- If a value that is not empty is accepted for one of the two percentages of the summarizer,
-- declared as an integer in the table, it is read as a number from 1 to 100.
validate_config_value-percent :
    (std : Accepts) (schema : List ConfigMeta) (m : ConfigMeta) (key v : Bytes)
    → is_one_of key percent_keys ≡ true
    → config_meta schema key ≡ some m
    → m.kind ≡ CfgType.integer
    → null v ≡ false
    → validate_config_value std schema key v ≡ none
    → (k : ℕ) × (parse_int_strict v ≡ some (pos k)) × (1 ≤ k) × (k ≤ 100)
unfolding validate_config_value check_kind
validate_config_value-percent std schema m key v p f i n h =
    check_integer-none key (parse_int_strict v) p accepted
  where
    by_kind : check_kind std m key v m.kind ≡ none
    by_kind = ground (arith, f, n, h)

    accepted : check_integer key (parse_int_strict v) ≡ none
    accepted = subst (λ t. check_kind std m key v t ≡ none) i by_kind
