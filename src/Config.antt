-- ===== src/Config.antt =====
-- src/config_access.cpp: the checks on a setting. What `std::strtod` and `std::vformat` accept are
-- arguments, and so is the table of settings, `kConfigSchema` of include/lang/en.h.
pub mod Percent
use ragger_cpp.Agent.Handle.Decimal.{value}
use ragger_cpp.Agent.Handle.{is_one_of}
use ragger_cpp.Prelude.{
  Bool, Bytes, List, Option, [], codes, drop_end_while, drop_while, equal, false, if◌then◌else◌,
  is_alnum, is_digit, is_space, leb, lower, ltb, negsuc, none, not, null, pos, some, suc, true,
  zero, ℕ, ℤ, ◌&&◌, ◌-◌, ◌==◌, ◌^◌, ◌||◌, ◌∷◌,
}
use ragger_cpp.Util.Parse.{digits_only}

pub data CfgType : Type 0 where
  boolean integer float enum string path text : CfgType

pub record ConfigMeta : Type 0 where
  pub key : Bytes
  pub kind : CfgType
  pub options : Bytes

pub data ConfigSetError : Type 0 where
  unknown_key locked invalid_value : ConfigSetError

-- What the standard library accepts.
pub record Accepts : Type 0 where
  pub strtod : Bytes → Bool
  pub vformat : Bytes → Bool

unfoldable pub config_meta : List ConfigMeta → Bytes → Option ConfigMeta
config_meta [] key = none
config_meta (m ∷ schema) key = if equal m.key key then some m else config_meta schema key

pub parse_bool_strict : Bytes → Option Bool
unfolding is_one_of
parse_bool_strict v =
    let s = lower v in
    if is_one_of s (codes "true" ∷ codes "yes" ∷ codes "1" ∷ [])
    then some true
    else if is_one_of s (codes "false" ∷ codes "no" ∷ codes "0" ∷ [])
    then some false
    else none

pub trim_space : Bytes → Bytes
trim_space s = drop_end_while is_space (drop_while is_space s)

abbrev pub negated : ℕ → ℤ
negated zero = pos 0
negated (suc n) = negsuc n

-- Digits up to a bound.
pub digits_up_to : ℕ → Bytes → Option ℕ
unfolding digits_only
digits_up_to most s =
    if null s
    then none
    else if not (digits_only s)
    then none
    else if ltb most (value 0 s)
    then none
    else some (value 0 s)

abbrev pub map_some {ℓ} : {A B : Type ℓ} → (A → B) → Option A → Option B
map_some f none = none
map_some f (some a) = some (f a)

-- `std::from_chars` of a `long` of 64 bits, on the whole of the text.
pub from_chars : Bytes → Option ℤ
unfolding digits_up_to
from_chars [] = none
from_chars (c ∷ s) =
    if c == b'-'
    then map_some negated (digits_up_to (2 ^ 63) s)
    else map_some pos (digits_up_to (2 ^ 63 - 1) (c ∷ s))

unfoldable pub parse_int_strict : Bytes → Option ℤ
unfolding trim_space from_chars
parse_int_strict v = from_chars (trim_space v)

pub parse_float_strict : Accepts → Bytes → Bool
unfolding trim_space
parse_float_strict std v = not (null (trim_space v)) && std.strtod (trim_space v)

-- The parts between the commas.
abbrev pub push_first : ℕ → List Bytes → List Bytes
push_first c [] = (c ∷ []) ∷ []
push_first c (t ∷ ts) = (c ∷ t) ∷ ts

pub split_commas : Bytes → List Bytes
split_commas [] = [] ∷ []
split_commas (c ∷ s) =
    let rest = split_commas s in if c == b',' then [] ∷ rest else push_first c rest

pub all_name_bytes : Bytes → Bool
all_name_bytes [] = true
all_name_bytes (c ∷ s) = (is_alnum c || c == b'_') && all_name_bytes s

pub is_identifier : Bytes → Bool
unfolding all_name_bytes
is_identifier [] = false
is_identifier (c ∷ s) = not (is_digit c) && all_name_bytes (c ∷ s)

abbrev pub percent_keys : List Bytes
percent_keys = codes "summarizer_target_pct" ∷ codes "summarizer_max_pct" ∷ []

abbrev pub env_keys : List Bytes
env_keys = codes "embedding_api_key_env" ∷ codes "summarizer_api_key_env" ∷ []

abbrev pub refuse_unless : Bool → Option ConfigSetError
refuse_unless true = none
refuse_unless false = some invalid_value

-- `n >= 1 && n <= 100`
abbrev pub is_percent : ℤ → Bool
is_percent (pos n) = leb 1 n && leb n 100
is_percent (negsuc n) = false

pub check_integer : Bytes → Option ℤ → Option ConfigSetError
unfolding is_one_of
check_integer key none = some invalid_value
check_integer key (some n) =
    if is_one_of key percent_keys then refuse_unless (is_percent n) else none

abbrev pub is_some {ℓ} : {A : Type ℓ} → Option A → Bool
is_some none = false
is_some (some a) = true

-- The `switch`, for a value that is not empty.
pub check_kind : Accepts → ConfigMeta → Bytes → Bytes → CfgType → Option ConfigSetError
unfolding parse_bool_strict parse_int_strict check_integer parse_float_strict split_commas
    is_identifier is_one_of
check_kind std m key v boolean = refuse_unless (is_some (parse_bool_strict v))
check_kind std m key v integer = check_integer key (parse_int_strict v)
check_kind std m key v float = refuse_unless (parse_float_strict std v)
check_kind std m key v enum = refuse_unless (null m.options || is_one_of v (split_commas m.options))
check_kind std m key v string = refuse_unless (not (is_one_of key env_keys) || is_identifier v)
check_kind std m key v path =
    refuse_unless (not (equal key (codes "summarizer_prompt")) || std.vformat v)
check_kind std m key v text =
    refuse_unless (not (equal key (codes "summarizer_prompt")) || std.vformat v)

-- `none` is a value that is accepted.
unfoldable pub validate_config_value :
    Accepts → List ConfigMeta → Bytes → Bytes → Option ConfigSetError
unfolding config_meta check_kind
validate_config_value std schema key v = elim (config_meta schema key) [
  | none ↦ some unknown_key
  | some m ↦ if null v then none else check_kind std m key v m.kind
]
