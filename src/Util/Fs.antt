-- ===== src/Util/Fs.antt =====
-- src/util/fs.cpp: paths.
pub mod Repo
pub mod Quote
use ragger_cpp.Prelude.{
  Bool, Bytes, [], codes, drop, equal, false, find, find_from, get_or, if◌then◌else◌, is_alpha,
  is_digit, length, ltb, none, not, null, some, starts_with, take, true, ℕ, ◌&&◌, ◌++◌, ◌+◌, ◌==◌,
  ◌||◌, ◌∷◌,
}

abbrev pub slash : Bytes
slash = b'/' ∷ []

-- `occurs` of a byte.
abbrev pub contains : ℕ → Bytes → Bool
contains c s = elim (find (c ∷ []) s) [ none ↦ false | some _ ↦ true ]

pub is_part_byte : ℕ → Bool
is_part_byte c = is_alpha c || is_digit c || c == b'.' || c == b'_' || c == b'-'

pub all_part_bytes : Bytes → Bool
unfolding is_part_byte
all_part_bytes [] = true
all_part_bytes (c ∷ s) = if not (is_part_byte c) then false else all_part_bytes s

-- `part_ok`
pub part_ok : Bytes → Bool
unfolding all_part_bytes
part_ok p = if equal p (codes ".") || equal p (codes "..") then false else all_part_bytes p

pub parts_ok : Bytes → Bytes → Bool
unfolding part_ok
parts_ok provider model =
    if null provider || null model then false else part_ok provider && part_ok model

unfoldable pub is_safe_model_repo : Bytes → Bool
unfolding parts_ok
is_safe_model_repo repo =
    if null repo || ltb 200 (length repo)
    then false
    else if contains b'\\' repo
    then false
    else if contains 0 repo
    then false
    else elim (find slash repo) [
      | none ↦ false
      | some at ↦ elim (find_from slash repo (at + 1)) [
        | none ↦ parts_ok (take at repo) (drop (at + 1) repo)
        | some _ ↦ false
      ]
    ]

-- Inside the quotes: a quote leaves them, stands escaped, and opens them again.
pub quote_body : Bytes → Bytes
quote_body [] = []
quote_body (c ∷ s) =
    let rest = quote_body s in if c == b'\'' then codes "'\\''" ++ rest else c ∷ rest

unfoldable pub shell_quote_path : Bytes → Bytes
unfolding quote_body
shell_quote_path s = b'\'' ∷ (quote_body s ++ b'\'' ∷ [])

-- `if (home.back() == '/') home.pop_back();`, one slash only.
pub without_slash : Bytes → Bytes
without_slash [] = []
without_slash (c ∷ []) = if c == b'/' then [] else c ∷ []
without_slash (c ∷ d ∷ s) = c ∷ without_slash (d ∷ s)

-- The home directory is empty if none is known.
unfoldable pub collapse_home : Bytes → Bytes → Bytes
unfolding without_slash
collapse_home home path =
    if null home
    then path
    else (let h = without_slash home in
        if ltb (length h) (length path) && starts_with h path && get_or path (length h) 0 == b'/'
        then b'~' ∷ drop (length h) path
        else if equal path h
        then b'~' ∷ []
        else path)

-- The override of `--ragger-base` and the home directory; empty means that it is not set.
unfoldable pub ragger_base_dir : Bytes → Bytes → Bytes
ragger_base_dir override home =
    if not (null override) then override else if null home then [] else home ++ codes "/.ragger"
