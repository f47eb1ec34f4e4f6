-- ===== src/Sqlite/Paths.antt =====
-- `normalize_path` of src/sqlite/write.cpp: the home directory is written `~` in stored text.
use ragger_cpp.Prelude.{
  Bool, Bytes, Option-cases, [], arith, codes, drop, false, find, find-le, if◌then◌else◌, inl, inr,
  length, length-append, length-drop, length-take, none, not, null, refl, some, suc, take, zero, ℕ,
  ◌++◌, ◌+◌, ◌∷◌, ◌≡◌, ◌≤◌,
}

-- `config().normalize_home_path` and `home_dir()`.
pub record Home : Type 0 where
  pub enabled : Bool
  pub dir : Bytes

abbrev pub tilde : Bytes
tilde = codes "~/"

-- The loop, on fuel. What is behind `pos` is the text not yet searched.
pub replace_prefix : ℕ → Bytes → Bytes → Bytes
replace_prefix zero prefix s = s
replace_prefix (suc fuel) prefix s = elim (find prefix s) [
  | none ↦ s
  | some k ↦ take k s ++ (tilde ++ replace_prefix fuel prefix (drop (k + length prefix) s))
]

unfoldable pub normalize_path : Home → Bytes → Bytes
normalize_path home text =
    if not home.enabled
    then text
    else if null home.dir
    then text
    else replace_prefix (length text + 1) (home.dir ++ codes "/") text

replace_prefix-untouched :
    (fuel : ℕ) (prefix s : Bytes) → find prefix s ≡ none → replace_prefix fuel prefix s ≡ s
unfolding replace_prefix
replace_prefix-untouched zero prefix s h = refl
replace_prefix-untouched (suc fuel) prefix s h = rw (h, replace_prefix)

length-replace_prefix :
    (fuel : ℕ) (prefix s : Bytes)
    → 2 ≤ length prefix
    → length (replace_prefix fuel prefix s) ≤ length s
unfolding replace_prefix
length-replace_prefix zero prefix s h = omega arith
length-replace_prefix (suc fuel) prefix s h = elim (Option-cases (find prefix s)) [
  | inl e ↦ rw (e, replace_prefix) (omega arith)
  | inr (k, e) ↦
      let rest = drop (k + length prefix) s in
      rw (e, replace_prefix)
        (omega (
          arith,
          find-le prefix s k e,
          length-append (take k s) (tilde ++ replace_prefix fuel prefix rest),
          length-take k s,
          length-drop (k + length prefix) s,
          length-replace_prefix fuel prefix rest h,
        ))
]

-- Replacing never makes a text longer, and a text without the home directory is kept as it is.
pub normalize_path_bounded :
    (home : Home) (text : Bytes)
    → (length (normalize_path home text) ≤ length text)
      × (find (home.dir ++ codes "/") text ≡ none → normalize_path home text ≡ text)
unfolding normalize_path
normalize_path_bounded home text = (bound, kept)
  where
    long : (dir : Bytes) → null dir ≡ false → 2 ≤ length (dir ++ codes "/")
    long [] e = absurd (cc)
    long (c ∷ dir) e = omega (arith, length-append dir (codes "/"))

    bound : length (normalize_path home text) ≤ length text
    bound =
        ground (
          arith,
          long home.dir,
          length-replace_prefix (length text + 1) (home.dir ++ codes "/") text,
        )

    kept : find (home.dir ++ codes "/") text ≡ none → normalize_path home text ≡ text
    kept h =
        ground (arith, replace_prefix-untouched (length text + 1) (home.dir ++ codes "/") text h)
