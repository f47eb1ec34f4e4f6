-- ===== src/Util/Fs/Repo.antt =====
-- What a safe repository id is.
use ragger_cpp.Util.Fs.{slash, is_part_byte, all_part_bytes, part_ok, parts_ok, is_safe_model_repo}
use ragger_cpp.Prelude.{
  All, Bytes, Option-cases, [], arith, codes, drop, equal, equal_iff, false, find, find-split,
  find_from, inl, inr, is_alpha, is_digit, is_lower, is_upper, length, null, take, true, ℕ, ◌++◌,
  ◌+◌, ◌∷◌, ◌≡◌, ◌≢◌, ◌≤◌,
}

-- A name that can stand as one segment of a path and leads nowhere else.
pub record IsSegment (p : Bytes) : Type 0 where
  pub filled : null p ≡ false
  pub no_dot : p ≢ codes "."
  pub no_dots : p ≢ codes ".."
  pub bytes : All (λ c. (is_part_byte c ≡ true) × (c ≢ b'/')) p

part_byte-slash : (c : ℕ) → is_part_byte c ≡ true → c ≢ b'/'
unfolding is_part_byte is_alpha is_upper is_lower is_digit
part_byte-slash c h e = absurd (ground arith)

all_part_bytes-All :
    (s : Bytes) → all_part_bytes s ≡ true → All (λ c. (is_part_byte c ≡ true) × (c ≢ b'/')) s
unfolding all_part_bytes
all_part_bytes-All [] h = tt
all_part_bytes-All (c ∷ s) h =
    let e : is_part_byte c ≡ true = ground arith in
    ((e, part_byte-slash c e), all_part_bytes-All s (ground arith))

not_equal : (a b : Bytes) → equal a b ≡ false → a ≢ b
not_equal a b h e = absurd (ground (arith, (equal_iff a b).1 e, h))

part_ok-IsSegment : (p : Bytes) → null p ≡ false → part_ok p ≡ true → IsSegment p
unfolding part_ok
part_ok-IsSegment p n h = record {
  filled = n;
  no_dot = not_equal p (codes ".") (ground arith);
  no_dots = not_equal p (codes "..") (ground arith);
  bytes = all_part_bytes-All p (ground arith);
}

parts_ok-IsSegment : (p m : Bytes) → parts_ok p m ≡ true → IsSegment p × IsSegment m
unfolding parts_ok
parts_ok-IsSegment p m h = (
  part_ok-IsSegment p (ground arith) (ground arith),
  part_ok-IsSegment m (ground arith) (ground arith),
)

-- A repository id that is let through is two names with a slash between them, in 200 bytes at
-- most; each name is not empty, not `.` or `..`, and has none but the allowed bytes, which a
-- slash is not.
pub is_safe_model_repo-IsSegment :
    (repo : Bytes)
    → is_safe_model_repo repo ≡ true
    → (provider model : Bytes) × (repo ≡ provider ++ b'/' ∷ model)
      × IsSegment provider
      × IsSegment model
      × (length repo ≤ 200)
unfolding is_safe_model_repo
is_safe_model_repo-IsSegment repo h = elim (Option-cases (find slash repo)) [
  | inl e ↦ absurd (ground (arith, e))
  | inr (at, e) ↦ elim (Option-cases (find_from slash repo (at + 1))) [
    | inr (j, f) ↦ absurd (ground (arith, e, f))
    | inl f ↦
        let k = parts_ok-IsSegment (take at repo) (drop (at + 1) repo) (ground (arith, e, f)) in
        (take at repo, drop (at + 1) repo, find-split b'/' repo at e, k.0, k.1, ground arith)
  ]
]
