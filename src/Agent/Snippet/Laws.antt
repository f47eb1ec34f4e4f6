-- ===== src/Agent/Snippet/Laws.antt =====
-- Where a snippet is cut.
use ragger_cpp.Agent.Snippet.{snippet_max, find_last_blank, snippet_cut, ellipsis, agent_snippet}
use ragger_cpp.Prelude.{
  Bool-cases, Bytes, List, Option-cases, [], ap, arith, concat, false, inl, inr, is_blank, leb,
  length, some, subst, suc, sym, take, true, zero, ℕ, ◌++◌, ◌<◌, ◌∙◌, ◌≡◌, ◌≤◌,
}
use ragger_cpp.Util.Utf8.Boundary.{
  walk_back-walk_back, safe_cut_stop, walk_back_stop, IsText, fitting, walk_back-le,
  safe_cut-fitting, take-fitting,
}
use ragger_cpp.Util.Utf8.{safe_cut, is_continuation, byte_at, walk_back}

find_last_blank-le : (s : Bytes) (i k : ℕ) → find_last_blank s i ≡ some k → k ≤ i
unfolding find_last_blank
find_last_blank-le s zero k h = ground arith
find_last_blank-le s (suc i) k h = ground (arith, find_last_blank-le s i k)

find_last_blank-blank :
    (s : Bytes) (i k : ℕ) → find_last_blank s i ≡ some k → is_blank (byte_at s k) ≡ true
unfolding find_last_blank
find_last_blank-blank s zero k h = elim (Bool-cases (is_blank (byte_at s zero))) [
  | inl e ↦ subst (λ n. is_blank (byte_at s n) ≡ true) (ground arith) e
  | inr e ↦ ground arith
]
find_last_blank-blank s (suc i) k h = elim (Bool-cases (is_blank (byte_at s (suc i)))) [
  | inl e ↦ subst (λ n. is_blank (byte_at s n) ≡ true) (ground arith) e
  | inr e ↦ find_last_blank-blank s i k (ground arith)
]

pub blank-is_continuation : (c : ℕ) → is_blank c ≡ true → is_continuation c ≡ false
unfolding is_blank is_continuation
blank-is_continuation c h = ground arith

-- A cut that walking back does not move, within the maximum.
abbrev IsCut : Bytes → ℕ → Type 0
IsCut s k = (walk_back s k ≡ k) × (k ≤ snippet_max)

snippet_cut-IsCut : (s : Bytes) → IsCut s (snippet_cut s (find_last_blank s snippet_max))
unfolding snippet_cut
snippet_cut-IsCut s = elim (Option-cases (find_last_blank s snippet_max)) [
  | inl e ↦ rw e (walk_back-walk_back s snippet_max, walk_back-le s snippet_max)
  | inr (zero, e) ↦ rw e (walk_back-walk_back s snippet_max, walk_back-le s snippet_max)
  | inr (suc k, e) ↦ rw e (
    walk_back_stop s (suc k)
        (blank-is_continuation _ (find_last_blank-blank s snippet_max (suc k) e)),
    find_last_blank-le s snippet_max (suc k) e,
  )
]

cut-fitting :
    (cs : List Bytes) (k : ℕ)
    → IsText cs
    → walk_back (concat cs) k ≡ k
    → k < length (concat cs)
    → take k (concat cs) ≡ concat (fitting k cs)
cut-fitting cs k t stop h =
    ap (λ n. take n (concat cs)) (sym (safe_cut_stop (concat cs) k stop) ∙ cut) ∙ take-fitting k cs
  where
    cut : safe_cut (concat cs) k ≡ length (concat (fitting k cs))
    cut = omega (arith, safe_cut-fitting cs [] k k t (omega arith) h)

-- The snippet of a text of whole UTF-8 characters and over 240 bytes is the longest run of
-- whole characters within some number of bytes, 240 at most, and the ellipsis.
agent_snippet-fitting :
    (cs : List Bytes)
    → IsText cs
    → snippet_max < length (concat cs)
    → (k : ℕ) × (k ≤ snippet_max) × (agent_snippet (concat cs) ≡ concat (fitting k cs) ++ ellipsis)
unfolding agent_snippet
agent_snippet-fitting cs t h =
    let k = snippet_cut (concat cs) (find_last_blank (concat cs) snippet_max) in
    let c = snippet_cut-IsCut (concat cs) in
    let whole = cut-fitting cs k t c.0 (omega (arith, c.1)) in
    let long : leb (length (concat cs)) snippet_max ≡ false = ground arith in
    (k, c.1, rw long (ap (λ s. s ++ ellipsis) whole))
