-- ===== src/Summarizer/Budget.antt =====
-- `make_budget` of src/summarizer.cpp: the size contract of a summary. `std::size_t` has 64 bits.
use ragger_cpp.Prelude.{
  arith, if◌then◌else◌, magnitude, max, negsuc, pos, positive, ℕ, ℤ, ◌%◌, ◌*◌, ◌/◌, ◌<◌, ◌^◌, ◌≡◌,
  ◌≤◌,
}

pub record SummaryBudget : Type 0 where
  pub target_chars : ℕ
  pub hard_cap : ℕ

-- A percentage of the configuration, or the default where it is not positive.
unfoldable pub percent_or : ℕ → ℤ → ℕ
percent_or d p = if positive p then magnitude p else d

-- `source_chars * static_cast<std::size_t>(pct) / 100`
unfoldable pub share : ℕ → ℕ → ℕ
share source_chars pct = source_chars * pct % 2 ^ 64 / 100

unfoldable pub make_budget : ℤ → ℤ → ℕ → SummaryBudget
make_budget target_pct max_pct source_chars =
    let target_chars = max 40 (share source_chars (percent_or 30 target_pct)) in
    record {
      target_chars = target_chars;
      hard_cap = max target_chars (share source_chars (percent_or 60 max_pct));
    }

-- Whatever is configured, the constraint can be met, and 40 characters are always allowed.
pub make_budget_feasible :
    (target_pct max_pct : ℤ) (source_chars : ℕ)
    → let b = make_budget target_pct max_pct source_chars in
      (40 ≤ b.target_chars) × (b.target_chars ≤ b.hard_cap)
unfolding make_budget
make_budget_feasible t m n = omega arith

percent_or-le : (d : ℕ) (p : ℤ) → d ≤ 100 → magnitude p ≤ 100 → percent_or d p ≤ 100
unfolding percent_or
percent_or-le d p h k = ground arith

share-le : (n p : ℕ) → p ≤ 100 → share n p ≤ n
unfolding share
share-le n p h = grind arith

-- With percentages of at most 100 a summary is never allowed to be longer than its source, or than
-- 40 characters.
pub make_budget-le_source :
    (target_pct max_pct : ℤ) (source_chars : ℕ)
    → magnitude target_pct ≤ 100
    → magnitude max_pct ≤ 100
    → (make_budget target_pct max_pct source_chars).hard_cap ≤ max 40 source_chars
unfolding make_budget
make_budget-le_source t m n ht hm = omega (
  arith,
  share-le n (percent_or 30 t) (percent_or-le 30 t (omega arith) ht),
  share-le n (percent_or 60 m) (percent_or-le 60 m (omega arith) hm),
)

-- The defaults give 30 and 60 percent of a source of at least 134 characters.
pub make_budget-default :
    (n : ℕ)
    → 134 ≤ n
    → n < 2 ^ 50
    → make_budget (pos 0) (negsuc 0) n
      ≡ record { target_chars = n * 30 / 100; hard_cap = n * 60 / 100 }
unfolding make_budget percent_or share
make_budget-default n h k = ground arith
