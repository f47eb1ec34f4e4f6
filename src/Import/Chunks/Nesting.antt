-- ===== src/Import/Chunks/Nesting.antt =====
-- The stack of headings.
use ragger_cpp.Import.Chunks.{
  count_hashes, heading_level, Headings, pop_headings, enter_heading, Annotated, annotate,
  current_heading_block, current_section,
}
use ragger_cpp.Prelude.{
  All, Bool-cases, Bytes, List, [], arith, inl, inr, leb, ltb, ltb→lt, refl, suc, true, zero, ℕ,
  ◌<◌, ◌∷◌, ◌≡◌, ◌≤◌,
}

-- Every heading is of a lower level than those inside it, and none is deeper than 6.
abbrev pub IsNested : Headings → Type 0
IsNested [] = Unit {0}
IsNested (h ∷ stack) =
    (h.level ≤ 6) × (0 < h.level) × All (λ k. k.level < h.level) stack × IsNested stack

count_hashes-le : (n : ℕ) (s : Bytes) → count_hashes n s ≤ n
unfolding count_hashes
count_hashes-le zero s = omega arith
count_hashes-le (suc n) [] = omega arith
count_hashes-le (suc n) (c ∷ s) = ground (arith, count_hashes-le n s)

heading_level-le : (s : Bytes) → heading_level s ≤ 6
unfolding heading_level
heading_level-le s = ground (arith, count_hashes-le 6 s)

pop_headings-IsNested :
    (n : ℕ) (stack : Headings) → IsNested stack → IsNested (pop_headings n stack)
unfolding pop_headings
pop_headings-IsNested n [] h = tt
pop_headings-IsNested n (k ∷ stack) h = elim (Bool-cases (leb n k.level)) [
  | inl e ↦ rw e (pop_headings-IsNested n stack h.3)
  | inr e ↦ rw e h
]

All-lt_trans :
    (m n : ℕ) (stack : Headings)
    → m ≤ n
    → All (λ k. k.level < m) stack
    → All (λ k. k.level < n) stack
All-lt_trans m n [] le h = tt
All-lt_trans m n (k ∷ stack) le (h, hs) = (omega arith, All-lt_trans m n stack le hs)

pop_headings-lt :
    (n : ℕ) (stack : Headings) → IsNested stack → All (λ k. k.level < n) (pop_headings n stack)
unfolding pop_headings
pop_headings-lt n [] h = tt
pop_headings-lt n (k ∷ stack) h = elim (Bool-cases (leb n k.level)) [
  | inl e ↦ rw e (pop_headings-lt n stack h.3)
  | inr e ↦
      rw e (
        let lt : k.level < n = ground arith in (lt, All-lt_trans k.level n stack (omega arith) h.2))
]

enter_heading-IsNested :
    (para : Bytes) (stack : Headings)
    → ltb 0 (heading_level para) ≡ true
    → IsNested stack
    → IsNested (enter_heading (heading_level para) para stack)
unfolding enter_heading
enter_heading-IsNested para stack e h = (
  heading_level-le para,
  ltb→lt 0 (heading_level para) e,
  pop_headings-lt (heading_level para) stack h,
  pop_headings-IsNested (heading_level para) stack h,
)

-- The headings that a paragraph is annotated with.
pub record Under (a : Annotated) : Type 0 where
  pub headings : Headings
  pub nested : IsNested headings
  pub block : a.heading_block ≡ current_heading_block headings
  pub path : a.section ≡ current_section headings

-- Started under nested headings, each paragraph that is kept is filed under headings whose
-- levels strictly rise from the outermost to the innermost, between 1 and 6; its heading block
-- and its section are those of the same headings.
pub annotate-Under :
    (stack : Headings) (paras : List Bytes) → IsNested stack → All Under (annotate stack paras)
unfolding annotate
annotate-Under stack [] h = tt
annotate-Under stack (para ∷ rest) h = elim (Bool-cases (ltb 0 (heading_level para))) [
  | inl e ↦ rw e (
      annotate-Under (enter_heading (heading_level para) para stack) rest
        (enter_heading-IsNested para stack e h))
  | inr e ↦ rw e (
    record { headings = stack; nested = h; block = refl; path = refl },
    annotate-Under stack rest h,
  )
]
