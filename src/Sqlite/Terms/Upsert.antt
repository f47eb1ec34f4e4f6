-- ===== src/Sqlite/Terms/Upsert.antt =====
-- The ids of terms.
use ragger_cpp.Prelude.{
  Bool-cases, Bytes, List, [], arith, equal, equal_iff, equal_self, false, if◌then◌else◌, inl, inr,
  refl, sym, ℕ, ◌++◌, ◌+◌, ◌<◌, ◌==◌, ◌∙◌, ◌∷◌, ◌≡◌, ◌≢◌, ◌≤◌,
}
use ragger_cpp.Sqlite.Terms.{Terms, lookup_term, upsert_term}

-- The ids rise from above `b`, and the counter is at or above the last.
abbrev pub Rising : ℕ → List (ℕ × Bytes) → ℕ → Type 0
Rising b [] last = b ≤ last
Rising b ((id, t) ∷ rows) last = (b < id) × Rising id rows last

abbrev pub IsValid : Terms → Type 0
IsValid st = Rising 0 st.terms st.last_term

Rising-append :
    (b last : ℕ) (rows : List (ℕ × Bytes)) (t : Bytes)
    → Rising b rows last
    → Rising b (rows ++ (last + 1, t) ∷ []) (last + 1)
Rising-append b last [] t h = (omega arith, omega arith)
Rising-append b last ((id, u) ∷ rows) t h = (h.0, Rising-append id last rows t h.1)

lookup_term-range :
    (b last : ℕ) (rows : List (ℕ × Bytes)) (w : Bytes)
    → Rising b rows last
    → lookup_term rows w ≢ 0
    → (b < lookup_term rows w) × (lookup_term rows w ≤ last)
unfolding lookup_term
lookup_term-range b last [] w h n = absurd (n refl)
lookup_term-range b last ((id, t) ∷ rows) w h n =
    ground (arith, h, Rising-le id last rows h.1, lookup_term-range id last rows w h.1)
  where
    Rising-le : (c d : ℕ) (rs : List (ℕ × Bytes)) → Rising c rs d → c ≤ d
    Rising-le c d [] k = k
    Rising-le c d ((i, u) ∷ rs) (k, ks) = omega (arith, k, Rising-le i d rs ks)

lookup_term-append :
    (b last id : ℕ) (rows : List (ℕ × Bytes)) (t w : Bytes)
    → Rising b rows last
    → lookup_term (rows ++ (id, t) ∷ []) w
      ≡ (if lookup_term rows w == 0 then (if equal t w then id else 0) else lookup_term rows w)
unfolding lookup_term
lookup_term-append b last id [] t w h = ground arith
lookup_term-append b last id ((i, v) ∷ rows) t w h = elim (Bool-cases (equal v w)) [
  | inl this ↦ rw this (ground (arith, h))
  | inr other ↦ rw other (lookup_term-append i last id rows t w h.1)
]

lookup_term-injective :
    (b last : ℕ) (rows : List (ℕ × Bytes)) (w u : Bytes)
    → Rising b rows last
    → lookup_term rows w ≢ 0
    → lookup_term rows w ≡ lookup_term rows u
    → w ≡ u
unfolding lookup_term
lookup_term-injective b last [] w u h n e = absurd (n refl)
lookup_term-injective b last ((i, v) ∷ rows) w u h n e = elim (Bool-cases (equal v w)) [
  | inl one ↦ elim (Bool-cases (equal v u)) [
    | inl two ↦ sym ((equal_iff v w).0 one) ∙ (equal_iff v u).0 two
    | inr away ↦ absurd (ground (arith, one, away, h.0, lookup_term-range i last rows u h.1))
  ]
  | inr away ↦ elim (Bool-cases (equal v u)) [
    | inl two ↦ absurd (ground (arith, two, away, h.0, lookup_term-range i last rows w h.1))
    | inr off ↦
        lookup_term-injective i last rows w u h.1 (ground (arith, away)) (ground (arith, away, off))
  ]
]

not_equal : (t w : Bytes) → t ≢ w → equal t w ≡ false
not_equal t w d = ground (arith, equal_iff t w)

-- If ids of terms rise in their table from 1 to the counter at most, they do after a term is
-- added or found; its id is positive and is the one found for it; and any other term has the
-- id that it had, and not that one.
pub upsert_term-IsValid :
    (st : Terms) (term other : Bytes)
    → IsValid st
    → term ≢ other
    → IsValid (upsert_term st term).1
      × (0 < (upsert_term st term).0)
      × (lookup_term (upsert_term st term).1.terms term ≡ (upsert_term st term).0)
      × (lookup_term (upsert_term st term).1.terms other ≡ lookup_term st.terms other)
      × ((upsert_term st term).0 ≢ lookup_term (upsert_term st term).1.terms other)
unfolding upsert_term
upsert_term-IsValid st term other v d = elim (Bool-cases (lookup_term st.terms term == 0)) [
  | inl fresh ↦
      let id = st.last_term + 1 in
      let same : lookup_term (st.terms ++ (id, term) ∷ []) other ≡ lookup_term st.terms other =
        lookup_term-append 0 st.last_term id st.terms term other v
        ∙ rw (not_equal term other d) (ground arith) in
      rw fresh (
        Rising-append 0 st.last_term st.terms term v,
        omega arith,
        lookup_term-append 0 st.last_term id st.terms term term v
            ∙ rw (fresh, equal_self term) refl,
        same,
        λ e. ground (arith, same, e, lookup_term-range 0 st.last_term st.terms other v),
      )
  | inr known ↦ rw known (
    v,
    ground (arith, known),
    refl,
    refl,
    λ e. d (lookup_term-injective 0 st.last_term st.terms term other v (ground (arith, known)) e),
  )
]
