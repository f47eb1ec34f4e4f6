-- ===== src/Memory/Reembed/Rows.antt =====
-- What the passes over the rows leave.
use ragger_cpp.Memory.Reembed.{
  Identity, VectorRow, encode_row, is_stale, refresh_row, encode_first, refresh_first,
}
use ragger_cpp.Prelude.{
  All, Bool-cases, List, Option-cases, [], arith, false, if◌then◌else◌, inl, inr, length, none,
  null, refl, some, suc, sym, zero, ℕ, ◌∙◌, ◌∷◌, ◌≡◌, ◌≢◌,
}

-- A vector of the current version has the recorded identity; a row without text has no vector.
abbrev pub IsSound : ℕ → Identity → VectorRow → Type 0
IsSound version identity r =
    (v : ℕ) (i : Identity)
    → r.vector ≡ some (v, i)
    → (null r.text ≡ false) × (v ≡ version → i ≡ identity)

-- No vector of another version or another identity.
abbrev pub IsCurrent : ℕ → Identity → VectorRow → Type 0
IsCurrent version identity r =
    (v : ℕ) (i : Identity)
    → r.vector ≡ some (v, i)
    → (null r.text ≡ false) × (v ≡ version) × (i ≡ identity)

-- The vector that the row is to have.
abbrev pub IsEncoded : ℕ → Identity → VectorRow → Type 0
IsEncoded version identity r = r.vector ≡ (if null r.text then none else some (version, identity))

pub IsEncoded-IsCurrent :
    (version : ℕ) (identity : Identity) (r : VectorRow)
    → IsEncoded version identity r
    → IsCurrent version identity r
IsEncoded-IsCurrent version identity r e v i h = ground (arith, e, h)

pub IsCurrent-IsSound :
    (version : ℕ) (identity : Identity) (r : VectorRow)
    → IsCurrent version identity r
    → IsSound version identity r
IsCurrent-IsSound version identity r c v i h = ((c v i h).0, λ e. (c v i h).2)

-- After a new version, no vector is of the current one.
pub IsCurrent-bumped :
    (version new : ℕ) (identity other : Identity) (r : VectorRow)
    → version ≢ new
    → IsCurrent version identity r
    → IsSound new other r
IsCurrent-bumped version new identity other r d c v i h =
    ((c v i h).0, λ e. absurd (d (sym (c v i h).1 ∙ e)))

encode_row-IsEncoded :
    (version new : ℕ) (identity other : Identity) (r : VectorRow)
    → IsSound version other r
    → IsEncoded new identity (encode_row new identity r)
unfolding encode_row
encode_row-IsEncoded version new identity other r s = elim (Bool-cases (null r.text)) [
  | inr e ↦ rw e (ground (arith, e))
  | inl e ↦ rw e (elim (Option-cases r.vector) [
    | inl n ↦ ground (arith, n, e)
    | inr ((v, i), n) ↦ absurd (ground (arith, e, (s v i n).0))
  ])
]

pub encode_first-All :
    (k new : ℕ) (identity : Identity) (rows : List VectorRow)
    → All (IsSound new identity) rows
    → All (IsSound new identity) (encode_first k new identity rows)
unfolding encode_first
encode_first-All zero new identity rows a = a
encode_first-All (suc k) new identity [] a = tt
encode_first-All (suc k) new identity (r ∷ rows) a = (
  IsCurrent-IsSound new identity (encode_row new identity r) (
      IsEncoded-IsCurrent new identity (encode_row new identity r)
        (encode_row-IsEncoded new new identity identity r a.0)),
  encode_first-All k new identity rows a.1,
)

pub encode_first-length :
    (new : ℕ) (identity : Identity) (rows : List VectorRow)
    → All (IsSound new identity) rows
    → All (IsEncoded new identity) (encode_first (length rows) new identity rows)
unfolding encode_first
encode_first-length new identity [] a = tt
encode_first-length new identity (r ∷ rows) a = (
  encode_row-IsEncoded new new identity identity r a.0,
  encode_first-length new identity rows a.1,
)

refresh_row-IsEncoded :
    (version : ℕ) (identity : Identity) (r : VectorRow)
    → IsSound version identity r
    → IsEncoded version identity (refresh_row version identity r).1
unfolding refresh_row is_stale
refresh_row-IsEncoded version identity r s = elim (Option-cases r.vector) [
  | inl n ↦ ground (arith, n)
  | inr ((v, i), n) ↦ ground (arith, n, s v i n)
]

refresh_row_encoded :
    (version : ℕ) (identity : Identity) (r : VectorRow)
    → IsEncoded version identity r
    → refresh_row version identity r ≡ (0, r)
unfolding refresh_row is_stale
refresh_row_encoded version identity r e = ground (arith, e)

pub refresh_first-length :
    (version : ℕ) (identity : Identity) (rows : List VectorRow)
    → All (IsSound version identity) rows
    → All (IsEncoded version identity) (refresh_first (length rows) version identity rows).1
unfolding refresh_first
refresh_first-length version identity [] a = tt
refresh_first-length version identity (r ∷ rows) a =
    (refresh_row-IsEncoded version identity r a.0, refresh_first-length version identity rows a.1)

-- A pass over rows that are as they are to be counts none, and leaves them.
pub refresh_first_encoded :
    (k version : ℕ) (identity : Identity) (rows : List VectorRow)
    → All (IsEncoded version identity) rows
    → refresh_first k version identity rows ≡ (0, rows)
unfolding refresh_first
refresh_first_encoded zero version identity rows a = refl
refresh_first_encoded (suc k) version identity [] a = refl
refresh_first_encoded (suc k) version identity (r ∷ rows) a =
    rw (refresh_row_encoded version identity r a.0)
      (rw (refresh_first_encoded k version identity rows a.1) refl)
