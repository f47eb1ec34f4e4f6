-- ===== src/Sqlite/Turns/Sorting.antt =====
-- The order of `unsummarized_turns`.
use mathlib.Core.List.Perm
use mathlib.Core.List.{Perm}
use ragger_cpp.Prelude.{
  All, All-take, Bool-cases, Bytes, List, [], arith, false, if◌then◌else◌, inl, inr, length,
  length-take, some, suc, take, true, zero, ℕ, ◌<◌, ◌∷◌, ◌≡◌, ◌≢◌, ◌≤◌, ◌⊎◌,
}
use ragger_cpp.Sqlite.Turns.{
  TurnRow, SummaryRow, Store, is_pending, is_newer, insert_sorted, pending_turns,
  unsummarized_turns,
}

-- No turn stands behind an older one.
abbrev pub IsNewestFirst : List TurnRow → Type 0
IsNewestFirst [] = Unit {0}
IsNewestFirst (t ∷ ts) = All (λ u. is_newer u t ≡ false) ts × IsNewestFirst ts

-- The turns that have no row, in the table's order.
abbrev pub select_pending : List SummaryRow → List TurnRow → List TurnRow
select_pending rows [] = []
select_pending rows (t ∷ ts) =
    let rest = select_pending rows ts in if is_pending rows t then t ∷ rest else rest

newer_trans : (a b c : TurnRow) → is_newer b a ≡ false → is_newer c b ≡ false → is_newer c a ≡ false
unfolding is_newer
newer_trans a b c h k = ground arith

newer_flip : (a b : TurnRow) → is_newer a b ≡ true → is_newer b a ≡ false
unfolding is_newer
newer_flip a b h = ground arith

All-newer_trans :
    (a b : TurnRow) (ts : List TurnRow)
    → is_newer b a ≡ false
    → All (λ u. is_newer u b ≡ false) ts
    → All (λ u. is_newer u a ≡ false) ts
All-newer_trans a b [] h k = tt
All-newer_trans a b (u ∷ ts) h (k, ks) = (newer_trans a b u h k, All-newer_trans a b ts h ks)

insert_sorted-All :
    (P : TurnRow → Type 0) (t : TurnRow) (ts : List TurnRow)
    → P t
    → All P ts
    → All P (insert_sorted t ts)
unfolding insert_sorted
insert_sorted-All P t [] h k = (h, tt)
insert_sorted-All P t (u ∷ us) h (k, ks) = elim (Bool-cases (is_newer u t)) [
  | inl e ↦ rw e (k, insert_sorted-All P t us h ks)
  | inr e ↦ rw e (h, (k, ks))
]

insert_sorted-IsNewestFirst :
    (t : TurnRow) (ts : List TurnRow) → IsNewestFirst ts → IsNewestFirst (insert_sorted t ts)
unfolding insert_sorted
insert_sorted-IsNewestFirst t [] h = (tt, tt)
insert_sorted-IsNewestFirst t (u ∷ us) (k, ks) = elim (Bool-cases (is_newer u t)) [
  | inl e ↦ rw e (
    insert_sorted-All (λ v. is_newer v u ≡ false) t us (newer_flip u t e) k,
    insert_sorted-IsNewestFirst t us ks,
  )
  | inr e ↦ rw e ((e, All-newer_trans t u us e k), (k, ks))
]

pending_turns-IsNewestFirst :
    (rows : List SummaryRow) (ts : List TurnRow) → IsNewestFirst (pending_turns rows ts)
unfolding pending_turns
pending_turns-IsNewestFirst rows [] = tt
pending_turns-IsNewestFirst rows (t ∷ ts) = elim (Bool-cases (is_pending rows t)) [
  | inl e ↦
      rw e (
        insert_sorted-IsNewestFirst t (pending_turns rows ts) (pending_turns-IsNewestFirst rows ts))
  | inr e ↦ rw e (pending_turns-IsNewestFirst rows ts)
]

pending_turns-All :
    (rows : List SummaryRow) (ts : List TurnRow)
    → All (λ t. is_pending rows t ≡ true) (pending_turns rows ts)
unfolding pending_turns
pending_turns-All rows [] = tt
pending_turns-All rows (t ∷ ts) = elim (Bool-cases (is_pending rows t)) [
  | inl e ↦ rw e (
      insert_sorted-All (λ u. is_pending rows u ≡ true) t (pending_turns rows ts) e
        (pending_turns-All rows ts))
  | inr e ↦ rw e (pending_turns-All rows ts)
]

take-IsNewestFirst : (n : ℕ) (ts : List TurnRow) → IsNewestFirst ts → IsNewestFirst (take n ts)
take-IsNewestFirst zero ts h = tt
take-IsNewestFirst (suc n) [] h = tt
take-IsNewestFirst (suc n) (t ∷ ts) (h, hs) =
    (All-take (λ u. is_newer u t ≡ false) n ts h, take-IsNewestFirst n ts hs)

-- The scan returns pending turns only, newest first, at most `limit` of them.
pub unsummarized_turns_lem :
    (st : Store) (limit : ℕ)
    → All (λ t. is_pending st.summaries t ≡ true) (unsummarized_turns st limit)
      × IsNewestFirst (unsummarized_turns st limit)
      × (length (unsummarized_turns st limit) ≤ limit)
unfolding unsummarized_turns
unsummarized_turns_lem st limit = (
  All-take _ limit _ (pending_turns-All st.summaries st.turns),
  take-IsNewestFirst limit _ (pending_turns-IsNewestFirst st.summaries st.turns),
  omega (arith, length-take limit (pending_turns st.summaries st.turns)),
)

-- An answered turn that no summary row names.
abbrev pub IsWaiting : List SummaryRow → TurnRow → Type 0
IsWaiting rows t =
    ((answer : Bytes) × (t.assistant_text ≡ some answer))
    × All (λ (r : SummaryRow). r.source_turn ≢ some t.turn_id) rows

-- The turns that wait, as they stand in the table.
pub data Waiting (rows : List SummaryRow) : List TurnRow → List TurnRow → Type 0 where
  end : Waiting rows [] []
  waits :
      {t : TurnRow} {ts us : List TurnRow}
      → IsWaiting rows t
      → Waiting rows ts us
      → Waiting rows (t ∷ ts) (t ∷ us)
  passes :
      {t : TurnRow} {ts us : List TurnRow}
      → ¬ IsWaiting rows t
      → Waiting rows ts us
      → Waiting rows (t ∷ ts) us

-- The one is from a later second, or from the same and of an id that is not smaller.
abbrev pub IsLater : TurnRow → TurnRow → Type 0
IsLater t u =
    (u.created_at < t.created_at) ⊎ ((t.created_at ≡ u.created_at) × (u.turn_id ≤ t.turn_id))

abbrev pub IsLatestFirst : List TurnRow → Type 0
IsLatestFirst [] = Unit {0}
IsLatestFirst (t ∷ ts) = All (λ u. IsLater t u) ts × IsLatestFirst ts
