-- ===== src/Agent/Review/Queue.antt =====
-- The list of pending rows.
use mathlib.Core.List.Perm
use mathlib.Core.List.{Perm}
use ragger_cpp.Agent.Review.{ReviewItem, item_of, insert_item, is_pending_row, pending_items}
use ragger_cpp.Agent.Knowledge.{KnowledgeRow}
use ragger_cpp.Prelude.{All, Bool-cases, List, [], arith, if◌then◌else◌, inl, inr, ltb, ℕ, ◌∷◌, ◌≤◌}

-- No entry stands behind a later one.
abbrev pub IsOldestFirst : List ReviewItem → Type 0
IsOldestFirst [] = Unit {0}
IsOldestFirst (x ∷ xs) = All (λ y. x.created ≤ y.created) xs × IsOldestFirst xs

-- The entries of the pending rows, in the table's order.
abbrev pub select_items : List KnowledgeRow → List ReviewItem
select_items [] = []
select_items (r ∷ rows) =
    let rest = select_items rows in if is_pending_row r then item_of r ∷ rest else rest

All-le_trans :
    (a b : ℕ) (xs : List ReviewItem)
    → a ≤ b
    → All (λ y. b ≤ y.created) xs
    → All (λ y. a ≤ y.created) xs
All-le_trans a b [] h k = tt
All-le_trans a b (x ∷ xs) h (k, ks) = (omega arith, All-le_trans a b xs h ks)

insert_item-All :
    (a : ℕ) (x : ReviewItem) (xs : List ReviewItem)
    → a ≤ x.created
    → All (λ y. a ≤ y.created) xs
    → All (λ y. a ≤ y.created) (insert_item x xs)
unfolding insert_item
insert_item-All a x [] h k = (h, tt)
insert_item-All a x (y ∷ ys) h (k, ks) = elim (Bool-cases (ltb y.created x.created)) [
  | inl e ↦ rw e (k, insert_item-All a x ys h ks)
  | inr e ↦ rw e (h, (k, ks))
]

insert_item-IsOldestFirst :
    (x : ReviewItem) (xs : List ReviewItem) → IsOldestFirst xs → IsOldestFirst (insert_item x xs)
unfolding insert_item
insert_item-IsOldestFirst x [] h = (tt, tt)
insert_item-IsOldestFirst x (y ∷ ys) (k, ks) = elim (Bool-cases (ltb y.created x.created)) [
  | inl e ↦
      rw e (insert_item-All y.created x ys (ground arith) k, insert_item-IsOldestFirst x ys ks)
  | inr e ↦ rw e (
      let le : x.created ≤ y.created = ground arith in
      ((le, All-le_trans x.created y.created ys le k), (k, ks)))
]

insert_item-perm : (x : ReviewItem) (xs : List ReviewItem) → Perm (insert_item x xs) (x ∷ xs)
unfolding insert_item
insert_item-perm x [] = Perm.refl (x ∷ [])
insert_item-perm x (y ∷ ys) = elim (Bool-cases (ltb y.created x.created)) [
  | inl e ↦ rw e (Perm.trans (Perm.cons y (insert_item-perm x ys)) (Perm.swap x y ys))
  | inr e ↦ rw e (Perm.refl (x ∷ y ∷ ys))
]

-- The review list has the pending rows and no others, each once, and none stands behind a
-- later one.
pending_items_lem :
    (rows : List KnowledgeRow)
    → IsOldestFirst (pending_items rows) × Perm (pending_items rows) (select_items rows)
unfolding pending_items
pending_items_lem [] = (tt, Perm.refl [])
pending_items_lem (r ∷ rows) =
    let ih = pending_items_lem rows in
    elim (Bool-cases (is_pending_row r)) [
      | inl e ↦ rw e (
        insert_item-IsOldestFirst (item_of r) (pending_items rows) ih.0,
        Perm.trans (insert_item-perm (item_of r) (pending_items rows)) (Perm.cons (item_of r) ih.1),
      )
      | inr e ↦ rw e ih
    ]
