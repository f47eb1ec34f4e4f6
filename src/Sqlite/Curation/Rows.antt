-- ===== src/Sqlite/Curation/Rows.antt =====
-- How the writes to `knowledge` change what is found in it.
use ragger_cpp.Agent.Knowledge.{KnowledgeRow, UpdateRequest, find_row, update_rows}
use ragger_cpp.Prelude.{
  ==_iff, All, Bool, Bool-cases, Bytes, List, Option, [], ap, arith, false, if◌then◌else◌, inl, inr,
  none, refl, some, subst, true, ℕ, ◌&&◌, ◌++◌, ◌+◌, ◌<◌, ◌==◌, ◌∙◌, ◌∷◌, ◌≡◌, ◌≢◌, ◌≤◌,
}
use ragger_cpp.Sqlite.Curation.{is_parent, has_child, is_deletable, is_listed, delete_rows}
use ragger_cpp.Sqlite.Knowledge.{set_status}

-- How many rows supersede the row `n`.
unfoldable pub children : ℕ → List KnowledgeRow → ℕ
children n [] = 0
children n (r ∷ rows) = (if is_parent n r then 1 else 0) + children n rows

-- An id is at most `last`, and above the id of the row that it supersedes.
abbrev pub IsOrdered : ℕ → KnowledgeRow → Type 0
IsOrdered last r =
    (r.knowledge_id ≤ last) × (elim r.supersedes [ none ↦ Unit {0} | some n ↦ n < r.knowledge_id ])

pub has_child-children :
    (n : ℕ) (rows : List KnowledgeRow) → children n rows ≢ 0 → has_child n rows ≡ true
unfolding children has_child
has_child-children n [] h = absurd (h refl)
has_child-children n (r ∷ rows) h = elim (Bool-cases (is_parent n r)) [
  | inl e ↦ rw e refl
  | inr e ↦ rw e (has_child-children n rows (λ z. h (rw e (omega (arith, z)))))
]

pub children-append :
    (n : ℕ) (rows : List KnowledgeRow) (r : KnowledgeRow)
    → children n (rows ++ r ∷ []) ≡ children n rows + (if is_parent n r then 1 else 0)
unfolding children
children-append n [] r = omega arith
children-append n (q ∷ rows) r = omega (arith, children-append n rows r)

pub find_row-append :
    (n : ℕ) (rows : List KnowledgeRow) (r q : KnowledgeRow)
    → find_row n rows ≡ some q
    → find_row n (rows ++ r ∷ []) ≡ some q
unfolding find_row
find_row-append n [] r q h = cc
find_row-append n (p ∷ rows) r q h = elim (Bool-cases (p.knowledge_id == n)) [
  | inl e ↦ ground (arith, e, h)
  | inr e ↦ rw e (find_row-append n rows r q (ground (arith, e, h)))
]

pub find_row-id :
    (n : ℕ) (rows : List KnowledgeRow) (r : KnowledgeRow)
    → find_row n rows ≡ some r
    → r.knowledge_id ≡ n
unfolding find_row
find_row-id n [] r h = cc
find_row-id n (p ∷ rows) r h = ground (arith, find_row-id n rows r)

pub find_row-All {κ} :
    (P : KnowledgeRow → Type κ) (n : ℕ) (rows : List KnowledgeRow) (r : KnowledgeRow)
    → All P rows
    → find_row n rows ≡ some r
    → P r
unfolding find_row
find_row-All P n [] r a h = absurd (cc)
find_row-All P n (p ∷ rows) r a h = elim (Bool-cases (p.knowledge_id == n)) [
  | inl e ↦ subst P (ground (arith, e, h)) a.0
  | inr e ↦ find_row-All P n rows r a.1 (ground (arith, e, h))
]

abbrev pub with_status : Bytes → Option KnowledgeRow → Option KnowledgeRow
with_status s none = none
with_status s (some r) = some (record r { status = s })

pub find_row-set_status :
    (n m : ℕ) (s : Bytes) (rows : List KnowledgeRow)
    → find_row n (set_status m s rows)
      ≡ (if n == m then with_status s (find_row n rows) else find_row n rows)
unfolding find_row set_status
find_row-set_status n m s [] = ground arith
find_row-set_status n m s (r ∷ rows) = ground (arith, find_row-set_status n m s rows)

pub children-set_status :
    (n m : ℕ) (s : Bytes) (rows : List KnowledgeRow)
    → children n (set_status m s rows) ≡ children n rows
unfolding children set_status
children-set_status n m s [] = refl
children-set_status n m s (r ∷ rows) = elim (Bool-cases (r.knowledge_id == m)) [
  | inl e ↦ rw e (omega (arith, children-set_status n m s rows))
  | inr e ↦ rw e (omega (arith, children-set_status n m s rows))
]

pub set_status-All :
    (last m : ℕ) (s : Bytes) (rows : List KnowledgeRow)
    → All (IsOrdered last) rows
    → All (IsOrdered last) (set_status m s rows)
unfolding set_status
set_status-All last m s [] a = tt
set_status-All last m s (r ∷ rows) a = elim (Bool-cases (r.knowledge_id == m)) [
  | inl e ↦ rw e (a.0, set_status-All last m s rows a.1)
  | inr e ↦ rw e (a.0, set_status-All last m s rows a.1)
]

pub children-update_rows :
    (n m : ℕ) (req : UpdateRequest) (rows : List KnowledgeRow)
    → children n (update_rows m req rows) ≡ children n rows
unfolding children update_rows
children-update_rows n m req [] = refl
children-update_rows n m req (r ∷ rows) = elim (Bool-cases (r.knowledge_id == m)) [
  | inl e ↦ rw e (omega (arith, children-update_rows n m req rows))
  | inr e ↦ rw e (omega (arith, children-update_rows n m req rows))
]

pub update_rows-All :
    (last m : ℕ) (req : UpdateRequest) (rows : List KnowledgeRow)
    → All (IsOrdered last) rows
    → All (IsOrdered last) (update_rows m req rows)
unfolding update_rows
update_rows-All last m req [] a = tt
update_rows-All last m req (r ∷ rows) a = elim (Bool-cases (r.knowledge_id == m)) [
  | inl e ↦ rw e (a.0, update_rows-All last m req rows a.1)
  | inr e ↦ rw e (a.0, update_rows-All last m req rows a.1)
]

-- A DELETE removes a row or leaves it.
is_deleted : List ℕ → List KnowledgeRow → KnowledgeRow → Bool
is_deleted ids table r = is_deletable table r && is_listed r.knowledge_id ids

pub children-delete_rows :
    (n : ℕ) (ids : List ℕ) (table rows : List KnowledgeRow)
    → children n (delete_rows ids table rows).1 ≤ children n rows
unfolding children delete_rows is_deleted
children-delete_rows n ids table [] = omega arith
children-delete_rows n ids table (r ∷ rows) = elim (Bool-cases (is_deleted ids table r)) [
  | inl e ↦ rw e (omega (arith, children-delete_rows n ids table rows))
  | inr e ↦ rw e (omega (arith, children-delete_rows n ids table rows))
]

pub delete_rows-All {κ} :
    (P : KnowledgeRow → Type κ) (ids : List ℕ) (table rows : List KnowledgeRow)
    → All P rows
    → All P (delete_rows ids table rows).1
unfolding delete_rows is_deleted
delete_rows-All P ids table [] a = tt
delete_rows-All P ids table (r ∷ rows) a = elim (Bool-cases (is_deleted ids table r)) [
  | inl e ↦ rw e (delete_rows-All P ids table rows a.1)
  | inr e ↦ rw e (a.0, delete_rows-All P ids table rows a.1)
]

parent_stays :
    (ids : List ℕ) (table : List KnowledgeRow) (r : KnowledgeRow)
    → has_child r.knowledge_id table ≡ true
    → is_deleted ids table r ≡ false
unfolding is_deleted is_deletable
parent_stays ids table r h = ground arith

-- A row that another one supersedes is not deleted.
pub find_row-delete_rows :
    (n : ℕ) (ids : List ℕ) (table rows : List KnowledgeRow)
    → has_child n table ≡ true
    → find_row n (delete_rows ids table rows).1 ≡ find_row n rows
unfolding find_row delete_rows is_deleted
find_row-delete_rows n ids table [] h = refl
find_row-delete_rows n ids table (r ∷ rows) h = elim (Bool-cases (r.knowledge_id == n)) [
  | inl e ↦
      let stays =
        parent_stays ids table r
          (ap (λ m. has_child m table) ((==_iff r.knowledge_id n).0 e) ∙ h) in
      rw stays (rw e refl)
  | inr e ↦ elim (Bool-cases (is_deleted ids table r)) [
    | inl d ↦ rw d (rw e (find_row-delete_rows n ids table rows h))
    | inr k ↦ rw k (rw e (find_row-delete_rows n ids table rows h))
  ]
]
