-- ===== src/Agent/Review/Decisions.antt =====
-- Approving and rejecting.
use mathlib.Core.List.Perm
use mathlib.Core.List.{Perm}
use ragger_cpp.Agent.Handle.RoundTrip.{parse_agent_handle-decimal}
use ragger_cpp.Agent.Handle.{int_max, is_known_agent_layer, is_one_of}
use ragger_cpp.Agent.Knowledge.Terminal.{updates, after}
use ragger_cpp.Agent.Knowledge.{
  KnowledgeRow, Knowledge, UpdateRequest, UpdateError, agent_update, find_row, update_knowledge,
  is_given, given, check_status,
}
use ragger_cpp.Agent.Review.{handle_of, request_for, decide, full_handle}
use ragger_cpp.Agent.Knowledge.Changes.{set_row, update_knowledge-set_row, pending-current}
use ragger_cpp.Agent.Knowledge.Update.{agent_update-accepts}
use ragger_cpp.Prelude.{
  Bytes, List, Option, [], ap, codes, equal, find, inl, inr, map, none, refl, some, starts_with,
  sym, ℕ, ◌++◌, ◌<◌, ◌∙◌, ◌∷◌, ◌≡◌, ◌≤◌, ◌⊎◌,
}

Out-cases :
    (o : UpdateError ⊎ (Knowledge × Option KnowledgeRow))
    → ((e : UpdateError) × (o ≡ inl e)) ⊎ ((out : Knowledge × Option KnowledgeRow) × (o ≡ inr out))
Out-cases (inl e) = inl (e, refl)
Out-cases (inr out) = inr (out, refl)

perm_middle {ℓ} : {A : Type ℓ} (x : A) (xs ys : List A) → Perm (xs ++ x ∷ ys) (x ∷ (xs ++ ys))
perm_middle x [] ys = Perm.refl (x ∷ ys)
perm_middle x (z ∷ xs) ys =
    Perm.trans (Perm.cons z (perm_middle x xs ys)) (Perm.swap x z (xs ++ ys))

abbrev pub fst_of : Bytes × UpdateError → Bytes
fst_of p = p.0

decide-refused :
    (to : Bytes) (st : Knowledge) (raw : Bytes) (ids : List Bytes) (e : UpdateError)
    → agent_update st (request_for to raw) ≡ inl e
    → decide to st (raw ∷ ids)
      ≡ record (decide to st ids) { failed = (raw, e) ∷ (decide to st ids).failed }
unfolding decide
decide-refused to st raw ids e h = rw (h, decide) refl

decide-accepted :
    (to : Bytes) (st : Knowledge) (raw : Bytes) (ids : List Bytes)
    (out : Knowledge × Option KnowledgeRow)
    → agent_update st (request_for to raw) ≡ inr out
    → decide to st (raw ∷ ids)
      ≡ record (decide to out.0 ids) { done = raw ∷ (decide to out.0 ids).done }
unfolding decide
decide-accepted to st raw ids out h = rw (h, decide) refl

-- An approval or rejection of a list of ids reports each id once, as done or as failed, and
-- leaves the table that the single updates leave, made one after the other.
pub decide_lem :
    (to : Bytes) (st : Knowledge) (ids : List Bytes)
    → Perm ((decide to st ids).done ++ map fst_of (decide to st ids).failed) ids
      × ((decide to st ids).knowledge ≡ updates st (map (request_for to) ids))
unfolding decide
decide_lem to st [] = (Perm.refl [], refl)
decide_lem to st (raw ∷ ids) = elim (Out-cases (agent_update st (request_for to raw))) [
  | inl (e, h) ↦
      let ih = decide_lem to st ids in
      rw (decide-refused to st raw ids e h) (
        Perm.trans (perm_middle raw _ _) (Perm.cons raw ih.0),
        ih.1 ∙ ap (λ o. updates (after st o) (map (request_for to) ids)) (sym h),
      )
  | inr (out, h) ↦
      let ih = decide_lem to out.0 ids in
      rw (decide-accepted to st raw ids out h) (
        Perm.cons raw ih.0,
        ih.1 ∙ ap (λ o. updates (after st o) (map (request_for to) ids)) (sym h),
      )
]

full_handle-handle_of : (n : ℕ) → full_handle (handle_of n) ≡ handle_of n
unfolding full_handle find starts_with
full_handle-handle_of n = refl

approved :
    (st : Knowledge) (n : ℕ) (req : UpdateRequest) (r : KnowledgeRow)
    → find_row n st.rows ≡ some r
    → r.status ≡ codes "pending"
    → req.status ≡ some (codes "current")
    → req.tags ≡ none
    → (st' : Knowledge) × (update_knowledge st n req
        ≡ inr (st', some (record r { status = codes "current" })))
approved st n req r f s q t =
    let fine : check_status r.status req.status ≡ none = rw (s, q) pending-current in
    let a = update_knowledge-set_row st n req r f fine (ap is_given q) in
    let same : set_row req r ≡ record r { status = codes "current" } =
      ap (λ o. record r { status = given o r.status; tags = given req.tags r.tags }) q
      ∙ ap (λ u. record r { status = codes "current"; tags = given u r.tags }) t in
    (a.0, a.1 ∙ ap (λ x. inr (a.0, some x)) same)

-- For a row of `knowledge` that is pending and whose id is positive and fits an `int`, the
-- approval under the handle that the review list shows is accepted and returns the row with
-- the status 'current'.
agent_update-handle_of :
    (st : Knowledge) (n : ℕ) (r : KnowledgeRow)
    → find_row n st.rows ≡ some r
    → r.status ≡ codes "pending"
    → 0 < n
    → n ≤ int_max
    → (st' : Knowledge) × (agent_update st (request_for (codes "current") (handle_of n))
        ≡ inr (st', some (record r { status = codes "current" })))
unfolding is_known_agent_layer is_one_of equal
agent_update-handle_of st n r f s p h =
    let parsed = parse_agent_handle-decimal (codes "knowledge") n refl p h in
    let req = record (request_for (codes "current") (handle_of n)) { id = handle_of n } in
    let a = approved st n req r f s refl refl in
    (a.0, rw (full_handle-handle_of n) (agent_update-accepts st req n refl parsed ∙ a.1))
