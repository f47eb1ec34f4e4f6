-- ===== src/Memory/Context/Capped.antt =====
-- The cap on the tokens of a context.
use ragger_cpp.Memory.Context.{
  ContextChunk, Sources, run_layers, start, keep_capped, apply_cap, assemble,
}
use native.Mathlib.Nat.{add_assoc, zero-add}
use ragger_cpp.Memory.Recipe.{Recipe}
use ragger_cpp.Prelude.{
  Bool-cases, Bytes, List, [], ap, arith, inl, inr, ltb, pos, refl, reverse, subst, suc, sym, ℕ,
  ◌++◌, ◌+◌, ◌<◌, ◌∙◌, ◌∷◌, ◌≡◌, ◌≤◌,
}
use mathlib.Core.List.{reverse-append, reverse-reverse}

unfoldable pub cost_of : (Bytes → ℕ) → List ContextChunk → ℕ
cost_of cost [] = 0
cost_of cost (c ∷ cs) = cost c.text + cost_of cost cs

cost_of-append :
    (cost : Bytes → ℕ) (xs ys : List ContextChunk)
    → cost_of cost (xs ++ ys) ≡ cost_of cost xs + cost_of cost ys
unfolding cost_of
cost_of-append cost [] ys = omega arith
cost_of-append cost (x ∷ xs) ys = omega (arith, cost_of-append cost xs ys)

cost_of-reverse :
    (cost : Bytes → ℕ) (xs : List ContextChunk) → cost_of cost (reverse xs) ≡ cost_of cost xs
unfolding cost_of
cost_of-reverse cost [] = refl
cost_of-reverse cost (x ∷ xs) =
    ap (cost_of cost) (reverse-append (x ∷ []) xs)
    ∙ omega (arith, cost_of-append cost (reverse xs) (x ∷ []), cost_of-reverse cost xs)

-- The first of the chunks would take `used` tokens over the cap.
abbrev pub Exceeds : (Bytes → ℕ) → ℕ → ℕ → List ContextChunk → Type 0
Exceeds cost limit used [] = Unit {0}
Exceeds cost limit used (c ∷ cs) = limit < used + cost c.text

keep_capped_lem :
    (cost : Bytes → ℕ) (limit total : ℕ) (cs : List ContextChunk)
    → total ≤ limit
    → (dropped : List ContextChunk) × (total + cost_of cost (keep_capped cost limit total cs)
        ≤ limit)
      × (cs ≡ keep_capped cost limit total cs ++ dropped)
      × Exceeds cost limit (total + cost_of cost (keep_capped cost limit total cs)) dropped
unfolding keep_capped cost_of
keep_capped_lem cost limit total [] h = ([], omega arith, refl, tt)
keep_capped_lem cost limit total (c ∷ cs) h = elim (Bool-cases (ltb limit (total + cost c.text))) [
  | inl e ↦ (c ∷ cs, rw e (omega arith), rw e refl, rw e (ground (arith, e)))
  | inr e ↦
      let used = total + cost c.text in
      let (dropped, fits, parts, over) = keep_capped_lem cost limit used cs (ground (arith, e)) in
      (
        dropped,
        rw e (omega (arith, fits)),
        rw e (ap (◌∷◌ c) parts),
        rw e (
            subst (λ n. Exceeds cost limit n dropped)
              (add_assoc total (cost c.text) (cost_of cost (keep_capped cost limit used cs))) over),
      )
]

apply_cap-positive :
    (r : Recipe) (cs : List ContextChunk) (n : ℕ)
    → r.max_tokens ≡ pos (suc n)
    → apply_cap r cs ≡ keep_capped r.cost (suc n) 0 cs
unfolding apply_cap
apply_cap-positive r cs n m = ground (arith, m)

-- The context is what fits of `rev`, the newest first, and the next chunk would not fit.
abbrev pub IsLongestFitting : (Bytes → ℕ) → ℕ → List ContextChunk → List ContextChunk → Type 0
IsLongestFitting cost limit rev out =
    (dropped : List ContextChunk) × (cost_of cost out ≤ limit)
    × (rev ≡ reverse out ++ dropped)
    × Exceeds cost limit (cost_of cost out) dropped

-- With a positive `max_tokens`, the context costs no more tokens than that; it is the longest
-- part that does, in the order in which the layers emit chunks, and is given in the reverse
-- order.
pub assemble_capped :
    (r : Recipe) (src : Sources) (n : ℕ)
    → r.max_tokens ≡ pos (suc n)
    → IsLongestFitting r.cost (suc n) (run_layers src r.layers (start src)).rev (assemble r src)
unfolding assemble
assemble_capped r src n m =
    let rev = (run_layers src r.layers (start src)).rev in
    let kept = keep_capped r.cost (suc n) 0 rev in
    let (dropped, fits, parts, over) = keep_capped_lem r.cost (suc n) 0 rev (omega arith) in
    subst (IsLongestFitting r.cost (suc n) rev) (ap reverse (sym (apply_cap-positive r rev n m))) (
      dropped,
      omega (arith, cost_of-reverse r.cost kept, fits),
      parts ∙ ap (λ cs. cs ++ dropped) (sym (reverse-reverse kept)),
      subst (λ k. Exceeds r.cost (suc n) k dropped)
          (zero-add (cost_of r.cost kept) ∙ sym (cost_of-reverse r.cost kept)) over,
    )
