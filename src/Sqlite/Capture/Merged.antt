-- ===== src/Sqlite/Capture/Merged.antt =====
-- The text of an exchange that is captured in several parts.
use ragger_cpp.Prelude.{
  Bool, Bool-cases, Bytes, Option-cases, [], ap, append_assoc, arith, codes, false, find,
  find-append, find_self, inl, inr, leb, length, length-append, none, null, refl, some, starts_with,
  starts_with-append, starts_with_self, subst, sym, true, ℕ, ◌&&◌, ◌++◌, ◌||◌, ◌∙◌, ◌∷◌, ◌≡◌, ◌≢◌,
  ◌⊎◌,
}
use ragger_cpp.Sqlite.Capture.{merge_text}

-- `prev.empty()`, or the new text starts with the one held.
abbrev grows : Bytes → Bytes → Bool
grows prev new = null prev || (leb (length prev) (length new) && starts_with prev new)

data Merging (prev new : Bytes) : Type 0 where
  filled :
      merge_text prev new ≡ new
      → starts_with prev new ≡ true
      → grows prev new ≡ true
      → Merging prev new
  held :
      (k : ℕ)
      → merge_text prev new ≡ prev
      → find new prev ≡ some k
      → grows prev new ≡ false
      → Merging prev new
  continued :
      merge_text prev new ≡ prev ++ (codes "\n\n" ++ new)
      → grows prev new ≡ false
      → find new prev ≡ none
      → Merging prev new

merging : (prev new : Bytes) → Merging prev new
unfolding merge_text
merging prev new = elim (Bool-cases (grows prev new)) [
  | inl e ↦ filled (rw e refl) (grown prev e) e
  | inr e ↦ elim (Option-cases (find new prev)) [
    | inl f ↦ continued (rw e (rw f refl)) e f
    | inr (k, f) ↦ held k (rw e (rw f refl)) f e
  ]
]
  where
    grown : (p : Bytes) → grows p new ≡ true → starts_with p new ≡ true
    grown [] e = starts_with-append [] new
    grown (c ∷ p) e = ground (arith, e)

abbrev pub Keeps : Bytes → Bytes → Bytes → Type 0
Keeps prev new text = (starts_with prev text ≡ true) × (find new text ≢ none)

pub merge_text-Keeps : (prev new : Bytes) → Keeps prev new (merge_text prev new)
merge_text-Keeps prev new = parts (merging prev new)
  where
    parts : Merging prev new → Keeps prev new (merge_text prev new)
    parts (filled e s g) = subst (Keeps prev new) (sym e) (s, find_self new)
    parts (held k e f g) =
        subst (Keeps prev new) (sym e) (starts_with_self prev, λ n. absurd (cc (f, n)))
    parts (continued e g f) = subst (Keeps prev new) (sym e) (
      starts_with-append prev (codes "\n\n" ++ new),
      λ n.
          find-append new (prev ++ codes "\n\n")
            (ap (find new) (append_assoc prev (codes "\n\n") new) ∙ n),
    )

too_long : (prev new : Bytes) → grows (prev ++ (codes "\n\n" ++ new)) new ≡ false
too_long [] new = ground arith
too_long (c ∷ prev) new = ground (arith, length-append prev (codes "\n\n" ++ new))

-- A text merged twice is as it was after the first time.
pub merge_text-merge_text :
    (prev new : Bytes) → merge_text (merge_text prev new) new ≡ merge_text prev new
merge_text-merge_text prev new = parts (merging prev new)
  where
    twice :
        (text : Bytes)
        → Merging text new
        → find new text ≢ none
        → (text ≡ new) ⊎ (grows text new ≡ false)
        → merge_text text new ≡ text
    twice text (filled e s g) f (inl same) = e ∙ sym same
    twice text (filled e s g) f (inr away) = absurd (cc)
    twice text (held k e h g) f o = e
    twice text (continued e g n) f o = absurd (f n)

    again :
        (merge_text prev new ≡ new) ⊎ (grows (merge_text prev new) new ≡ false)
        → merge_text (merge_text prev new) new ≡ merge_text prev new
    again o =
        twice (merge_text prev new) (merging (merge_text prev new) new)
          (merge_text-Keeps prev new).1 o

    parts : Merging prev new → merge_text (merge_text prev new) new ≡ merge_text prev new
    parts (filled e s g) = again (inl e)
    parts (held k e f g) = again (inr (ap (λ t. grows t new) e ∙ g))
    parts (continued e g f) = again (inr (ap (λ t. grows t new) e ∙ too_long prev new))
