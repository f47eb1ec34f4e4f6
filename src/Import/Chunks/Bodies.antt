-- ===== src/Import/Chunks/Bodies.antt =====
-- Where the paragraphs of a document end up.
use ragger_cpp.Import.Chunks.{Annotated, ImportChunk, opening, extended, merge_from, blank_line}
use ragger_cpp.Prelude.{
  All, Bool-cases, Bytes, List, [], ap, append-nil, append_assoc, equal, false, inl, inr, leb,
  length, not, null, refl, subst, sym, true, ℕ, ◌&&◌, ◌++◌, ◌∙◌, ◌∷◌, ◌≡◌, ◌⊎◌,
}

-- The text stands somewhere inside the other.
abbrev pub Inside : Bytes → Bytes → Type 0
Inside t s = (before : Bytes) × (after : Bytes) × (s ≡ before ++ t ++ after)

-- The text stands inside one of the chunks.
abbrev pub Holds : Bytes → List ImportChunk → Type 0
Holds t [] = ⊥
Holds t (c ∷ rest) = Inside t c.text ⊎ Holds t rest

Inside-right : (t s more : Bytes) → Inside t s → Inside t (s ++ more)
Inside-right t s more (a, b, e) =
    (a, b ++ more, ap (λ r. r ++ more) e ∙ append_assoc (a ++ t) b more)

Inside-left : (t s more : Bytes) → Inside t s → Inside t (more ++ s)
Inside-left t s more (a, b, e) = (
  more ++ a,
  b,
  ap (◌++◌ more) e
      ∙ sym (append_assoc more (a ++ t) b)
      ∙ ap (λ r. r ++ b) (sym (append_assoc more a t)),
)

Inside-self : (t : Bytes) → Inside t t
Inside-self t = ([], [], sym (append-nil t))

opening-Inside : (a : Annotated) → Inside a.body (opening a)
unfolding opening
opening-Inside a = elim (Bool-cases (null a.heading_block)) [
  | inl e ↦ rw e (Inside-self a.body)
  | inr e ↦ rw e (Inside-left a.body a.body (a.heading_block ++ blank_line) (Inside-self a.body))
]

extended-Inside : (current sec : Bytes) (a : Annotated) → Inside a.body (extended current sec a)
unfolding extended
extended-Inside current sec a =
    elim (Bool-cases (not (equal a.section sec) && not (null a.heading_block))) [
      | inl e ↦ rw e (
          Inside-left a.body a.body (current ++ blank_line ++ a.heading_block ++ blank_line)
            (Inside-self a.body))
      | inr e ↦ rw e (Inside-left a.body a.body (current ++ blank_line) (Inside-self a.body))
    ]

extended-keeps :
    (t current sec : Bytes) (a : Annotated) → Inside t current → Inside t (extended current sec a)
unfolding extended
extended-keeps t current sec a h =
    elim (Bool-cases (not (equal a.section sec) && not (null a.heading_block))) [
      | inl e ↦ rw e (
          Inside-right t (current ++ blank_line ++ a.heading_block ++ blank_line) a.body (
            Inside-right t (current ++ blank_line ++ a.heading_block) blank_line
              (Inside-right t (current ++ blank_line) a.heading_block between)))
      | inr e ↦ rw e (Inside-right t (current ++ blank_line) a.body between)
    ]
  where
    between : Inside t (current ++ blank_line)
    between = Inside-right t current blank_line h

not-Inside_nil : (t : Bytes) → null t ≡ false → Inside t [] → ⊥
not-Inside_nil [] n h = cc
not-Inside_nil (x ∷ t) n ([], b, e) = cc
not-Inside_nil (x ∷ t) n (y ∷ a, b, e) = cc

-- What is in the chunk being built ends up in a chunk.
merge_from-current :
    (least : ℕ) (t current sec : Bytes) (rest : List Annotated)
    → null t ≡ false
    → Inside t current
    → Holds t (merge_from least current sec rest)
unfolding merge_from
merge_from-current least t [] sec rest n h = absurd (not-Inside_nil t n h)
merge_from-current least t (x ∷ current) sec [] n h = inl h
merge_from-current least t (x ∷ current) sec (a ∷ rest) n h =
    elim (Bool-cases (leb least (length (x ∷ current)))) [
      | inl e ↦ rw e (inl h)
      | inr e ↦ rw e (
          merge_from-current least t (extended (x ∷ current) sec a) a.section rest n
            (extended-keeps t (x ∷ current) sec a h))
    ]

-- Every body of the list is held, unless it is empty.
abbrev AllHeld : List ImportChunk → List Annotated → Type 0
AllHeld chunks = All (λ a. null a.body ≡ false → Holds a.body chunks)

AllHeld-cons :
    (c : ImportChunk) (chunks : List ImportChunk) (rest : List Annotated)
    → AllHeld chunks rest
    → AllHeld (c ∷ chunks) rest
AllHeld-cons c chunks [] h = tt
AllHeld-cons c chunks (a ∷ rest) (h, hs) = (λ n. inr (h n), AllHeld-cons c chunks rest hs)

merge_from-large :
    (least x : ℕ) (current sec : Bytes) (a : Annotated) (rest : List Annotated)
    → leb least (length (x ∷ current)) ≡ true
    → merge_from least (x ∷ current) sec (a ∷ rest)
      ≡ record { text = x ∷ current; section = sec } ∷ merge_from least (opening a) a.section rest
unfolding merge_from
merge_from-large least x current sec a rest e = rw e refl

merge_from-small :
    (least x : ℕ) (current sec : Bytes) (a : Annotated) (rest : List Annotated)
    → leb least (length (x ∷ current)) ≡ false
    → merge_from least (x ∷ current) sec (a ∷ rest)
      ≡ merge_from least (extended (x ∷ current) sec a) a.section rest
unfolding merge_from
merge_from-small least x current sec a rest e = rw e refl

merge_from-AllHeld :
    (least : ℕ) (current sec : Bytes) (rest : List Annotated)
    → AllHeld (merge_from least current sec rest) rest
unfolding merge_from
merge_from-AllHeld least current sec [] = tt
merge_from-AllHeld least [] sec (a ∷ rest) = (
  λ n. merge_from-current least a.body (opening a) a.section rest n (opening-Inside a),
  merge_from-AllHeld least (opening a) a.section rest,
)
merge_from-AllHeld least (x ∷ current) sec (a ∷ rest) =
    elim (Bool-cases (leb least (length (x ∷ current)))) [
      | inl e ↦
          subst (λ cs. AllHeld cs (a ∷ rest)) (sym (merge_from-large least x current sec a rest e))
            (
              λ n.
                  inr (
                    merge_from-current least a.body (opening a) a.section rest n
                      (opening-Inside a)),
              AllHeld-cons (record { text = x ∷ current; section = sec })
                  (merge_from least (opening a) a.section rest) rest
                  (merge_from-AllHeld least (opening a) a.section rest),
            )
      | inr e ↦
          subst (λ cs. AllHeld cs (a ∷ rest)) (sym (merge_from-small least x current sec a rest e))
            (
              λ n.
                  merge_from-current least a.body (extended (x ∷ current) sec a) a.section rest n
                    (extended-Inside (x ∷ current) sec a),
              merge_from-AllHeld least (extended (x ∷ current) sec a) a.section rest,
            )
    ]

-- Every paragraph is empty or stands whole in one of the chunks.
abbrev pub AllKept : List ImportChunk → List Annotated → Type 0
AllKept chunks = All (λ a. (null a.body ≡ true) ⊎ Holds a.body chunks)

AllHeld-AllKept :
    (chunks : List ImportChunk) (rest : List Annotated) → AllHeld chunks rest → AllKept chunks rest
AllHeld-AllKept chunks [] h = tt
AllHeld-AllKept chunks (a ∷ rest) (h, hs) = (
  elim (Bool-cases (null a.body)) [ inl e ↦ inl e | inr e ↦ inr (h e) ],
  AllHeld-AllKept chunks rest hs,
)

-- Merging keeps every paragraph that is not empty, whole, in the text of one of the chunks.
pub merge_from-AllKept :
    (least : ℕ) (current sec : Bytes) (rest : List Annotated)
    → AllKept (merge_from least current sec rest) rest
merge_from-AllKept least current sec rest =
    AllHeld-AllKept (merge_from least current sec rest) rest
      (merge_from-AllHeld least current sec rest)
