-- ===== src/Util/Utf8/Boundary.antt =====
-- Where `utf8_safe_prefix` cuts.
use ragger_cpp.Prelude.{
  All, Bool-cases, Bytes, List, [], ap, append_assoc, arith, concat, false, get_or, get_or-append,
  if◌then◌else◌, inl, inr, leb, leb→le, length, length-append, length-take, refl, suc, sym, take,
  tests, true, zero, ℕ, ◌++◌, ◌+◌, ◌-◌, ◌<◌, ◌∙◌, ◌∷◌, ◌≡◌, ◌≤◌, ◌⊎◌,
}
use ragger_cpp.Util.Utf8.{
  is_continuation, byte_at, walk_back, sequence_need, sequence_cut, safe_cut, utf8_safe_prefix,
}

pub walk_back-le : (s : Bytes) (i : ℕ) → walk_back s i ≤ i
unfolding walk_back
walk_back-le s zero = omega arith
walk_back-le s (suc i) = ground (arith, walk_back-le s i)

safe_cut-le : (s : Bytes) (n : ℕ) → safe_cut s n ≤ n
unfolding safe_cut sequence_cut
safe_cut-le s n = ground (arith, walk_back-le s n)

take_all : (s : Bytes) → take (length s) s ≡ s
take_all [] = refl
take_all (x ∷ s) = ap (◌∷◌ x) (take_all s)

-- For any bytes, valid or not, the result is a prefix and stays within the budget.
pub utf8_safe_prefix_bounded :
    (s : Bytes) (n : ℕ)
    → (k : ℕ) × (utf8_safe_prefix s n ≡ take k s) × (length (utf8_safe_prefix s n) ≤ n)
unfolding utf8_safe_prefix
utf8_safe_prefix_bounded s n = elim (Bool-cases (leb (length s) n)) [
  | inl fits ↦ (length s, rw fits (sym (take_all s)), rw fits (leb→le _ _ fits))
  | inr over ↦ (
    safe_cut s n,
    rw over,
    rw over (omega (arith, length-take (safe_cut s n) s, safe_cut-le s n)),
  )
]

-- The length that the lead byte of a sequence with so many continuation bytes announces.
abbrev announced : ℕ → ℕ
announced zero = 0
announced (suc n) = suc (suc n)

announced-cases : (n : ℕ) → ((n ≡ 0) × (announced n ≡ 0)) ⊎ (announced n ≡ n + 1)
announced-cases zero = inl (refl, refl)
announced-cases (suc n) = inr (omega arith)

-- One character: a byte that continues nothing, and the continuation bytes that it announces.
pub record IsChar (c : Bytes) : Type 0 where
  pub lead : ℕ
  pub rest : Bytes
  pub splits : c ≡ lead ∷ rest
  pub starts : is_continuation lead ≡ false
  pub announces : sequence_need lead ≡ announced (length rest)
  pub continues : All (λ b. is_continuation b ≡ true) rest

-- Well-formed text, as its characters.
abbrev pub IsText : List Bytes → Type 0
IsText = All IsChar

-- The longest run of whole characters that fits into `n` bytes.
abbrev pub fitting : ℕ → List Bytes → List Bytes
fitting n [] = []
fitting n (c ∷ cs) = if leb (length c) n then c ∷ fitting (n - length c) cs else []

pub walk_back_stop : (s : Bytes) (i : ℕ) → is_continuation (byte_at s i) ≡ false → walk_back s i ≡ i
unfolding walk_back
walk_back_stop s zero h = refl
walk_back_stop s (suc i) h = rw h

pub walk_back-walk_back : (s : Bytes) (i : ℕ) → walk_back s (walk_back s i) ≡ walk_back s i
unfolding walk_back
walk_back-walk_back s zero = refl
walk_back-walk_back s (suc i) = elim (Bool-cases (is_continuation (byte_at s (suc i)))) [
  | inl e ↦ rw e (walk_back-walk_back s i)
  | inr e ↦ rw e (rw e refl)
]

pub safe_cut_stop : (s : Bytes) (k : ℕ) → walk_back s k ≡ k → safe_cut s k ≡ k
unfolding safe_cut
safe_cut_stop s k e = rw e (ground arith)

walk_back_step :
    (s : Bytes) (i j : ℕ)
    → i ≡ suc j
    → is_continuation (byte_at s i) ≡ true
    → walk_back s i ≡ walk_back s j
walk_back_step s zero j e h = absurd (omega arith)
walk_back_step s (suc i) j e h =
    let e' : i ≡ j = omega arith in unfold walk_back in rw h (ap (walk_back s) e')

get_or-All :
    (rest : Bytes) (k : ℕ)
    → All (λ b. is_continuation b ≡ true) rest
    → k < length rest
    → is_continuation (get_or rest k 0) ≡ true
get_or-All [] k r h = absurd (omega arith)
get_or-All (b ∷ rest) zero r h = r.0
get_or-All (b ∷ rest) (suc k) r h = get_or-All rest k r.1 (omega arith)

get_or-All-append :
    (rest after : Bytes) (k : ℕ)
    → All (λ b. is_continuation b ≡ true) rest
    → k < length rest
    → is_continuation (get_or (rest ++ after) k 0) ≡ true
get_or-All-append [] after k r h = absurd (omega arith)
get_or-All-append (b ∷ rest) after zero r h = r.0
get_or-All-append (b ∷ rest) after (suc k) r h = get_or-All-append rest after k r.1 (omega arith)

-- Inside a character, walking back ends at its lead byte.
module _ (before rest after : Bytes) (lead : ℕ) (starts : is_continuation lead ≡ false)
    (continues : All (λ b. is_continuation b ≡ true) rest) where
  abbrev whole : Bytes
  whole = before ++ lead ∷ (rest ++ after)

  walk_back_lead : (i : ℕ) → i ≡ length before → walk_back whole i ≡ length before
  walk_back_lead i e =
      walk_back_stop whole i (rw (e', get_or-append before (lead ∷ (rest ++ after)) 0 0) starts) ∙ e
    where
      e' : i ≡ length before + 0
      e' = omega arith

  walk_back_rest :
      (k i : ℕ) → i ≡ length before + k → k ≤ length rest → walk_back whole i ≡ length before
  walk_back_rest zero i e le = walk_back_lead i (omega arith)
  walk_back_rest (suc k) i e le =
      walk_back_step whole i (length before + k) (omega arith) (
        rw (e, get_or-append before (lead ∷ (rest ++ after)) (suc k) 0)
          (get_or-All-append rest after k continues (omega arith)))
      ∙ walk_back_rest k (length before + k) refl (omega arith)

  -- A cut at the lead byte or inside the character drops all of it.
  safe_cut_inside :
      (k i : ℕ)
      → i ≡ length before + k
      → k ≤ length rest
      → sequence_need lead ≡ announced (length rest)
      → safe_cut whole i ≡ length before
  unfolding safe_cut sequence_cut
  safe_cut_inside k i e le a =
      ground (arith, walk_back_rest k i e le, lead_at, announced-cases (length rest))
    where
      lead_at : byte_at whole (length before) ≡ lead
      lead_at = ap (λ j. byte_at whole j) e0 ∙ get_or-append before (lead ∷ (rest ++ after)) 0 0
        where
          e0 : length before ≡ length before + 0
          e0 = omega arith

take_chars : (c s : Bytes) (m : ℕ) → take (length c + m) (c ++ s) ≡ c ++ take m s
take_chars [] s m = ap (λ n. take n s) e
  where
    e : 0 + m ≡ m
    e = omega arith
take_chars (b ∷ c) s m = ap (λ n. take n (b ∷ (c ++ s))) e ∙ ap (◌∷◌ b) (take_chars c s m)
  where
    e : suc (length c) + m ≡ suc (length c + m)
    e = omega arith

pub take-fitting :
    (n : ℕ) (cs : List Bytes)
    → take (length (concat (fitting n cs))) (concat cs) ≡ concat (fitting n cs)
take-fitting n [] = refl
take-fitting n (c ∷ cs) = elim (Bool-cases (leb (length c) n)) [
  | inl fits ↦ rw fits (
      rw (length-append c (concat (fitting (n - length c) cs)))
        (take_chars c (concat cs) _ ∙ ap (◌++◌ c) (take-fitting (n - length c) cs)))
  | inr over ↦ rw over
]

pub safe_cut-fitting :
    (cs : List Bytes) (before : Bytes) (n i : ℕ)
    → IsText cs
    → i ≡ length before + n
    → n < length (concat cs)
    → safe_cut (before ++ concat cs) i ≡ length before + length (concat (fitting n cs))
safe_cut-fitting [] before n i t e h = absurd (omega arith)
safe_cut-fitting (c ∷ cs) before n i (t, ts) e h = elim (Bool-cases (leb (length c) n)) [
  | inl fits ↦
      let ih =
        safe_cut-fitting cs (before ++ c) (n - length c) i ts
          (omega (tests, length-append before c, fits, e))
          (omega (tests, length-append c (concat cs), fits, h)) in
      rw fits (
        rw (← append_assoc before c (concat cs)) (
          omega (
            arith,
            ih,
            length-append before c,
            length-append c (concat (fitting (n - length c) cs)),
          )))
  | inr over ↦
      let inside =
        safe_cut_inside before t.rest (concat cs) t.lead t.starts t.continues n i e
          (ground (arith, ap length t.splits)) t.announces in
      rw over (rw t.splits (omega (arith, inside)))
]

fitting_all : (n : ℕ) (cs : List Bytes) → length (concat cs) ≤ n → fitting n cs ≡ cs
fitting_all n [] h = refl
fitting_all n (c ∷ cs) h =
    ground (arith, length-append c (concat cs), fitting_all (n - length c) cs)

-- On text that consists of whole UTF-8 characters, `utf8_safe_prefix` gives the longest run of
-- whole characters from the start that fits into the budget.
pub utf8_safe_prefix-fitting :
    (cs : List Bytes) (n : ℕ) → IsText cs → utf8_safe_prefix (concat cs) n ≡ concat (fitting n cs)
unfolding utf8_safe_prefix
utf8_safe_prefix-fitting cs n t = elim (Bool-cases (leb (length (concat cs)) n)) [
  | inl fits ↦ rw fits (ap concat (sym (fitting_all n cs (leb→le _ _ fits))))
  | inr over ↦
      let cut = safe_cut-fitting cs [] n n t (omega arith) (ground arith) in
      rw over (ap (λ k. take k (concat cs)) (omega (arith, cut)) ∙ take-fitting n cs)
]
