-- ===== src/Summarizer/Markers/Laws.antt =====
-- What `strip_system_injected_prefix` leaves.
use ragger_cpp.Prelude.{
  Bytes, List, Option-cases, [], arith, codes, drop_while, drop_while-drop_while, false, find,
  find-le, find_from, inl, inr, is_blank, length, length-drop, length-drop_while, none, refl, some,
  starts_with, suc, zero, ℕ, ◌+◌, ◌-◌, ◌<◌, ◌∙◌, ◌∷◌, ◌≡◌,
}
use ragger_cpp.Summarizer.Markers.{
  system_markers, compaction_end, ltrim_view, find_marker, leading_marker, any_marker,
  is_system_injected_turn, after_close, after_compaction, after_note, strip_notes,
  strip_system_injected_prefix,
}

after_close-lt :
    (depth : ℕ) (s rest : Bytes) → after_close depth s ≡ some rest → length rest < length s
unfolding after_close
after_close-lt depth [] rest h = cc
after_close-lt depth (c ∷ s) rest h = ground (
  arith,
  after_close-lt (depth + 1) s rest,
  after_close-lt (depth - 1) s rest,
  after_close-lt depth s rest,
)

after_compaction-lt :
    (body rest : Bytes) → after_compaction body ≡ some rest → length rest < length body
unfolding after_compaction
after_compaction-lt body rest h = elim (Option-cases (find compaction_end body)) [
  | inl e ↦ ground (arith, e)
  | inr (k, e) ↦ elim (Option-cases (find_from (codes "\n") body k)) [
    | inl f ↦ ground (arith, e, f, find-le compaction_end body k e)
    | inr (n, f) ↦ ground (arith, e, f, find-le compaction_end body k e, length-drop (n + 1) body)
  ]
]

after_note-lt :
    (marker body rest : Bytes) → after_note marker body ≡ some rest → length rest < length body
unfolding after_note
after_note-lt marker body rest h =
    ground (arith, after_close-lt 0 body rest, after_compaction-lt body rest)

any_marker-find :
    (ms : List Bytes) (body : Bytes) → find_marker ms body ≡ none → any_marker ms body ≡ false
unfolding any_marker find_marker
any_marker-find [] body h = refl
any_marker-find (m ∷ ms) body h = ground (arith, any_marker-find ms body)

find_marker-nil : leading_marker [] ≡ none
unfolding find_marker starts_with
find_marker-nil = refl

-- Enough fuel: the loop ends at a text with no marker and no leading blank.
strip_notes-done :
    (fuel : ℕ) (body : Bytes)
    → length body < fuel
    → ltrim_view body ≡ body
    → (leading_marker (strip_notes fuel body) ≡ none)
      × (ltrim_view (strip_notes fuel body) ≡ strip_notes fuel body)
unfolding strip_notes
strip_notes-done zero body h t = absurd (omega arith)
strip_notes-done (suc fuel) body h t = elim (Option-cases (leading_marker body)) [
  | inl e ↦ rw (e, strip_notes) (e, t)
  | inr (m, e) ↦ elim (Option-cases (after_note m body)) [
    | inl f ↦ rw (e, strip_notes) (rw (f, strip_notes) (find_marker-nil, unfold drop_while in refl))
    | inr (rest, f) ↦
        let shorter = after_note-lt m body rest f in
        rw (e, strip_notes)
          (rw (f, strip_notes)
            (strip_notes-done fuel (ltrim_view rest)
              (omega (arith, shorter, length-drop_while is_blank rest))
              (drop_while-drop_while is_blank rest)))
  ]
]

ltrim_view-ltrim_view : (s : Bytes) → ltrim_view (ltrim_view s) ≡ ltrim_view s
ltrim_view-ltrim_view s = drop_while-drop_while is_blank s

-- What is left of a user turn after stripping starts with no note of the system and with no
-- blank.
pub strip_system_injected_prefix_clean :
    (s : Bytes)
    → (is_system_injected_turn (strip_system_injected_prefix s) ≡ false)
      × (ltrim_view (strip_system_injected_prefix s) ≡ strip_system_injected_prefix s)
unfolding is_system_injected_turn strip_system_injected_prefix
strip_system_injected_prefix_clean s =
    let body = ltrim_view s in
    let done = strip_notes-done (length body + 1) body (omega arith) (ltrim_view-ltrim_view s) in
    (rw done.1 (any_marker-find system_markers _ done.0), done.1)

find_marker-any :
    (ms : List Bytes) (body : Bytes) → any_marker ms body ≡ false → find_marker ms body ≡ none
unfolding any_marker find_marker
find_marker-any [] body h = refl
find_marker-any (m ∷ ms) body h = ground (arith, find_marker-any ms body)

strip_notes-unmarked :
    (fuel : ℕ) (body : Bytes) → leading_marker body ≡ none → strip_notes fuel body ≡ body
unfolding strip_notes
strip_notes-unmarked zero body h = refl
strip_notes-unmarked (suc fuel) body h = rw (h, strip_notes)

-- A turn that no note begins only loses its leading blanks; so a second pass changes nothing.
pub strip_system_injected_prefix-unmarked :
    (s : Bytes) → is_system_injected_turn s ≡ false → strip_system_injected_prefix s ≡ ltrim_view s
unfolding is_system_injected_turn strip_system_injected_prefix
strip_system_injected_prefix-unmarked s h =
    strip_notes-unmarked _ (ltrim_view s) (find_marker-any system_markers (ltrim_view s) h)

pub strip_system_injected_prefix_idem :
    (s : Bytes)
    → strip_system_injected_prefix (strip_system_injected_prefix s) ≡ strip_system_injected_prefix s
strip_system_injected_prefix_idem s =
    let clean = strip_system_injected_prefix_clean s in
    strip_system_injected_prefix-unmarked _ clean.0 ∙ clean.1

-- More fuel than the text is long changes nothing.
pub strip_notes-fuel :
    (f g : ℕ) (body : Bytes)
    → length body < f
    → length body < g
    → strip_notes f body ≡ strip_notes g body
unfolding strip_notes
strip_notes-fuel zero g body h k = absurd (omega arith)
strip_notes-fuel (suc f) zero body h k = absurd (omega arith)
strip_notes-fuel (suc f) (suc g) body h k = elim (Option-cases (leading_marker body)) [
  | inl e ↦ rw (e, strip_notes) refl
  | inr (m, e) ↦ elim (Option-cases (after_note m body)) [
    | inl n ↦ rw (e, strip_notes) (rw (n, strip_notes) refl)
    | inr (rest, n) ↦
        let shorter = after_note-lt m body rest n in
        let less = length-drop_while is_blank rest in
        rw (e, strip_notes)
          (rw (n, strip_notes)
            (strip_notes-fuel f g (ltrim_view rest) (omega (arith, shorter, less))
              (omega (arith, shorter, less))))
  ]
]
