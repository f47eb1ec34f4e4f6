-- ===== src/Memory/Context/Once/Pushes.antt =====
-- A chunk that is appended keeps the invariant of the walk through the layers.
use ragger_cpp.Agent.Handle.{is_one_of}
use ragger_cpp.Memory.Context.Once.{
  IsNewestFirst, Differ, Apart, AllBefore, text_le_self, is_one_of-append, is_one_of-last,
  pass_turns-rev, pass_turns-consumed, pass_turns-All, pass_turns-IsNewestFirst,
  pass_turns-AllBefore,
}
use ragger_cpp.Memory.Context.{
  Turn, Dated, ChunkKind, of_raw_turn, of_turn_summary, ContextChunk, Walk, text_le,
  format_raw_turn, push, push_raw, pass_turns, push_summary,
}
use ragger_cpp.Prelude.{
  All, All-append, All-every, All-imp, All-zip, Bytes, List, [], ap, false, refl, subst, sym, true,
  ◌++◌, ◌∷◌, ◌≡◌, ◌≢◌,
}

-- A raw chunk's time is consumed; the turns that are left are from before each summary.
abbrev IsConsumed : List Bytes → ContextChunk → Type 0
IsConsumed consumed c = c.kind ≡ of_raw_turn → is_one_of c.timestamp consumed ≡ true

abbrev IsAhead : List Turn → ContextChunk → Type 0
IsAhead ts c = c.kind ≡ of_turn_summary → AllBefore c.timestamp ts

abbrev Walking : List Turn → List ContextChunk → List Bytes → Type 0
Walking ts rev consumed =
    IsNewestFirst ts × All (IsConsumed consumed) rev × All (IsAhead ts) rev × Apart rev

abbrev pub IsWalking : Walk → Type 0
IsWalking w = Walking w.turns w.rev w.consumed

abbrev chunk : ChunkKind → Bytes → Bytes → ContextChunk
chunk kind text timestamp = record { kind = kind; text = text; timestamp = timestamp }

Apart-append :
    (cs : List ContextChunk) (c : ContextChunk)
    → Apart cs
    → All (λ s. Differ s c) cs
    → All (λ r. Differ c r) cs
    → Differ c c
    → Apart (cs ++ c ∷ [])
Apart-append cs c a before after self =
    All-append (λ s. All (Differ s) (cs ++ c ∷ [])) cs (c ∷ [])
      (All-zip (λ s. All (Differ s) cs) (λ s. Differ s c) (λ s. All (Differ s) (cs ++ c ∷ []))
        (λ s h k. All-append (Differ s) cs (c ∷ []) h (k, tt)) cs a before)
      (All-append (Differ c) cs (c ∷ []) after (self, tt), tt)

pub push-other :
    (kind : ChunkKind) (text timestamp : Bytes) (w : Walk)
    → kind ≢ of_raw_turn
    → kind ≢ of_turn_summary
    → IsWalking w
    → IsWalking (push w kind text timestamp)
push-other kind text timestamp w r s (n, c, a, d) =
    let new = chunk kind text timestamp in
    (
      n,
      All-append (IsConsumed w.consumed) w.rev (new ∷ []) c (λ e. absurd (r e), tt),
      All-append (IsAhead w.turns) w.rev (new ∷ []) a (λ e. absurd (s e), tt),
      Apart-append w.rev new d (All-every (λ q. Differ q new) (λ q e f. absurd (r f)) w.rev)
          (All-every (Differ new) (λ q e. absurd (s e)) w.rev) (λ e. absurd (s e)),
    )

pub push_raw-IsWalking :
    (w : Walk) (t : Turn) (ts : List Turn)
    → w.turns ≡ t ∷ ts
    → IsWalking w
    → IsWalking (push_raw w t ts)
push_raw-IsWalking w t ts e (n, c, a, d) =
    let new = chunk of_raw_turn (format_raw_turn t) t.timestamp in
    let n' = subst IsNewestFirst e n in
    let a' = subst (λ us. All (IsAhead us) w.rev) e a in
    let consumed = w.consumed ++ t.timestamp ∷ [] in
    (
      n'.1,
      All-append (IsConsumed consumed) w.rev (new ∷ [])
          (All-imp (IsConsumed w.consumed) (IsConsumed consumed)
            (λ q h k. is_one_of-append q.timestamp t.timestamp w.consumed (h k)) w.rev c)
          (λ k. is_one_of-last t.timestamp w.consumed, tt),
      All-append (IsAhead ts) w.rev (new ∷ [])
          (All-imp (IsAhead (t ∷ ts)) (IsAhead ts) (λ q h k. (h k).1) w.rev a')
          (λ k. absurd (cc k), tt),
      Apart-append w.rev new d
          (All-imp (IsAhead (t ∷ ts)) (λ q. Differ q new)
            (λ q h k f same.
              absurd (cc ((h k).0, ap (λ x. text_le x t.timestamp) same, text_le_self t.timestamp)))
            w.rev a')
          (All-every (Differ new) (λ q k. absurd (cc k)) w.rev) (λ k. absurd (cc k)),
    )

pub push_summary-IsWalking :
    (w : Walk) (s : Dated)
    → is_one_of s.timestamp w.consumed ≡ false
    → IsWalking w
    → IsWalking (push_summary w s)
push_summary-IsWalking w s e (n, c, a, d) =
    let x = s.timestamp in
    let new = chunk of_turn_summary s.text x in
    let mid = push w of_turn_summary s.text x in
    let out = pass_turns x w.turns mid in
    let rev : out.rev ≡ w.rev ++ new ∷ [] = pass_turns-rev x w.turns mid in
    (
      pass_turns-IsNewestFirst x w.turns mid refl n,
      subst (All (IsConsumed out.consumed)) (sym rev) (
          All-append (IsConsumed out.consumed) w.rev (new ∷ [])
            (All-imp (IsConsumed w.consumed) (IsConsumed out.consumed)
              (λ q h k. pass_turns-consumed x q.timestamp w.turns mid (h k)) w.rev c)
            (λ k. absurd (cc k), tt)),
      subst (All (IsAhead out.turns)) (sym rev) (
          All-append (IsAhead out.turns) w.rev (new ∷ [])
            (All-imp (IsAhead w.turns) (IsAhead out.turns)
              (λ q h k.
                pass_turns-All (λ t. text_le q.timestamp t.timestamp ≡ false) x w.turns mid refl
                  (h k))
              w.rev a)
            (λ k. pass_turns-AllBefore x w.turns mid refl n, tt)),
      subst Apart (sym rev) (
          Apart-append w.rev new d (All-every (λ q. Differ q new) (λ q k f. absurd (cc f)) w.rev)
            (All-imp (IsConsumed w.consumed) (Differ new)
              (λ q h k f same. absurd (cc (e, h f, ap (λ y. is_one_of y w.consumed) same))) w.rev c)
            (λ k f. absurd (cc f))),
    )
