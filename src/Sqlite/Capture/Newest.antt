-- ===== src/Sqlite/Capture/Newest.antt =====
-- The newest turn of a session after a change of the table.
use ragger_cpp.Prelude.{
  Bool, Bytes, List, Option, Option-cases, [], arith, if◌then◌else◌, inl, inr, none, refl, some,
  starts_with_self, ℕ, ◌++◌, ◌+◌, ◌==◌, ◌∷◌, ◌≡◌, ◌≤◌,
}
use ragger_cpp.Sqlite.Capture.Rows.{Rising}
use ragger_cpp.Sqlite.Capture.{CapturedTurn, newest_turn, coalesce, merge_text, update_turn}

-- A turn with the text of the update, if it has the id.
abbrev updated : ℕ → Bytes → Option Bytes → Bool → CapturedTurn → CapturedTurn
updated id text model embedded t =
    if t.turn_id == id
    then record t { assistant_text = text; model = coalesce t.model model; embedded = embedded }
    else t

abbrev on_some : (CapturedTurn → CapturedTurn) → Option CapturedTurn → Option CapturedTurn
on_some f none = none
on_some f (some t) = some (f t)

pub newest_turn-update_turn :
    (session id : ℕ) (text : Bytes) (model : Option Bytes) (embedded : Bool)
    (ts : List CapturedTurn)
    → newest_turn session (update_turn id text model embedded ts)
      ≡ on_some (updated id text model embedded) (newest_turn session ts)
unfolding newest_turn update_turn
newest_turn-update_turn session id text model embedded [] = refl
newest_turn-update_turn session id text model embedded (t ∷ ts) =
    elim (Option-cases (newest_turn session ts)) [
      | inl f ↦ ground (arith, f, newest_turn-update_turn session id text model embedded ts)
      | inr (u, f) ↦ ground (arith, f, newest_turn-update_turn session id text model embedded ts)
    ]

pub newest_turn-append :
    (b last session : ℕ) (ts : List CapturedTurn) (t : CapturedTurn)
    → Rising b ts last
    → t.turn_id ≡ last + 1
    → t.session_id ≡ some session
    → newest_turn session (ts ++ t ∷ []) ≡ some t
unfolding newest_turn
newest_turn-append b last session [] t r i s = rw s (ground arith)
newest_turn-append b last session (q ∷ ts) t r i s =
    ground (
      arith,
      newest_turn-append q.turn_id last session ts t r.1 i s,
      Rising-le q.turn_id last ts r.1,
    )
  where
    Rising-le : (c d : ℕ) (us : List CapturedTurn) → Rising c us d → c ≤ d
    Rising-le c d [] h = h
    Rising-le c d (u ∷ us) h = omega (arith, h.0, Rising-le u.turn_id d us h.1)

pub merge_text_self : (a : Bytes) → merge_text a a ≡ a
unfolding merge_text
merge_text_self a = ground (arith, starts_with_self a)
