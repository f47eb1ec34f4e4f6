-- ===== src/Agent/Handle/Legacy.antt =====
-- The handles of older versions, which get an error of their own.
use ragger_cpp.Agent.Handle.RoundTrip.{is_one_of-All}
use ragger_cpp.Agent.Handle.Sound.{parse_agent_handle-IsHandle}
use ragger_cpp.Agent.Handle.{
  known_layers, is_known_agent_layer, parse_agent_handle, has_prefix, legacy_from,
  is_legacy_knowledge_handle, is_legacy_summary_handle,
}
use ragger_cpp.Prelude.{
  Bytes, arith, codes, false, refl, some, starts_with, true, ℕ, ◌++◌, ◌∷◌, ◌≡◌,
}

has_prefix-no : (p h : Bytes) → starts_with p h ≡ false → has_prefix p h ≡ false
unfolding has_prefix
has_prefix-no p h e = ground arith

-- No handle with this layer is an old one.
abbrev NotLegacy : Bytes → Type 0
NotLegacy layer =
    (s : Bytes)
    → (is_legacy_knowledge_handle (layer ++ b':' ∷ s) ≡ false)
      × (is_legacy_summary_handle (layer ++ b':' ∷ s) ≡ false)

not_legacy :
    (h : Bytes)
    → starts_with (codes "decision:") h ≡ false
    → starts_with (codes "insight:") h ≡ false
    → starts_with (codes "summary:") h ≡ false
    → (is_legacy_knowledge_handle h ≡ false) × (is_legacy_summary_handle h ≡ false)
unfolding is_legacy_knowledge_handle is_legacy_summary_handle legacy_from
not_legacy h d i s =
    (rw (has_prefix-no _ h d, has_prefix-no _ h i) refl, rw (has_prefix-no _ h s) refl)

pub known-NotLegacy : (layer : Bytes) → is_known_agent_layer layer ≡ true → NotLegacy layer
unfolding is_known_agent_layer starts_with
known-NotLegacy layer h =
    is_one_of-All NotLegacy layer known_layers
      (
        λ s. not_legacy _ refl refl refl,
        (
          λ s. not_legacy _ refl refl refl,
          (
            λ s. not_legacy _ refl refl refl,
            (λ s. not_legacy _ refl refl refl, (λ s. not_legacy _ refl refl refl, tt)),
          ),
        ),
      )
      h

-- A handle that is read is none of the old ones, so the errors for those never hide a row.
pub parse_agent_handle-legacy :
    (handle layer : Bytes) (n : ℕ)
    → parse_agent_handle handle ≡ some (layer, n)
    → (is_legacy_knowledge_handle handle ≡ false) × (is_legacy_summary_handle handle ≡ false)
parse_agent_handle-legacy handle layer n h =
    let p = parse_agent_handle-IsHandle handle layer n h in
    rw p.splits (known-NotLegacy layer p.known p.digits)
