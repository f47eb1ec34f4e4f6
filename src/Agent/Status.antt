-- ===== src/Agent/Status.antt =====
-- src/sqlite/status.cpp and include/sqlite/status.h: the words for the state of a knowledge row.
use ragger_cpp.Agent.Handle.{is_one_of}
use ragger_cpp.Prelude.{Bool, Bytes, List, [], codes, equal, if◌then◌else◌, ◌∷◌}

-- `kAgentSettable`
abbrev pub agent_settable : List Bytes
agent_settable = codes "current" ∷ codes "provisional" ∷ codes "pending" ∷ codes "retired" ∷ []

-- `kAllowed`
abbrev pub allowed : List (Bytes × List Bytes)
allowed =
    (codes "pending", codes "current" ∷ codes "provisional" ∷ codes "retired" ∷ [])
    ∷ (codes "provisional", codes "current" ∷ codes "retired" ∷ [])
    ∷ (codes "current", codes "provisional" ∷ codes "retired" ∷ [])
    ∷ (codes "roadmap", codes "current" ∷ codes "provisional" ∷ codes "retired" ∷ [])
    ∷ (codes "superseded", [])
    ∷ (codes "retired", [])
    ∷ []

unfoldable pub targets : Bytes → List (Bytes × List Bytes) → List Bytes
targets source [] = []
targets source ((s, ts) ∷ rows) = if equal source s then ts else targets source rows

-- A status that the table does not have has no targets.
unfoldable pub transition_ok : Bytes → Bytes → Bool
unfolding targets
transition_ok source target = is_one_of target (targets source allowed)
