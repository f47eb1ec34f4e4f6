-- ===== src/Memory/Reembed/Resumed.antt =====
-- The repair of a re-embedding that died, behind a search that has seen it.
use ragger_cpp.Memory.Reembed.Rows.{IsCurrent}
use ragger_cpp.Memory.Reembed.{VectorRow, Vectors, Process, refresh_first}
use ragger_cpp.Prelude.{All, List, false, length, ℕ, ◌≡◌}

-- The repair is paid, and every vector is of the current version and identity.
abbrev pub IsRepaired : Vectors → Type 0
IsRepaired st =
    (st.repair_pending ≡ false)
    × (st.reembedding ≡ false)
    × All (IsCurrent st.version st.identity) st.rows

-- The process has read the version that is recorded, and its embedder is of the recorded identity.
abbrev pub HasLoaded : Process → Vectors → Type 0
HasLoaded self st = (self.version ≡ st.version) × (self.embedder ≡ st.identity)

module _ (self : Process) where
  abbrev refreshed : Vectors → ℕ × List VectorRow
  refreshed st = refresh_first (length st.rows) self.version self.embedder st.rows
