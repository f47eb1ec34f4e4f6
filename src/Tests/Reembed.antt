-- ===== src/Tests/Reembed.antt =====
-- A re-embedding of two rows that dies behind the first.
use ragger_cpp.Memory.Reembed.{Identity, VectorRow, Vectors, Process, Point}
use ragger_cpp.Prelude.{Bool, Bytes, [], codes, false, none, some, ℕ, ◌∷◌}

abbrev identity_of : Bytes → Identity
identity_of model = record { model = model; vector_type = codes "f16"; dimensions = 384 }

abbrev vector_row : Bytes → VectorRow
vector_row text = record { text = text; vector = some (255, identity_of (codes "old")) }

abbrev store_before : Vectors
store_before = record {
  rows = vector_row (codes "a") ∷ vector_row (codes "b") ∷ [];
  version = 255;
  identity = identity_of (codes "old");
  reembedding = false;
  owner = none;
  repair_pending = false;
}

abbrev nobody : ℕ → Bool
nobody p = false

-- A process that starts behind the death, with what it finds recorded.
abbrev successor : Process
successor = record { pid = 8; embedder = identity_of (codes "new"); version = 1 }
