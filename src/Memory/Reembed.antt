-- ===== src/Memory/Reembed.antt =====
-- The re-embedding of src/memory.cpp, and the passes over the rows of src/sqlite/maintenance.cpp: each
-- setting that is written is a step, and the process may die behind any. Nothing else writes rows
-- meanwhile, and the embedder is ready. A database that fails is left out.
pub mod Rows
pub mod Recovery
pub mod Resumed
use ragger_cpp.Prelude.{
  Bool, Bytes, List, Option, [], false, if◌then◌else◌, length, ltb, none, not, null, some, suc,
  true, zero, ℕ, ◌&&◌, ◌+◌, ◌==◌, ◌||◌, ◌∷◌,
}

-- The recorded identity of the vectors.
pub record Identity : Type 0 where
  pub model : Bytes
  pub vector_type : Bytes
  pub dimensions : ℕ

-- A row of any of the tables; a vector has its version byte and the identity it was made with.
pub record VectorRow : Type 0 where
  pub text : Bytes
  pub vector : Option (ℕ × Identity)

-- The rows and the settings. `owner` is `reembedding_pid`, `none` where it is empty.
pub record Vectors : Type 0 where
  pub rows : List VectorRow
  pub version : ℕ
  pub identity : Identity
  pub reembedding : Bool
  pub owner : Option ℕ
  pub repair_pending : Bool

-- `increment_embedding_version`: 1 to 255, and 0 is never used.
unfoldable pub next_version : ℕ → ℕ
next_version v = if ltb 255 (v + 1) then 1 else v + 1

-- Pass 1 of `embed_tables` for a full rebuild: a row without text is passed over.
unfoldable pub encode_row : ℕ → Identity → VectorRow → VectorRow
encode_row version identity r =
    if null r.text then r else record r { vector = some (version, identity) }

-- `embedding IS NULL`, or another version.
unfoldable pub is_stale : ℕ → Option (ℕ × Identity) → Bool
is_stale version none = true
is_stale version (some (v, i)) = not (v == version)

-- Both passes of a backfill on a row, and whether it counts.
unfoldable pub refresh_row : ℕ → Identity → VectorRow → ℕ × VectorRow
refresh_row version identity r =
    if not (null r.text) && is_stale version r.vector
    then (1, record r { vector = some (version, identity) })
    else (0, r)

-- A rebuild that got as far as the first `k` rows.
unfoldable pub encode_first : ℕ → ℕ → Identity → List VectorRow → List VectorRow
encode_first zero version identity rows = rows
encode_first (suc k) version identity [] = []
encode_first (suc k) version identity (r ∷ rows) =
    encode_row version identity r ∷ encode_first k version identity rows

-- A backfill that got as far as the first `k` rows.
unfoldable pub refresh_first : ℕ → ℕ → Identity → List VectorRow → ℕ × List VectorRow
refresh_first zero version identity rows = (0, rows)
refresh_first (suc k) version identity [] = (0, [])
refresh_first (suc k) version identity (r ∷ rows) =
    let one = refresh_row version identity r in
    let rest = refresh_first k version identity rows in (one.0 + rest.0, one.1 ∷ rest.1)

-- What a process holds in memory: the identity of its embedder, and `embedding_version_`.
pub record Process : Type 0 where
  pub pid : ℕ
  pub embedder : Identity
  pub version : ℕ

-- `backfill_embeddings` with the embedder of the process.
unfoldable pub backfill : Process → Vectors → ℕ × Vectors
backfill self st =
    let (n, rows) = refresh_first (length st.rows) self.version self.embedder st.rows in
    (n, record st { rows = rows })

-- Where the process dies in `update_embeddings`: behind the step that is named.
pub data Point : Type 0 where
  started flagged owned bumped owed renamed retyped : Point
  rebuilding repairing : ℕ → Point
  paid unflagged finished : Point

-- Behind the new version, and behind the mark that a repair is owed.
abbrev pub bump : ℕ → Vectors → Vectors
bump pid st = record st { reembedding = true; owner = some pid; version = next_version st.version }

abbrev pub owe : ℕ → Vectors → Vectors
owe pid st = record (bump pid st) { repair_pending = true }

-- Behind the promotion of the identity, with the rows as they are by then.
abbrev pub promote : ℕ → Identity → Vectors → List VectorRow → Vectors
promote pid d st rows = record (owe pid st) { identity = d; rows = rows }

abbrev pub rebuilt : ℕ → Identity → Vectors → List VectorRow
rebuilt k d st = encode_first k (next_version st.version) d st.rows

abbrev pub repaired : ℕ → Identity → Vectors → List VectorRow
repaired k d st = (refresh_first k (next_version st.version) d (rebuilt (length st.rows) d st)).1

abbrev pub pay : ℕ → Identity → Vectors → Vectors
pay pid d st = record (promote pid d st (repaired (length st.rows) d st)) { repair_pending = false }

-- The state that `update_embeddings` of the process `pid` has reached, with the identity desired.
unfoldable pub update_until : Point → ℕ → Identity → Vectors → Vectors
update_until started pid d st = st
update_until flagged pid d st = record st { reembedding = true }
update_until owned pid d st = record st { reembedding = true; owner = some pid }
update_until bumped pid d st = bump pid st
update_until owed pid d st = owe pid st
update_until renamed pid d st = record (owe pid st) {
  identity = record st.identity { model = d.model };
}
update_until retyped pid d st = record (owe pid st) {
  identity = record d { dimensions = st.identity.dimensions };
}
update_until (rebuilding k) pid d st = promote pid d st (rebuilt k d st)
update_until (repairing k) pid d st = promote pid d st (repaired k d st)
update_until paid pid d st = pay pid d st
update_until unflagged pid d st = record (pay pid d st) { reembedding = false }
update_until finished pid d st = record (pay pid d st) { reembedding = false; owner = none }

-- Whether the owner of the flag is at work: this process, or another one that is alive.
abbrev pub is_working : (ℕ → Bool) → ℕ → Option ℕ → Bool
is_working alive self none = false
is_working alive self (some p) = if p == 0 then false else if p == self then true else alive p

-- A flag without an owner is cleared, and the repair is owed.
unfoldable pub is_reembedding : (ℕ → Bool) → ℕ → Vectors → Bool × Vectors
is_reembedding alive self st =
    if not st.reembedding
    then (false, st)
    else if is_working alive self st.owner
    then (true, st)
    else (false, record st { reembedding = false; owner = none; repair_pending = true })

-- `search` uses text only; the embedder is ready.
unfoldable pub text_only : (ℕ → Bool) → ℕ → Vectors → Bool × Vectors
text_only alive self st =
    let (busy, st') = is_reembedding alive self st in (busy || st'.repair_pending, st')

-- `kMaxPasses`
abbrev pub max_passes : ℕ
max_passes = 5

-- The loop: the passes left, and the rows so far.
unfoldable pub resume_passes : Process → ℕ → ℕ → Vectors → ℕ × Vectors
resume_passes self zero total st = (total, st)
resume_passes self (suc passes) total st =
    let (n, st') = backfill self st in
    let rest = resume_passes self passes (total + n) st' in
    if n == 0 then (total, record st' { repair_pending = false }) else rest

unfoldable pub resume_interrupted_reembed : (ℕ → Bool) → Process → Vectors → ℕ × Vectors
resume_interrupted_reembed alive self st =
    if not st.repair_pending
    then (0, st)
    else (let (busy, st') = is_reembedding alive self.pid st in
        if busy then (0, st') else resume_passes self max_passes 0 st')
