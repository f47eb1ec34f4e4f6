-- ===== src/Memory/Reembed/Recovery.antt =====
-- A re-embedding that dies anywhere, and its repair.
use ragger_cpp.Memory.Reembed.Rows.{
  IsSound, IsCurrent, IsEncoded, IsEncoded-IsCurrent, IsCurrent-IsSound, IsCurrent-bumped,
  encode_first-All, encode_first-length, refresh_first_encoded,
}
use ragger_cpp.Memory.Reembed.{
  Identity, VectorRow, Vectors, next_version, Point, started, flagged, owned, bumped, owed, renamed,
  retyped, rebuilding, repairing, paid, unflagged, finished, bump, owe, rebuilt, repaired, pay,
  update_until, is_reembedding,
}
use ragger_cpp.Prelude.{
  All, All-imp, Bool, List, arith, false, length, none, refl, some, subst, sym, true, ℕ, ◌<◌, ◌≡◌,
  ◌≢◌,
}

-- No re-embedding is on, and every vector is of the current version and identity.
pub record IsSettled (st : Vectors) : Type 0 where
  pub ended : st.reembedding ≡ false
  pub unowned : st.owner ≡ none
  pub paid : st.repair_pending ≡ false
  pub current : All (IsCurrent st.version st.identity) st.rows

next_version-ne : (v : ℕ) → 0 < v → v ≢ next_version v
unfolding next_version
next_version-ne v h e = absurd (ground arith)

bumped-IsSound :
    (st : Vectors) (other : Identity)
    → 0 < st.version
    → All (IsCurrent st.version st.identity) st.rows
    → All (IsSound (next_version st.version) other) st.rows
bumped-IsSound st other p =
    All-imp (IsCurrent st.version st.identity) (IsSound (next_version st.version) other)
      (λ r.
        IsCurrent-bumped st.version (next_version st.version) st.identity other r
          (next_version-ne st.version p))
      st.rows

-- Wherever the process dies, the rows are sound; from the last setting on they are all encoded.
pub update_until-IsSound :
    (point : Point) (pid : ℕ) (d : Identity) (st : Vectors)
    → 0 < st.version
    → IsSettled st
    → All
        (IsSound (update_until point pid d st).version (update_until point pid d st).identity)
        (update_until point pid d st).rows
unfolding update_until
update_until-IsSound point pid d st p s = at point
  where
    same : All (IsSound st.version st.identity) st.rows
    same =
        All-imp (IsCurrent st.version st.identity) (IsSound st.version st.identity)
          (IsCurrent-IsSound st.version st.identity) st.rows s.current

    fresh : All (IsSound (next_version st.version) d) st.rows
    fresh = bumped-IsSound st d p s.current

    encoded : All (IsEncoded (next_version st.version) d) (rebuilt (length st.rows) d st)
    encoded = encode_first-length (next_version st.version) d st.rows fresh

    sound :
        (rows : List VectorRow)
        → All (IsEncoded (next_version st.version) d) rows
        → All (IsSound (next_version st.version) d) rows
    sound rows =
        All-imp (IsEncoded (next_version st.version) d) (IsSound (next_version st.version) d)
          (λ r e.
            IsCurrent-IsSound (next_version st.version) d r
              (IsEncoded-IsCurrent (next_version st.version) d r e))
          rows

    again : (k : ℕ) → All (IsSound (next_version st.version) d) (repaired k d st)
    again k =
        subst (λ (o : ℕ × List VectorRow). All (IsSound (next_version st.version) d) o.1)
          (sym (
            refresh_first_encoded k (next_version st.version) d (rebuilt (length st.rows) d st)
              encoded))
          (sound (rebuilt (length st.rows) d st) encoded)

    at :
        (q : Point)
        → All
            (IsSound (update_until q pid d st).version (update_until q pid d st).identity)
            (update_until q pid d st).rows
    at started = same
    at flagged = same
    at owned = same
    at bumped = bumped-IsSound st st.identity p s.current
    at owed = bumped-IsSound st st.identity p s.current
    at renamed = bumped-IsSound st (record st.identity { model = d.model }) p s.current
    at retyped = bumped-IsSound st (record d { dimensions = st.identity.dimensions }) p s.current
    at (rebuilding k) = encode_first-All k (next_version st.version) d st.rows fresh
    at (repairing k) = again k
    at paid = again (length st.rows)
    at unflagged = again (length st.rows)
    at finished = again (length st.rows)

pub encoded-IsCurrent :
    (version : ℕ) (identity : Identity) (rows : List VectorRow)
    → All (IsEncoded version identity) rows
    → All (IsCurrent version identity) rows
encoded-IsCurrent version identity =
    All-imp (IsEncoded version identity) (IsCurrent version identity)
      (IsEncoded-IsCurrent version identity)

-- All the rows are encoded when the repair is paid.
repaired-IsEncoded :
    (d : Identity) (st : Vectors)
    → 0 < st.version
    → IsSettled st
    → All (IsEncoded (next_version st.version) d) (repaired (length st.rows) d st)
repaired-IsEncoded d st p s =
    let v = next_version st.version in
    let encoded = encode_first-length v d st.rows (bumped-IsSound st d p s.current) in
    subst (λ (o : ℕ × List VectorRow). All (IsEncoded v d) o.1)
      (sym (refresh_first_encoded (length st.rows) v d (rebuilt (length st.rows) d st) encoded))
      encoded

-- The reader is another process, and the one that died is not alive.
module _ (alive : ℕ → Bool) (self pid : ℕ) (other : self ≢ pid) (dead : alive pid ≡ false) where
  orphaned :
      (st : Vectors)
      → st.reembedding ≡ true
      → st.owner ≡ some pid
      → is_reembedding alive self st
        ≡ (false, record st { reembedding = false; owner = none; repair_pending = true })
  unfolding is_reembedding
  orphaned st f o = ground (arith, f, o, dead, other)

  unowned_flag :
      (st : Vectors)
      → st.reembedding ≡ true
      → st.owner ≡ none
      → is_reembedding alive self st
        ≡ (false, record st { reembedding = false; owner = none; repair_pending = true })
  unfolding is_reembedding
  unowned_flag st f o = ground (arith, f, o)

  unflagged_lem :
      (st : Vectors) → st.reembedding ≡ false → is_reembedding alive self st ≡ (false, st)
  unfolding is_reembedding
  unflagged_lem st f = ground (arith, f)

  -- What the reader sees: the flag is cleared and a repair owed, or nothing is left to do.
  pub data Seen (s : Vectors) : Type 0 where
    to_repair :
        is_reembedding alive self s
          ≡ (false, record s { reembedding = false; owner = none; repair_pending = true })
        → Seen s
    at_rest :
        is_reembedding alive self s ≡ (false, s)
        → s.repair_pending ≡ false
        → s.reembedding ≡ false
        → All (IsCurrent s.version s.identity) s.rows
        → Seen s

  pub update_until-Seen :
      (point : Point) (d : Identity) (st : Vectors)
      → 0 < st.version
      → IsSettled st
      → Seen (update_until point pid d st)
  unfolding update_until
  update_until-Seen started d st p s = at_rest (unflagged_lem st s.ended) s.paid s.ended s.current
  update_until-Seen flagged d st p s =
      to_repair (unowned_flag (record st { reembedding = true }) refl s.unowned)
  update_until-Seen owned d st p s =
      to_repair (orphaned (record st { reembedding = true; owner = some pid }) refl refl)
  update_until-Seen bumped d st p s = to_repair (orphaned (bump pid st) refl refl)
  update_until-Seen owed d st p s = to_repair (orphaned (owe pid st) refl refl)
  update_until-Seen renamed d st p s = to_repair (orphaned _ refl refl)
  update_until-Seen retyped d st p s = to_repair (orphaned _ refl refl)
  update_until-Seen (rebuilding k) d st p s = to_repair (orphaned _ refl refl)
  update_until-Seen (repairing k) d st p s = to_repair (orphaned _ refl refl)
  update_until-Seen paid d st p s = to_repair (orphaned (pay pid d st) refl refl)
  update_until-Seen unflagged d st p s =
      at_rest (unflagged_lem _ refl) refl refl
        (encoded-IsCurrent (next_version st.version) d _ (repaired-IsEncoded d st p s))
  update_until-Seen finished d st p s =
      at_rest (unflagged_lem _ refl) refl refl
        (encoded-IsCurrent (next_version st.version) d _ (repaired-IsEncoded d st p s))
