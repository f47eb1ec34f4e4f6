-- ===== src/Sqlite/Turns.antt =====
-- The tables `turns` and `turn_summaries`, and their statements in src/sqlite/write.cpp. A model is
-- its name (the names in `models` are unique), `none` where the id is NULL. Failures of the database
-- itself, the text index and `summarized_on` are left out.
pub mod Sorting
pub mod Rows
pub mod Pending
use ragger_cpp.Prelude.{
  Bool, Bytes, List, Option, [], codes, equal, false, if◌then◌else◌, ltb, none, not, null, some,
  suc, take, true, zero, ℕ, ◌&&◌, ◌++◌, ◌+◌, ◌==◌, ◌||◌, ◌∷◌,
}
use ragger_cpp.Sqlite.Paths.{Home, normalize_path}

pub record TurnRow : Type 0 where
  pub turn_id : ℕ
  pub user_text : Bytes
  pub assistant_text : Option Bytes
  pub turn_model : Option Bytes
  pub turn_session : Option ℕ
  pub created_at : ℕ

pub record SummaryRow : Type 0 where
  pub turn_summary_id : ℕ
  pub text : Option Bytes
  pub source_turn : Option ℕ
  pub session_id : Option ℕ
  pub source_model : Option Bytes
  pub summary_model : Option Bytes
  pub turn_datetime : ℕ
  pub embedded : Bool
  pub episode_id : Option ℕ

-- `last_id` is the AUTOINCREMENT counter of `turn_summaries`.
pub record Store : Type 0 where
  pub turns : List TurnRow
  pub summaries : List SummaryRow
  pub last_id : ℕ

abbrev pub holds_id : ℕ → Option ℕ → Bool
holds_id n none = false
holds_id n (some m) = m == n

-- `ts.turn_id = turn_id`
abbrev pub covers : ℕ → SummaryRow → Bool
covers turn_id r = holds_id turn_id r.source_turn

unfoldable pub any_covers : ℕ → List SummaryRow → Bool
any_covers turn_id [] = false
any_covers turn_id (r ∷ rows) = covers turn_id r || any_covers turn_id rows

unfoldable pub turn_summary_exists : Store → ℕ → Bool
turn_summary_exists st turn_id = any_covers turn_id st.summaries

unfoldable pub find_turn : ℕ → List TurnRow → Option TurnRow
find_turn turn_id [] = none
find_turn turn_id (t ∷ ts) = if t.turn_id == turn_id then some t else find_turn turn_id ts

-- The new row of a turn. Its id is set by the insertion.
abbrev pub summary_of : TurnRow → Bytes → Option Bytes → Bool → SummaryRow
summary_of t text model embedded = record {
  turn_summary_id = 0;
  text = some text;
  source_turn = some t.turn_id;
  session_id = t.turn_session;
  source_model = t.turn_model;
  summary_model = model;
  turn_datetime = t.created_at;
  embedded = embedded;
  episode_id = none;
}

-- INSERT under the unique index on `turn_id` of src/sqlite/ddl.h: the database refuses, false and no
-- change, where the turn has a row.
pub insert_summary : Store → TurnRow → SummaryRow → Bool × Store
unfolding turn_summary_exists
insert_summary st t row = if turn_summary_exists st t.turn_id then (false, st) else (
  true,
  record st {
    summaries = st.summaries ++ record row { turn_summary_id = st.last_id + 1 } ∷ [];
    last_id = st.last_id + 1;
  },
)

-- `get_or_create_model` gives 0 for the empty name only.
pub mark_turn_summarized : Store → ℕ → Bytes → Bool × Store
unfolding insert_summary
mark_turn_summarized st turn_id model_name =
    if null model_name then (false, st) else elim (find_turn turn_id st.turns) [
      | none ↦ (false, st)
      | some t ↦ insert_summary st t (summary_of t [] (some model_name) false)
    ]

abbrev pub name_or_null : Bytes → Option Bytes
name_or_null [] = none
name_or_null (c ∷ s) = some (c ∷ s)

-- `encodes` says whether the embedder can encode a text; it throws, here `none`, where it cannot.
pub finalize_turn_summary :
    Home → (Bytes → Bool) → Store → ℕ → Bytes → Bytes → Option (Bool × Store)
unfolding insert_summary
finalize_turn_summary home encodes st turn_id text model_name =
    let t = normalize_path home text in
    if not (encodes t)
    then none
    else some (elim (find_turn turn_id st.turns) [
      | none ↦ (false, st)
      | some turn ↦ insert_summary st turn (summary_of turn t (name_or_null model_name) true)
    ])

-- The rows that the reset selects: 'bad' markers, and rows with no text, of a turn that is still there.
unfoldable pub is_abandoned : SummaryRow → Bool
is_abandoned r = elim r.source_turn [
  | none ↦ false
  | some _ ↦ elim r.summary_model [
    | none ↦ false
    | some model ↦ elim r.text [ none ↦ true | some text ↦ equal model (codes "bad") && null text ]
  ]
]

-- Drop the first `limit` abandoned rows in the order of their ids, which is the table's order.
pub drop_abandoned : ℕ → List SummaryRow → ℕ × List SummaryRow
drop_abandoned limit [] = (0, [])
drop_abandoned zero (r ∷ rows) = (0, r ∷ rows)
drop_abandoned (suc limit) (r ∷ rows) =
    let taken = drop_abandoned limit rows in
    let kept = drop_abandoned (suc limit) rows in
    if is_abandoned r then (suc taken.0, taken.1) else (kept.0, r ∷ kept.1)

-- For a limit that is positive, which is what the service passes. The count is of the rows deleted.
pub reset_abandoned_turn_summaries : Store → ℕ → ℕ × Store
unfolding drop_abandoned
reset_abandoned_turn_summaries st limit =
    let (n, rows) = drop_abandoned limit st.summaries in (n, record st { summaries = rows })

-- WHERE ts.turn_id IS NULL AND t.assistant_text IS NOT NULL
unfoldable pub is_pending : List SummaryRow → TurnRow → Bool
is_pending rows t =
    not (any_covers t.turn_id rows) && elim t.assistant_text [ none ↦ false | some _ ↦ true ]

-- ORDER BY t.created_at DESC, t.turn_id DESC
unfoldable pub is_newer : TurnRow → TurnRow → Bool
is_newer a b =
    ltb b.created_at a.created_at || (a.created_at == b.created_at && ltb b.turn_id a.turn_id)

unfoldable pub insert_sorted : TurnRow → List TurnRow → List TurnRow
insert_sorted t [] = t ∷ []
insert_sorted t (u ∷ us) = if is_newer u t then u ∷ insert_sorted t us else t ∷ u ∷ us

unfoldable pub pending_turns : List SummaryRow → List TurnRow → List TurnRow
pending_turns rows [] = []
pending_turns rows (t ∷ ts) =
    let rest = pending_turns rows ts in if is_pending rows t then insert_sorted t rest else rest

-- For a limit that is positive, which is what the service passes.
unfoldable pub unsummarized_turns : Store → ℕ → List TurnRow
unsummarized_turns st limit = take limit (pending_turns st.summaries st.turns)
