-- ===== src/Service/Queue/Closing.antt =====
-- `handle_episode_close` as a job of the queue: it works on the tables of the other jobs.
use ragger_cpp.Prelude.{Bytes, List, Option, [], map, ◌∷◌}
use ragger_cpp.Service.Boundaries.{Float}
use ragger_cpp.Service.Episode.{CloseSetting, handle_episode_close}
use ragger_cpp.Service.Turn.{Inference, State}
use ragger_cpp.Sqlite.Episodes.{MemberRow, SourceTurn, Archive}
use ragger_cpp.Sqlite.Turns.{TurnRow, SummaryRow}

-- The columns `embedding` of `turns` and `turn_summaries`, which the rows here do not carry.
pub record Blobs : Type 0 where
  pub blob_of_turn : TurnRow → Option Bytes
  pub blob_of_summary : SummaryRow → Option Bytes

abbrev pub member_row : Blobs → SummaryRow → MemberRow
member_row b r = record {
  turn_summary_id = r.turn_summary_id;
  member_text = r.text;
  member_session = r.session_id;
  member_of = r.episode_id;
  member_turn = r.source_turn;
  turn_datetime = r.turn_datetime;
  summary_blob = b.blob_of_summary r;
}

abbrev pub source_turn : Blobs → TurnRow → SourceTurn
source_turn b t = record {
  turn_id = t.turn_id;
  turn_session = t.turn_session;
  assistant_text = t.assistant_text;
  created_at = t.created_at;
  turn_blob = b.blob_of_turn t;
}

-- What closing an episode reads of the tables.
abbrev pub archive_of : Blobs → State → Archive
archive_of b s = record {
  sessions = s.sessions;
  turns = map (source_turn b) s.store.turns;
  members = map (member_row b) s.store.summaries;
  episodes = s.episodes;
  last_episode = s.last_episode;
  cached = s.cached;
}

-- The column `episode_id`, the one that closing writes; rows are neither added nor moved by it.
unfoldable pub put_members : List MemberRow → List SummaryRow → List SummaryRow
put_members [] rows = rows
put_members (m ∷ ms) [] = []
put_members (m ∷ ms) (r ∷ rows) = record r { episode_id = m.member_of } ∷ put_members ms rows

abbrev pub put_archive : Archive → State → State
put_archive a s = record s {
  store = record s.store { summaries = put_members a.members s.store.summaries };
  episodes = a.episodes;
  last_episode = a.last_episode;
  cached = a.cached;
}

unfoldable pub close_session :
    {W : Type 0} → ⦃f : Float W⦄ → CloseSetting W → Blobs → Option Inference → Bytes → State → State
close_session c b inf guid s = put_archive (handle_episode_close c inf (archive_of b s) guid).0 s
