-- ===== src/Tests/Capture.antt =====
-- Captured turns at a small log.
use ragger_cpp.Prelude.{
  Bytes, [], arith, codes, equal, false, find, none, null, refl, some, starts_with, true, ◌∷◌, ◌≡◌,
}
use ragger_cpp.Sqlite.Capture.Again.{store_turn-again}
use ragger_cpp.Sqlite.Capture.Kept.{store_turn_lem}
use ragger_cpp.Sqlite.Capture.Corrections.{update_turn_meta}
use ragger_cpp.Sqlite.Capture.Spans.Sessions.{IsSpanned}
use ragger_cpp.Sqlite.Capture.Spans.Steps.{here, then_step, stores, corrects, Reach-IsSpanned}
use ragger_cpp.Sqlite.Capture.Rows.{AllGrown, HasTurn, Rising}
use ragger_cpp.Sqlite.Capture.{CapturedTurn, Session, Log, Exchange, store_turn}
use ragger_cpp.Sqlite.Knowledge.{Writer}
use ragger_cpp.Sqlite.Paths.{normalize_path}

abbrev capturer : Writer
capturer = record {
  home = record { enabled = false; dir = [] };
  strip_prefix = λ s. s;
  epoch = λ s. 7;
  parses = λ s. true;
  encodes = λ s. true;
}

abbrev said : Bytes → CapturedTurn
said text = record {
  turn_id = 1;
  model = none;
  session_id = some 1;
  user_text = codes "go on";
  assistant_text = text;
  embedded = true;
  created_at = 100;
}

abbrev chat : Session
chat = record {
  session_id = 1;
  guid = codes "g";
  name = none;
  name_source = none;
  started_on = some 100;
  ended_on = some 100;
}

abbrev log_of : Bytes → Log
log_of text = record {
  turns = said text ∷ [];
  last_turn = 1;
  sessions = chat ∷ [];
  last_session = 1;
  models = [];
}

-- The second part of a reply, two minutes later.
abbrev part : Exchange
part = record {
  user = codes "go on";
  assistant = codes "two";
  model_name = [];
  defer_embedding = false;
  session_guid = codes "g";
  source_timestamp = [];
  session_name = [];
  name_source = [];
}

part_stored :
    store_turn capturer 220 (log_of (codes "one")) part ≡ some (1, log_of (codes "one\n\ntwo"))
unfolding store_turn ragger_cpp.Sqlite.Capture.probe ragger_cpp.Sqlite.Capture.get_or_create_session
    ragger_cpp.Sqlite.Capture.find_guid ragger_cpp.Prelude.equal normalize_path
    ragger_cpp.Sqlite.Capture.newest_turn ragger_cpp.Sqlite.Capture.is_same_exchange
    ragger_cpp.Sqlite.Capture.merge_turn ragger_cpp.Sqlite.Capture.merge_text
    ragger_cpp.Prelude.starts_with ragger_cpp.Prelude.find ragger_cpp.Sqlite.Capture.update_turn
    ragger_cpp.Sqlite.Knowledge.get_or_create_model
part_stored = refl

store_turn_lem_example :
    AllGrown (log_of (codes "one")).turns (log_of (codes "one\n\ntwo")).turns
    × HasTurn 1
        (normalize_path capturer.home (codes "go on"))
        (normalize_path capturer.home (codes "two"))
        (log_of (codes "one\n\ntwo")).turns
    × Rising 0 (log_of (codes "one\n\ntwo")).turns 1
store_turn_lem_example =
    store_turn_lem capturer 220 (log_of (codes "one")) (log_of (codes "one\n\ntwo")) part 1
      (omega arith) part_stored

not_empty : null (normalize_path capturer.home part.assistant) ≡ false
unfolding normalize_path
not_empty = refl

store_turn-again_example :
    (st'' : Log) × (store_turn capturer 220 (log_of (codes "one\n\ntwo")) part ≡ some (1, st''))
    × (st''.turns ≡ (log_of (codes "one\n\ntwo")).turns)
store_turn-again_example =
    store_turn-again capturer 220 (log_of (codes "one")) (log_of (codes "one\n\ntwo")) part 1
      (omega arith) refl not_empty refl part_stored

-- The session that the turn leaves has no span left; the one that it joins has its new time.
abbrev corrected : Log
corrected = record {
  turns = record (said (codes "one\n\ntwo")) { session_id = some 2; created_at = 7 } ∷ [];
  last_turn = 1;
  sessions =
      record chat { started_on = none; ended_on = none }
      ∷ record {
        session_id = 2;
        guid = codes "h";
        name = none;
        name_source = none;
        started_on = some 7;
        ended_on = some 7;
      }
      ∷ [];
  last_session = 2;
  models = [];
}

correction :
    update_turn_meta capturer (log_of (codes "one\n\ntwo")) 1 (codes "earlier") (codes "h")
    ≡ some (true, corrected)
unfolding update_turn_meta ragger_cpp.Sqlite.Capture.get_or_create_session
    ragger_cpp.Sqlite.Capture.find_guid ragger_cpp.Prelude.equal
    ragger_cpp.Sqlite.Capture.Corrections.move_turn ragger_cpp.Sqlite.Capture.Corrections.session_of
    ragger_cpp.Sqlite.Capture.Corrections.recompute_new
    ragger_cpp.Sqlite.Capture.Corrections.set_span ragger_cpp.Sqlite.Capture.Corrections.min_created
    ragger_cpp.Sqlite.Capture.Corrections.max_created
correction = refl

Reach-IsSpanned_example : IsSpanned corrected
Reach-IsSpanned_example =
    Reach-IsSpanned capturer (log_of (codes "one")) corrected
      (then_step (then_step here (stores 220 1 part part_stored))
        (corrects 1 (codes "earlier") (codes "h") true correction))
      ((((λ f. (omega arith, omega arith)), tt), tt), (omega arith, tt), (omega arith, tt))
