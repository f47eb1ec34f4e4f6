-- ===== src/Service/Queue/Finished.antt =====
-- The results of work, through the interleavings of the threads.
use ragger_cpp.Prelude.{
  Bool-cases, Bytes, List, Option, [], inl, inr, leb, length, not, null, some, ℕ, ℤ, ◌||◌, ◌∷◌, ◌≡◌,
}
use ragger_cpp.Service.Boundaries.{Float}
use ragger_cpp.Service.Episode.{CloseSetting, handle_episode_close}
use ragger_cpp.Service.Queue.Closing.{Blobs, archive_of, put_members, close_session}
use ragger_cpp.Service.Queue.{
  Job, l2_turn, episode_close, Scan, resting, turns, resetting, closes, Service, enqueue_turn,
  catch_up_cap, reset_step, after_reset, scan_start, scan_in, run_job, work_on, live, scans, works,
  Reach, here, next,
}
use ragger_cpp.Service.Turn.Settled.{handle_l2-Held, handle_l2-exists}
use ragger_cpp.Service.Turn.{TurnJob, Inference, Setting, State, handle_l2}
use ragger_cpp.Sqlite.Episodes.{MemberRow}
use ragger_cpp.Sqlite.Turns.Rows.{
  Held, Held-any_covers, IsFinished, reset_abandoned_turn_summaries-Held,
}
use ragger_cpp.Sqlite.Turns.{SummaryRow, Store, turn_summary_exists}
use ragger_cpp.Util.Backoff.{due}

put_members-Held :
    (r : SummaryRow) (ms : List MemberRow) (rows : List SummaryRow)
    → Held r rows
    → Held r (put_members ms rows)
unfolding put_members
put_members-Held r [] rows h = h
put_members-Held r (m ∷ ms) [] h = h
put_members-Held r (m ∷ ms) (q ∷ rows) (inl same) = inl same
put_members-Held r (m ∷ ms) (q ∷ rows) (inr h) = inr (put_members-Held r ms rows h)

module _ {W : Type 0} ⦃f : Float W⦄ (c : Setting) (cs : CloseSetting W) (b : Blobs) (batch_size : ℤ)
    (needing_close : Store → List Bytes) (r : SummaryRow) (finished : IsFinished r) where
  abbrev Holds : Service → Type 0
  Holds sv = Held r sv.state.store.summaries

  reset_step-Held :
      (limit now : ℕ) (s : State)
      → Held r s.store.summaries
      → Held r (reset_step limit now s).store.summaries
  unfolding reset_step after_reset
  reset_step-Held limit now s h = elim (Bool-cases (due s.backoff now)) [
    | inl e ↦ rw e (reset_abandoned_turn_summaries-Held r s.store limit finished h)
    | inr e ↦ rw e h
  ]

  scan_in-Holds :
      (now : ℕ) (sv : Service) (scan : Scan)
      → Holds sv
      → Holds (scan_in batch_size needing_close now sv scan)
  unfolding scan_in scan_start
  scan_in-Holds now sv resting h = elim (Bool-cases (null sv.queue)) [
    | inl e ↦ rw e h
    | inr e ↦ rw e h
  ]
  scan_in-Holds now sv (turns []) h = h
  scan_in-Holds now sv (turns (j ∷ js)) h = h
  scan_in-Holds now sv resetting h = reset_step-Held (catch_up_cap batch_size) now sv.state h
  scan_in-Holds now sv (closes []) h = h
  scan_in-Holds now sv (closes (j ∷ js)) h = h

  run_job-Held :
      (inf : Option Inference) (s : State) (j : Job)
      → Held r s.store.summaries
      → Held r (run_job c inf (close_session cs b) s j).store.summaries
  unfolding run_job close_session
  run_job-Held inf s (l2_turn j) h = handle_l2-Held r c inf s j h
  run_job-Held inf s (episode_close guid) h =
      put_members-Held r (handle_episode_close cs inf (archive_of b s) guid).0.members
        s.store.summaries h

  work_on-Holds :
      (inf : Option Inference) (sv : Service) (js : List Job)
      → Holds sv
      → Holds (work_on c inf (close_session cs b) sv js)
  unfolding work_on
  work_on-Holds inf sv [] h = h
  work_on-Holds inf sv (j ∷ js) h = elim (Bool-cases sv.running) [
    | inl on ↦ rw on (run_job-Held inf sv.state j h)
    | inr off ↦ rw off h
  ]

  enqueue_turn-Holds : (sv : Service) (j : TurnJob) → Holds sv → Holds (enqueue_turn sv j)
  unfolding enqueue_turn
  enqueue_turn-Holds sv j h = elim (Bool-cases (not sv.running || null j.assistant_text)) [
    | inl e ↦ rw e h
    | inr e ↦
        rw e (elim (Bool-cases (leb 1000 (length sv.queue))) [ inl g ↦ rw g h | inr g ↦ rw g h ])
  ]

  Reach-Holds :
      {first sv : Service}
      → Holds first
      → Reach c batch_size needing_close (close_session cs b) first sv
      → Holds sv
  Reach-Holds h here = h
  Reach-Holds h (next p (live sv j)) = enqueue_turn-Holds sv j (Reach-Holds h p)
  Reach-Holds h (next p (scans sv now)) = scan_in-Holds now sv sv.scan (Reach-Holds h p)
  Reach-Holds h (next p (works sv inf)) = work_on-Holds inf sv sv.queue (Reach-Holds h p)

  -- If a row of `turn_summaries` for the turn of a job has a text, and the text is not empty
  -- where the model is 'bad', then in every state that live turns, catch-up scans with their
  -- resets, turn jobs and episode closings reach in any order, the row is still there,
  -- unchanged but for its episode; and the job, run then, changes nothing. The endpoint may
  -- come and go between the steps.
  pub Reach-finished :
      {first sv : Service} (j : TurnJob) (inf : Option Inference)
      → r.source_turn ≡ some j.turn_id
      → Held r first.state.store.summaries
      → Reach c batch_size needing_close (close_session cs b) first sv
      → Held r sv.state.store.summaries × ((handle_l2 c inf sv.state j).0 ≡ sv.state)
  unfolding turn_summary_exists
  Reach-finished {first} {sv} j inf e h p =
      let kept = Reach-Holds h p in
      (kept, handle_l2-exists c inf sv.state j (Held-any_covers r j.turn_id _ e kept))
