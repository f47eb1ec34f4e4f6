-- ===== src/Service/Queue/Bounded.antt =====
-- The length of the queue.
use ragger_cpp.Prelude.{
  Bool-cases, Bytes, List, Option, [], ap, arith, inl, inr, leb, length, length-append, not, null,
  refl, suc, true, ℕ, ℤ, ◌+◌, ◌<◌, ◌||◌, ◌∷◌, ◌≡◌, ◌≤◌,
}
use ragger_cpp.Service.Queue.{
  Job, l2_turn, Scan, resting, turns, resetting, closes, Service, enqueue_turn, catch_up_cap,
  turn_jobs, close_jobs, reset_step, scan_start, scan_in, work_on, Step, live, scans, works, Reach,
  here, next,
}
use ragger_cpp.Service.Turn.{TurnJob, Inference, Setting, State}
use ragger_cpp.Sqlite.Turns.Sorting.{unsummarized_turns_lem}
use ragger_cpp.Sqlite.Turns.{Store, TurnRow, unsummarized_turns}

length-turn_jobs : (ts : List TurnRow) → length (turn_jobs ts) ≤ length ts
unfolding turn_jobs
length-turn_jobs [] = omega arith
length-turn_jobs (t ∷ ts) = ground (arith, length-turn_jobs ts)

length-close_jobs : (gs : List Bytes) → length (close_jobs gs) ≡ length gs
unfolding close_jobs
length-close_jobs [] = refl
length-close_jobs (g ∷ gs) = ap suc (length-close_jobs gs)

-- The length of the queue with what the running scan has still to add.
abbrev pub IsBounded : ℕ → ℕ → ℕ → Scan → Type 0
IsBounded cap sessions n resting = n ≤ 1000 + cap + sessions
IsBounded cap sessions n (turns js) = (n + length js ≤ 1000 + cap) × (length js ≤ cap)
IsBounded cap sessions n resetting = n ≤ 1000 + cap
IsBounded cap sessions n (closes js) =
    (n + length js ≤ 1000 + cap + sessions) × (length js ≤ sessions)

module _ (c : Setting) (batch_size : ℤ) (needing_close : Store → List Bytes)
    (close : Option Inference → Bytes → State → State) (sessions : ℕ)
    (few : (st : Store) → length (needing_close st) ≤ sessions) where
  abbrev Bounded : Service → Type 0
  Bounded sv = IsBounded (catch_up_cap batch_size) sessions (length sv.queue) sv.scan

  IsBounded-suc :
      (n : ℕ) (scan : Scan)
      → n < 1000
      → IsBounded (catch_up_cap batch_size) sessions n scan
      → IsBounded (catch_up_cap batch_size) sessions (n + 1) scan
  IsBounded-suc n resting h b = omega arith
  IsBounded-suc n (turns js) h b = omega arith
  IsBounded-suc n resetting h b = omega arith
  IsBounded-suc n (closes js) h b = omega arith

  IsBounded-less :
      (n : ℕ) (scan : Scan)
      → IsBounded (catch_up_cap batch_size) sessions (suc n) scan
      → IsBounded (catch_up_cap batch_size) sessions n scan
  IsBounded-less n resting b = omega arith
  IsBounded-less n (turns js) b = omega arith
  IsBounded-less n resetting b = omega arith
  IsBounded-less n (closes js) b = omega arith

  enqueue_turn-Bounded : (sv : Service) (j : TurnJob) → Bounded sv → Bounded (enqueue_turn sv j)
  unfolding enqueue_turn
  enqueue_turn-Bounded sv j b = elim (Bool-cases (not sv.running || null j.assistant_text)) [
    | inl e ↦ rw e b
    | inr e ↦ rw e (elim (Bool-cases (leb 1000 (length sv.queue))) [
      | inl f ↦ rw f b
      | inr f ↦ rw f (
          rw (length-append sv.queue (l2_turn j ∷ []))
            (IsBounded-suc (length sv.queue) sv.scan (ground arith) b))
    ])
  ]

  scan_start-Bounded : (sv : Service) → Bounded sv → Bounded (scan_start batch_size sv)
  unfolding scan_start
  scan_start-Bounded sv b = elim (Bool-cases (null sv.queue)) [
    | inr e ↦ rw e b
    | inl e ↦
        let found = unsummarized_turns sv.state.store (catch_up_cap batch_size) in
        rw e (
          omega (
            arith,
            (unsummarized_turns_lem sv.state.store (catch_up_cap batch_size)).2,
            length-turn_jobs found,
            empty sv.queue e,
          ))
  ]
    where
      empty : (q : List Job) → null q ≡ true → length q ≡ 0
      empty [] h = refl
      empty (j ∷ q) h = cc

  scan_in-Bounded :
      (now : ℕ) (sv : Service) (scan : Scan)
      → sv.scan ≡ scan
      → Bounded sv
      → Bounded (scan_in batch_size needing_close now sv scan)
  unfolding scan_in
  scan_in-Bounded now sv resting e b = scan_start-Bounded sv b
  scan_in-Bounded now sv (turns []) e b = omega (arith, rw e at b)
  scan_in-Bounded now sv (turns (j ∷ js)) e b =
      omega (arith, rw e at b, length-append sv.queue (j ∷ []))
  scan_in-Bounded now sv resetting e b =
      let st = (reset_step (catch_up_cap batch_size) now sv.state).store in
      omega (arith, rw e at b, length-close_jobs (needing_close st), few st)
  scan_in-Bounded now sv (closes []) e b = omega (arith, rw e at b)
  scan_in-Bounded now sv (closes (j ∷ js)) e b =
      omega (arith, rw e at b, length-append sv.queue (j ∷ []))

  work_on-Bounded :
      (inf : Option Inference) (sv : Service) (js : List Job)
      → sv.queue ≡ js
      → Bounded sv
      → Bounded (work_on c inf close sv js)
  unfolding work_on
  work_on-Bounded inf sv [] e b = b
  work_on-Bounded inf sv (j ∷ js) e b = elim (Bool-cases sv.running) [
    | inl on ↦ rw on (IsBounded-less (length js) sv.scan (rw e at b))
    | inr off ↦ rw off b
  ]

  Step-Bounded :
      {sv sv' : Service} → Step c batch_size needing_close close sv sv' → Bounded sv → Bounded sv'
  Step-Bounded (live sv j) b = enqueue_turn-Bounded sv j b
  Step-Bounded (scans sv now) b = scan_in-Bounded now sv sv.scan refl b
  Step-Bounded (works sv inf) b = work_on-Bounded inf sv sv.queue refl b

  Reach-Bounded :
      {first sv : Service}
      → Bounded first
      → Reach c batch_size needing_close close first sv
      → Bounded sv
  Reach-Bounded b here = b
  Reach-Bounded b (next r st) = Step-Bounded st (Reach-Bounded b r)

  Bounded-length :
      (sv : Service) → Bounded sv → length sv.queue ≤ 1000 + catch_up_cap batch_size + sessions
  Bounded-length sv b = of_scan (length sv.queue) sv.scan b
    where
      of_scan :
          (n : ℕ) (scan : Scan)
          → IsBounded (catch_up_cap batch_size) sessions n scan
          → n ≤ 1000 + catch_up_cap batch_size + sessions
      of_scan n resting b = b
      of_scan n (turns js) b = omega arith
      of_scan n resetting b = omega arith
      of_scan n (closes js) b = omega arith

  -- Started with an empty queue and no scan running, and if `episodes_needing_close` names
  -- so many sessions at most, in every interleaving of live turns, scans and work the queue
  -- holds at most 1000 jobs, one batch of the scan and one job for each of those sessions.
  pub Reach-queue_bounded :
      {first sv : Service}
      → first.queue ≡ []
      → first.scan ≡ resting
      → Reach c batch_size needing_close close first sv
      → length sv.queue ≤ 1000 + catch_up_cap batch_size + sessions
  Reach-queue_bounded {first} {sv} q e r =
      Bounded-length sv (Reach-Bounded (rw (q, e) (omega arith)) r)
