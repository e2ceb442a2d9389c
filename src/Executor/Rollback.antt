-- ===== src/Executor/Rollback.antt =====
-- A resume that the executor refuses.
use novel_crawler.Prelude.{
  ℕ, suc, String, Bool, true, false, List, [], ◌∷◌, some, ltb, length, ◌≡◌, refl, sym, ap, ◌∙◌, ◌⊎◌,
  inl, inr, arith, Result, ok, err, Bool-cases,
}
use novel_crawler.Task.Status.{
  TaskStatus, waiting_for_user, is_resumable, is_abandoned, is_cleanup, same_status,
  allowed_transitions,
}
use novel_crawler.Task.Python.{Python}
use novel_crawler.Task.Checks.{Limits}
use novel_crawler.Task.Records.{TaskRecord, is_terminal, cleanup_required}
use novel_crawler.Task.Db.{Db, TaskRow, find_task, task_from_row}
use novel_crawler.Task.Repository.{
  Note, get_task, transition, validate_note, transition_row, next_resume_gate, next_resume_status,
}
use novel_crawler.Task.History.{Consistent}
use novel_crawler.Task.Calls.{run}
use novel_crawler.Executor.State.{
  Executor, ExecutorError, executor_closed, executor_queue_full, is_in, put_nowait, discard, pop,
  set,
}
use novel_crawler.Executor.Schedule.{
  Scheduling, is_interrupted, schedule_resumed, resume_found, enqueue,
}
use novel_crawler.Executor.Requests.{Round, because}
use novel_crawler.Executor.Resume.{
  ResumeRound, answered, ended, rollback_options, is_refusal, rollback_round, rollback_attempts,
  settle_rollback, after_schedule, after_transition, resume_read, resume_round, resume,
}
use novel_crawler.Executor.Entering.{
  Enters, enters, parked_kept, parked_running, not_parked, not_over, way_back,
}

module _ (py : Python) (limits : Limits) (id now : String) where
  -- `_schedule_resumed` raises, and leaves the queue alone.
  abbrev Refuses : Executor → Scheduling → Type 0
  Refuses s out =
      (s' : Executor) × (e : ExecutorError) × (out ≡ (s', err e))
      × (is_refusal e ≡ true)
      × (s'.queue ≡ s.queue)

  opened :
      (preclaimed : Bool) (back : TaskStatus) (db : Db) (s : Executor) (r : TaskRecord)
      → s.closing ≡ false
      → get_task py id db ≡ ok r
      → schedule_resumed py id preclaimed back db s ≡ resume_found id preclaimed back s (ok r)
  unfolding schedule_resumed
  opened preclaimed back db s r open_ found = ground arith

  -- Where the queue is full, the mark is taken back.
  abbrev unmark : ℕ → Executor → Executor
  unmark version s = record s {
    scheduled = discard id (id ∷ s.scheduled);
    scheduled_versions = pop id (set id version s.scheduled_versions);
  }

  unmarked :
      (preclaimed : Bool) (back : TaskStatus) (s : Executor) (r : TaskRecord)
      → is_in id s.scheduled ≡ false
      → ltb (length s.queue) s.max_queue_size ≡ false
      → resume_found id preclaimed back s (ok r) ≡ (unmark r.version s, err executor_queue_full)
  unfolding resume_found enqueue put_nowait
  unmarked preclaimed back s r free full = ground arith

  refuses :
      (preclaimed : Bool) (back : TaskStatus) (db : Db) (s : Executor) (r : TaskRecord)
      → get_task py id db ≡ ok r
      → (s.closing ≡ true)
        ⊎ ((is_in id s.scheduled ≡ false) × (ltb (length s.queue) s.max_queue_size ≡ false))
      → Refuses s (schedule_resumed py id preclaimed back db s)
  unfolding schedule_resumed resume_found enqueue put_nowait
  refuses preclaimed back db s r found stop = elim (Bool-cases s.closing) [
    | inl closing ↦ rw closing (_, executor_closed, refl, refl, refl)
    | inr open_ ↦ elim stop [
      | inl closing ↦ let bad : false ≡ true = sym open_ ∙ closing in cc
      | inr (free, full) ↦
          rw (opened preclaimed back db s r open_ found, unmarked preclaimed back s r free full)
            (_, executor_queue_full, refl, refl, refl)
    ]
  ]

  attempts_end :
      (back : TaskStatus) (rounds : ℕ → Round) (n : ℕ) (current : TaskRecord) (db db' : Db)
      (result : Result ExecutorError Unit)
      → rollback_round py limits id now back (rounds n) current db ≡ (db', ended result)
      → rollback_attempts py limits id now back rounds (suc n) current db ≡ (db', result)
  unfolding rollback_attempts
  attempts_end back rounds n current db db' result h =
      rw (rollback_attempts, h, ap (λ p. p.0) h) refl

  module _ (s : Executor) (db : Db) (t : TaskRow) (target : TaskStatus) (claim undo : Note)
      (good : Consistent db) (found : find_task id db.tasks ≡ some t)
      (parked : is_resumable t.status ≡ true) (free : is_cleanup t.resume_gate ≡ false)
      (origin : t.resume_status ≡ some target) (edge : allowed_transitions t.status target ≡ true)
      (kept : is_abandoned target ≡ false) (busy : same_status target waiting_for_user ≡ false)
      (valid : validate_note py limits (because "executor_resume") ≡ ok claim)
      (valid' : validate_note py limits rollback_options ≡ ok undo) where
    forth : Enters py limits id now target (because "executor_resume") claim db t
    forth =
        enters py limits id now target (because "executor_resume") claim db t valid good found
          (record { edge = edge; gate = inl free; origin = inr (inr origin) })

    abbrev resumed : TaskRow
    resumed = transition_row target claim now t

    back : Enters py limits id now t.status rollback_options undo forth.tables resumed
    unfolding transition_row next_resume_gate
    back =
        enters py limits id now t.status rollback_options undo forth.tables resumed valid'
          forth.good forth.found
          (record {
            edge = way_back t.status target parked busy kept edge;
            gate = inl (rw kept free);
            origin = inl (not_parked t.status target parked edge);
          })

    abbrev parked_again : TaskRow
    parked_again = transition_row t.status undo now resumed

    restored :
        (find_task id back.tables.tasks ≡ some parked_again)
        × (parked_again.status ≡ t.status)
        × (parked_again.resume_status ≡ t.resume_status)
        × (parked_again.resume_gate ≡ t.resume_gate)
        × (parked_again.version ≡ suc (suc t.version))
    unfolding transition_row next_resume_gate next_resume_status
    restored = (
      back.found,
      refl,
      rw parked (sym origin),
      rw (parked_kept t.status parked, kept) refl,
      refl,
    )

    abbrev still : ℕ → Round
    still n = record { before_write = []; before_reread = [] }

    abbrev quiet : ResumeRound
    quiet = record { before_write = []; before_schedule = []; rollback = still }

    round_back :
        rollback_round py limits id now t.status (still 7) (task_from_row py resumed) forth.tables
        ≡ (back.tables, ended (ok tt))
    unfolding rollback_round settle_rollback run task_from_row transition_row
    round_back =
        rw (not_over t.status target parked kept edge, not_parked t.status target parked edge)
          (rw back.outcome refl)

    rolls_back :
        rollback_attempts py limits id now t.status still 8 (task_from_row py resumed) forth.tables
        ≡ (back.tables, ok tt)
    rolls_back =
        attempts_end t.status still 7 (task_from_row py resumed) forth.tables back.tables (ok tt)
          round_back

    read_resumed : get_task py id forth.tables ≡ ok (task_from_row py resumed)
    unfolding get_task
    read_resumed = rw forth.found refl

    scheduled_back :
        (out : Scheduling)
        → Refuses s out
        → (s' : Executor) × (e : ExecutorError) × (after_schedule py limits id now quiet t.status
              (task_from_row py resumed)
              forth.tables
              out
            ≡ (back.tables, s', answered (err e)))
          × (is_refusal e ≡ true)
          × (s'.queue ≡ s.queue)
    unfolding after_schedule
    scheduled_back out (s', e, raised, refused, kept_queue) = (
      s',
      e,
      rw (raised, after_schedule, rolls_back, refused)
          (ap (λ o. (back.tables, o.0, answered (err e))) raised),
      refused,
      kept_queue,
    )

    abbrev asked : Scheduling
    asked = schedule_resumed py id (is_interrupted target) t.status forth.tables s

    after_claim :
        after_transition py limits id now quiet t.status s
          (transition py limits id target t.version (because "executor_resume") now db)
        ≡ after_schedule py limits id now quiet t.status
            (task_from_row py resumed)
            forth.tables
            asked
    unfolding after_transition run task_from_row transition_row
    after_claim = rw (forth.outcome) (rw busy refl)

    round_claim :
        resume_round py limits id now quiet s db
        ≡ after_transition py limits id now quiet t.status s
            (transition py limits id target t.version (because "executor_resume") now db)
    unfolding resume_round resume_read get_task is_terminal cleanup_required task_from_row run
    round_claim = rw found (rw (parked_running t.status parked, parked, free, origin) refl)

    resume_ends :
        (rounds : List ResumeRound) (s' : Executor) (db' : Db) (r : Result ExecutorError TaskRecord)
        → resume_round py limits id now quiet s db ≡ (db', s', answered r)
        → resume py limits id now (quiet ∷ rounds) s db ≡ (db', s', answered r)
    unfolding resume
    resume_ends rounds s' db' r h = rw (resume, h, ap (λ p. p.0) h, ap (λ p. p.1) h) refl

    resume_back :
        (rounds : List ResumeRound)
        → (s.closing ≡ true)
          ⊎ ((is_in id s.scheduled ≡ false) × (ltb (length s.queue) s.max_queue_size ≡ false))
        → (s' : Executor) × (e : ExecutorError) × (resume py limits id now (quiet ∷ rounds) s db
            ≡ (back.tables, s', answered (err e)))
          × (is_refusal e ≡ true)
          × (s'.queue ≡ s.queue)
    resume_back rounds stop =
        let (s', e, raised, refused, kept_queue) = scheduled_back asked (
          refuses (is_interrupted target) t.status forth.tables s (task_from_row py resumed)
            read_resumed stop) in
        (
          s',
          e,
          resume_ends rounds s' back.tables (err e) (round_claim ∙ (after_claim ∙ raised)),
          refused,
          kept_queue,
        )

    -- `resume` of a parked task whose gate is open, which goes back to a status other than
    -- WAITING_FOR_USER, raises ExecutorClosed or ExecutorQueueFull where the executor is closed, or its
    -- queue is full and the task is not scheduled. The queue is then as it was, and the task is parked
    -- as before, to be resumed to the same status, two versions later; no other writer acts meanwhile.
    pub resume_rolls_back :
        (rounds : List ResumeRound)
        → (s.closing ≡ true)
          ⊎ ((is_in id s.scheduled ≡ false) × (ltb (length s.queue) s.max_queue_size ≡ false))
        → (s' : Executor) × (e : ExecutorError) × (db' : Db) × (t' : TaskRow) × (resume py limits id
              now
              (quiet ∷ rounds)
              s
              db
            ≡ (db', s', answered (err e)))
          × (is_refusal e ≡ true)
          × (s'.queue ≡ s.queue)
          × (find_task id db'.tasks ≡ some t')
          × (t'.status ≡ t.status)
          × (t'.resume_status ≡ t.resume_status)
          × (t'.resume_gate ≡ t.resume_gate)
          × (t'.version ≡ suc (suc t.version))
    resume_rolls_back rounds stop =
        let (s', e, raised, refused, kept_queue) = resume_back rounds stop in
        (
          s', e, back.tables, parked_again, raised, refused, kept_queue, restored.0, restored.1,
          restored.2, restored.3, restored.4,
        )
