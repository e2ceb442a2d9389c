-- ===== src/Executor/Cancel.antt =====
-- `cancel` against other writers.
use novel_crawler.Prelude.{
  ℕ, String, true, false, List, [], ◌∷◌, some, ◌≡◌, refl, ap, arith, ok, err, Bool-cases, inl, inr,
  ◌⊎◌, ◌=?◌, =?→eq,
}
use novel_crawler.Task.Status.{
  TaskStatus, cancelled, is_terminal_status, same_status, allowed_transitions,
}
use novel_crawler.Task.Python.{Python}
use novel_crawler.Task.Checks.{Limits}
use novel_crawler.Task.Records.{TaskRecord, task_version_conflict, is_terminal}
use novel_crawler.Task.Db.{Db, TaskRow, find_task, task_from_row, transaction}
use novel_crawler.Task.Repository.{
  Note, get_task, transition, validate_note, transition_guards, transition_row, apply_transition,
}
use novel_crawler.Task.History.{Consistent}
use novel_crawler.Task.Calls.{Call, run}
use novel_crawler.Task.Runs.{run-Consistent_from}
use novel_crawler.Task.Growth.{run-Later}
use novel_crawler.Task.Transition.{MayEnter, MayEnter-guards, IsMade-of}
use novel_crawler.Executor.Requests.{
  Round, Answer, done, again, because, request_reason, is_settled, settle, request_found,
  request_round, request_status, cancel,
}

stale_outcome :
    (py : Python) (limits : Limits) (id : String) (to : TaskStatus) (v : ℕ) (now : String) (db : Db)
    (t : TaskRow) (note : Note)
    → validate_note py limits (because (request_reason to)) ≡ ok note
    → find_task id db.tasks ≡ some t
    → (t.version =? v) ≡ false
    → transition py limits id to v (because (request_reason to)) now db
      ≡ (db, err task_version_conflict)
unfolding transition apply_transition transition_guards transaction
stale_outcome py limits id to v now db t note valid found other = rw (valid, found, other)

may_be_cancelled : (t : TaskRow) → is_terminal_status t.status ≡ false → MayEnter t cancelled
unfolding allowed_transitions
may_be_cancelled t running = record {
  edge = ground arith;
  gate = inr refl;
  origin = inr (inl refl);
}

not_cancelled : (s : TaskStatus) → is_terminal_status s ≡ false → same_status s cancelled ≡ false
not_cancelled s h = ground arith

-- A round that ends with a task that is over.
abbrev Ends : Db × Answer → Type 0
Ends answer = (db : Db) × (r : TaskRecord) × (answer ≡ (db, done (ok r))) × (is_terminal r ≡ true)

-- A round that `cancel` may meet: it ends so, or goes on over tables that have the task.
abbrev Settles : String → Db × Answer → Type 0
Settles id answer =
    Ends answer
    ⊎ ((db : Db) × (t : TaskRow) × (answer ≡ (db, again))
        × Consistent db
        × (find_task id db.tasks ≡ some t))

module _ (py : Python) (limits : Limits) (id now : String) (note : Note)
    (valid : validate_note py limits (because (request_reason cancelled)) ≡ ok note) where
  module _ (db : Db) (good : Consistent db) (t : TaskRow) (found : find_task id db.tasks ≡ some t)
      (v : ℕ) (current : t.version ≡ v) (running : is_terminal_status t.status ≡ false)
      (before_reread : List Call) where
    written-Ends : Ends (
        settle py limits id cancelled before_reread
          (transition py limits id cancelled v (because (request_reason cancelled)) now db))
    unfolding settle
    written-Ends =
        let made =
          IsMade-of py limits db good id cancelled v (because (request_reason cancelled)) now t note
            valid found (MayEnter-guards t cancelled v current (may_be_cancelled t running)) in
        (
          (transition py limits id cancelled v (because (request_reason cancelled)) now db).0,
          task_from_row py (transition_row cancelled made.note now made.row),
          rw made.outcome,
          unfold is_terminal task_from_row transition_row in refl,
        )

  module _ (db : Db) (good : Consistent db) (t : TaskRow)
      (found : find_task id db.tasks ≡ some t) where
    -- The answer of a round for a task that was not over when it was read.
    abbrev written : Round → Db × Answer
    written round = settle py limits id cancelled round.before_reread (
        transition py limits id cancelled t.version (because (request_reason cancelled)) now
          (run py limits round.before_write db))

    written-Settles :
        (round : Round) → is_terminal_status t.status ≡ false → Settles id (written round)
    unfolding settle
    written-Settles round running =
        let db1 = run py limits round.before_write db in
        let good1 = run-Consistent_from py limits round.before_write db good in
        let (u, there, later) = run-Later py limits round.before_write db id t good found in
        elim (Bool-cases (u.version =? t.version)) [
          | inr moved ↦
              rw (stale_outcome py limits id cancelled t.version now db1 u note valid there moved)
                (inr (db1, u, refl, good1, there))
          | inl still ↦
              let version = =?→eq u.version t.version still in
              let same : u ≡ t = later.tagged version in
              let (out, r, answer, ended) =
                written-Ends db1 good1 u there t.version version (rw same running)
                  round.before_reread in
              inl (out, r, answer, ended)
        ]

    read_over :
        (round : Round)
        → is_terminal_status t.status ≡ true
        → request_round py limits id cancelled now round db ≡ (db, done (ok (task_from_row py t)))
    unfolding request_round get_task request_found is_settled is_terminal task_from_row
    read_over round ended = rw (found, ended)

    read_running :
        (round : Round)
        → is_terminal_status t.status ≡ false
        → request_round py limits id cancelled now round db ≡ written round
    unfolding request_round get_task request_found is_settled is_terminal task_from_row
    read_running round running = rw (found, running, not_cancelled t.status running)

    round-Settles : (round : Round) → Settles id (request_round py limits id cancelled now round db)
    round-Settles round = elim (Bool-cases (is_terminal_status t.status)) [
      | inl ended ↦
          rw (read_over round ended)
            (inl (db, task_from_row py t, refl, unfold is_terminal task_from_row in ended))
      | inr running ↦ rw (read_running round running) (written-Settles round running)
    ]

    quiet-Ends : Ends (
        request_round py limits id cancelled now
          (record { before_write = []; before_reread = [] })
          db)
    unfolding run
    quiet-Ends = elim (Bool-cases (is_terminal_status t.status)) [
      | inl ended ↦
          (db, task_from_row py t, read_over _ ended, unfold is_terminal task_from_row in ended)
      | inr running ↦
          rw (read_running _ running) (written-Ends db good t found t.version refl running [])
    ]

  -- `cancel` of a task that the repository knows returns a task that is over, cancelled now or ended
  -- before, whatever calls other writers make in the rounds of its loop: the loop ends with the first
  -- round in which nobody else changes the task, and none of its errors comes up.
  pub cancel_settles :
      (rounds : List Round) (db : Db) (t : TaskRow)
      → Consistent db
      → find_task id db.tasks ≡ some t
      → (r : TaskRecord) × ((cancel py limits id now rounds db).1 ≡ ok r) × (is_terminal r ≡ true)
  unfolding request_status
  cancel_settles [] db t good found =
      let (out, r, answer, ended) = quiet-Ends db good t found in
      (r, rw (cancel, request_status, answer), ended)
  cancel_settles (round ∷ rounds) db t good found = elim (round-Settles db good t found round) [
    | inl (out, r, answer, ended) ↦ (r, rw (cancel, request_status, answer), ended)
    | inr (db', t', answer, good', found') ↦
        let (r, returned, ended) = cancel_settles rounds db' t' good' found' in
        (r, rw (cancel, request_status, answer, ap (λ p. p.0) answer) returned, ended)
  ]
