-- ===== src/Executor/Turns.antt =====
-- The turns of `_run_claimed` against other writers.
use novel_crawler.Prelude.{
  ℕ, String, false, not, ◌||◌, ◌=?◌, List, [], ◌∷◌, Option, none, some, ◌≡◌, refl, sym, ap, ◌∙◌,
  Result, ok, err, Bool-cases, inl, inr, ok_inj,
}
use novel_crawler.Task.Status.{TaskStatus, ready, crawling, same_status}
use novel_crawler.Task.Python.{Python}
use novel_crawler.Task.Checks.{Limits}
use novel_crawler.Task.Records.{TaskRecord, TaskError}
use novel_crawler.Task.Db.{Db, Outcome, task_from_row}
use novel_crawler.Task.Repository.{TransitionOptions, get_task, transition, transition_row}
use novel_crawler.Task.Calls.{Call, run, perform}
use novel_crawler.Task.History.{Consistent}
use novel_crawler.Task.Runs.{run-Consistent_from, perform-Consistent}
use novel_crawler.Task.Transition.{transition-IsMade, get_task-transition}
use novel_crawler.Executor.Requests.{because}
use novel_crawler.Executor.Handling.{
  Handled, moves_to, returns_none, Turn, Turned, over, goes_on, Control, free, stopped, lost,
  checked, handled_by, rechecked, compared, settled_move, handed_off, take_turn, turn_with,
  run_claimed,
}

module _ (py : Python) (limits : Limits) (handlers : TaskStatus → Option (TaskRecord → Handled))
    (id : String) where
  -- A turn that goes on: the record is what the repository has, and the task is not READY.
  pub data KeepsUp : Db × Turned → Type 0 where
    at_end : {db : Db} {r : Result TaskError Unit} → KeepsUp (db, over r)
    in_step :
        {db : Db} {task : TaskRecord}
        → Consistent db
        → get_task py id db ≡ ok task
        → same_status task.status ready ≡ false
        → KeepsUp (db, goes_on task)

  -- A transition that may have returned a record.
  record Stored (out : Outcome TaskRecord) (to : TaskStatus) : Type 0 where
    good : Consistent out.0
    read : (task : TaskRecord) → out.1 ≡ ok task → get_task py id out.0 ≡ ok task
    status : (task : TaskRecord) → out.1 ≡ ok task → task.status ≡ to

  transition-Stored :
      (db : Db) (to : TaskStatus) (v : ℕ) (options : TransitionOptions) (now : String)
      → Consistent db
      → Stored (transition py limits id to v options now db) to
  transition-Stored db to v options now good = record {
    good =
        unfold perform in
        perform-Consistent py limits (Call.transition id to v options now) db good;
    read = λ task h. get_task-transition py limits db good id to v options now task h;
    status = λ task h.
        let made = transition-IsMade py limits db good id to v options now task h in
        unfold task_from_row transition_row in
        sym (ap (λ x. x.status) (ok_inj (sym (ap (λ o. o.1) made.outcome) ∙ h)));
  }

  handed_off-KeepsUp :
      (turn : Turn) (out : Outcome TaskRecord)
      → Stored out crawling
      → KeepsUp (handed_off py limits handlers id turn out)
  unfolding handed_off
  handed_off-KeepsUp turn (db, err e) stored = at_end
  handed_off-KeepsUp turn (db, ok task) stored =
      in_step stored.good (stored.read task refl) (rw (stored.status task refl) refl)

  settled_move-KeepsUp :
      (turn : Turn) (to : TaskStatus) (out : Outcome TaskRecord)
      → Stored out to
      → KeepsUp (settled_move py limits handlers id turn out)
  unfolding settled_move
  settled_move-KeepsUp turn to (db, err e) stored = at_end
  settled_move-KeepsUp turn to (db, ok task) stored =
      elim (Bool-cases (same_status task.status ready)) [
        | inr other ↦ rw other (in_step stored.good (stored.read task refl) other)
        | inl is_ready ↦ rw is_ready (
            handed_off-KeepsUp turn _ (
              transition-Stored (run py limits turn.before_handoff db) crawling task.version
                (because "executor_ready_handoff") turn.now
                (run-Consistent_from py limits turn.before_handoff db stored.good)))
      ]

  compared-KeepsUp :
      (turn : Turn) (current : TaskRecord) (to : TaskStatus) (db : Db)
      (r : Result TaskError TaskRecord)
      → Consistent db
      → KeepsUp (compared py limits handlers id turn current to db r)
  unfolding compared
  compared-KeepsUp turn current to db (err e) good = at_end
  compared-KeepsUp turn current to db (ok latest) good =
      elim (Bool-cases (
        not (latest.version =? current.version)
        || not (same_status latest.status current.status))) [
          | inl changed ↦ rw changed at_end
          | inr same ↦ rw same (
              settled_move-KeepsUp turn to _ (
                transition-Stored (run py limits turn.before_write db) to current.version
                  (because "executor_handler_completed") turn.now
                  (run-Consistent_from py limits turn.before_write db good)))
        ]

  rechecked-KeepsUp :
      (turn : Turn) (current : TaskRecord) (handled : Handled) (db : Db) (c : Control)
      → Consistent db
      → KeepsUp (rechecked py limits handlers id turn current handled db c)
  unfolding rechecked
  rechecked-KeepsUp turn current (moves_to s) db free good =
      compared-KeepsUp turn current s (run py limits turn.before_read db) _
        (run-Consistent_from py limits turn.before_read db good)
  rechecked-KeepsUp turn current returns_none db free good = at_end
  rechecked-KeepsUp turn current Handled.control_requested db free good = at_end
  rechecked-KeepsUp turn current Handled.exception db free good = at_end
  rechecked-KeepsUp turn current (Handled.recoverable c) db free good = at_end
  rechecked-KeepsUp turn current (Handled.terminal c) db free good = at_end
  rechecked-KeepsUp turn current handled db stopped good = at_end
  rechecked-KeepsUp turn current handled db lost good = at_end

  handled_by-KeepsUp :
      (turn : Turn) (current : TaskRecord) (handled : Handled) (db : Db)
      → Consistent db
      → KeepsUp (handled_by py limits handlers id turn current handled db)
  unfolding handled_by
  handled_by-KeepsUp turn current (moves_to s) db good =
      rechecked-KeepsUp turn current (moves_to s) db _ good
  handled_by-KeepsUp turn current returns_none db good =
      rechecked-KeepsUp turn current returns_none db _ good
  handled_by-KeepsUp turn current Handled.control_requested db good = at_end
  handled_by-KeepsUp turn current Handled.exception db good = at_end
  handled_by-KeepsUp turn current (Handled.recoverable c) db good = at_end
  handled_by-KeepsUp turn current (Handled.terminal c) db good = at_end

  checked-KeepsUp :
      (turn : Turn) (current : TaskRecord) (handler : TaskRecord → Handled) (db : Db) (c : Control)
      → Consistent db
      → KeepsUp (checked py limits handlers id turn current handler db c)
  unfolding checked
  checked-KeepsUp turn current handler db free good =
      handled_by-KeepsUp turn current (handler current) (run py limits turn.during db)
        (run-Consistent_from py limits turn.during db good)
  checked-KeepsUp turn current handler db stopped good = at_end
  checked-KeepsUp turn current handler db lost good = at_end

  turn-KeepsUp :
      (turn : Turn) (current : TaskRecord) (db : Db) (o : Option (TaskRecord → Handled))
      → Consistent db
      → KeepsUp (turn_with py limits handlers id turn current db o)
  turn-KeepsUp turn current db none good = at_end
  turn-KeepsUp turn current db (some handler) good =
      checked-KeepsUp turn current handler (run py limits turn.before_check db) _
        (run-Consistent_from py limits turn.before_check db good)

  -- The rest of the loop behind a turn.
  abbrev then_turns : List Turn → Db × Turned → Db × Turned
  then_turns turns (db, over r) = (db, over r)
  then_turns turns (db, goes_on task) = run_claimed py limits handlers id turns task db

  run_turn :
      (turn : Turn) (turns : List Turn) (current : TaskRecord) (db : Db) (out : Db × Turned)
      → take_turn py limits handlers id turn current db ≡ out
      → run_claimed py limits handlers id (turn ∷ turns) current db ≡ then_turns turns out
  unfolding run_claimed
  run_turn turn turns current db (db', over r) h = rw (run_claimed, h, ap (λ p. p.0) h) refl
  run_turn turn turns current db (db', goes_on task) h = rw (run_claimed, h, ap (λ p. p.0) h) refl

  then-KeepsUp :
      (turns : List Turn) (out : Db × Turned)
      → KeepsUp out
      → ((task : TaskRecord) (db : Db)
          → KeepsUp (db, goes_on task)
          → KeepsUp (run_claimed py limits handlers id turns task db))
      → KeepsUp (then_turns turns out)
  then-KeepsUp turns _ at_end rest = at_end
  then-KeepsUp turns _ (in_step good read handed) rest = rest _ _ (in_step good read handed)

  turns-KeepsUp :
      (turns : List Turn) (task : TaskRecord) (db : Db)
      → KeepsUp (db, goes_on task)
      → KeepsUp (run_claimed py limits handlers id turns task db)
  unfolding run_claimed take_turn
  turns-KeepsUp [] task db k = k
  turns-KeepsUp (turn ∷ turns) task db (in_step good read handed) =
      rw (run_turn turn turns task db _ refl) (
        then-KeepsUp turns _ (turn-KeepsUp turn task db (handlers task.status) good)
          (turns-KeepsUp turns))

  -- From consistent tables, whatever the handlers do and whatever calls other writers make around
  -- them: where `_run_claimed` goes on with a record behind its turns, the tables are consistent, the
  -- record is the one that the repository has for the task, and its status is not READY, since such
  -- a task is handed on to CRAWLING first.
  pub run_claimed-KeepsUp :
      (first : Turn) (turns : List Turn) (current : TaskRecord) (db : Db)
      → Consistent db
      → KeepsUp (run_claimed py limits handlers id (first ∷ turns) current db)
  unfolding run_claimed take_turn
  run_claimed-KeepsUp first turns current db good = rw (run_turn first turns current db _ refl) (
      then-KeepsUp turns _ (turn-KeepsUp first current db (handlers current.status) good)
        (turns-KeepsUp turns))
