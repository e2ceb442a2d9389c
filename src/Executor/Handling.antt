-- ===== src/Executor/Handling.antt =====
-- `_run_claimed` of `BackgroundTaskExecutor`, over the tables of the repository. Other writers act
-- between its calls and while a handler runs.
use novel_crawler.Prelude.{
  ℕ, String, Bool, true, false, not, ◌||◌, ◌=?◌, List, [], ◌∷◌, Option, none, some, if◌then◌else◌,
  Result, ok, err,
}
use novel_crawler.Task.Status.{TaskStatus, ready, crawling, same_status}
use novel_crawler.Task.Python.{Python}
use novel_crawler.Task.Checks.{Limits}
use novel_crawler.Task.Records.{TaskRecord, TaskError}
use novel_crawler.Task.Db.{Db, Outcome}
use novel_crawler.Task.Repository.{get_task, transition}
use novel_crawler.Task.Calls.{Call, run}
use novel_crawler.Batch.Loop.{is_control}
use novel_crawler.Executor.Requests.{because}
use novel_crawler.Executor.Failure.{record_failure}

-- A call of a handler: it returns a status or None, or it raises `TaskControlRequested`,
-- `RecoverableTaskError` or `TerminalTaskError` with a code, or any other `Exception`.
pub data Handled : Type 0 where
  moves_to : TaskStatus → Handled
  returns_none control_requested exception : Handled
  recoverable terminal : String → Handled

-- What the other writers do around one handler, and the clock.
pub record Turn : Type 0 where
  pub before_check : List Call
  pub during : List Call
  pub before_read : List Call
  pub before_write : List Call
  pub before_handoff : List Call
  pub first : List Call
  pub second : List Call
  pub third : List Call
  pub now : String

-- A turn of the loop ends it, or goes on with the record of the task.
pub data Turned : Type 0 where
  over : Result TaskError Unit → Turned
  goes_on : TaskRecord → Turned

-- What `check_control` says: the task may go on, it is to stop, or the repository raised.
pub data Control : Type 0 where
  free stopped lost : Control

abbrev pub found_control : ℕ → Result TaskError TaskRecord → Control
found_control version (err e) = lost
found_control version (ok task) = if is_control version task then stopped else free

module _ (py : Python) (limits : Limits) (handlers : TaskStatus → Option (TaskRecord → Handled))
    (task_id : String) where
  abbrev pub ended : Outcome Unit → Db × Turned
  ended (db, r) = (db, over r)

  -- `self._record_failure(...)` and `return`
  abbrev pub fails : Turn → Bool → String → Db → Db × Turned
  fails turn is_final error_code db = ended (
      record_failure py limits task_id is_final error_code turn.now turn.first turn.second
        turn.third db)

  -- `except Exception`
  abbrev pub breaks : Turn → Db → Db × Turned
  breaks turn db = fails turn false "task_handler_failed" db

  -- Behind a handoff from READY to CRAWLING.
  unfoldable pub handed_off : Turn → Outcome TaskRecord → Db × Turned
  handed_off turn (db, err e) = breaks turn db
  handed_off turn (db, ok task) = (db, goes_on task)

  -- Behind the `transition` to the status that the handler has returned.
  unfoldable pub settled_move : Turn → Outcome TaskRecord → Db × Turned
  unfolding handed_off
  settled_move turn (db, err e) = breaks turn db
  settled_move turn (db, ok task) =
      if same_status task.status ready
      then handed_off turn (
          transition py limits task_id crawling task.version (because "executor_ready_handoff")
            turn.now (run py limits turn.before_handoff db))
      else (db, goes_on task)

  -- `latest` is still the task that the handler has worked on.
  unfoldable pub compared :
      Turn → TaskRecord → TaskStatus → Db → Result TaskError TaskRecord → Db × Turned
  unfolding settled_move
  compared turn current next_status db (err e) = breaks turn db
  compared turn current next_status db (ok latest) =
      if not (latest.version =? current.version) || not (same_status latest.status current.status)
      then (db, over (ok tt))
      else settled_move turn (
          transition py limits task_id next_status current.version
            (because "executor_handler_completed") turn.now (run py limits turn.before_write db))

  abbrev pub compare_after : Turn → TaskRecord → Handled → Db → Db × Turned
  compare_after turn current (moves_to next_status) db =
      let db' = run py limits turn.before_read db in
      compared turn current next_status db' (get_task py task_id db')
  compare_after turn current _ db = (db, over (ok tt))

  -- The second `check_control`, behind a handler that returned.
  unfoldable pub rechecked : Turn → TaskRecord → Handled → Db → Control → Db × Turned
  unfolding compared
  rechecked turn current handled db free = compare_after turn current handled db
  rechecked turn current handled db stopped = (db, over (ok tt))
  rechecked turn current handled db lost = breaks turn db

  unfoldable pub handled_by : Turn → TaskRecord → Handled → Db → Db × Turned
  unfolding rechecked
  handled_by turn current control_requested db = (db, over (ok tt))
  handled_by turn current (recoverable error_code) db = fails turn false error_code db
  handled_by turn current (terminal error_code) db = fails turn true error_code db
  handled_by turn current exception db = breaks turn db
  handled_by turn current returns_none db =
      rechecked turn current returns_none db
        (found_control current.version (get_task py task_id db))
  handled_by turn current (moves_to s) db =
      rechecked turn current (moves_to s) db
        (found_control current.version (get_task py task_id db))

  -- The first `check_control`, and the handler.
  unfoldable pub checked : Turn → TaskRecord → (TaskRecord → Handled) → Db → Control → Db × Turned
  unfolding handled_by
  checked turn current handler db stopped = (db, over (ok tt))
  checked turn current handler db lost = breaks turn db
  checked turn current handler db free =
      handled_by turn current (handler current) (run py limits turn.during db)

  abbrev pub turn_with : Turn → TaskRecord → Db → Option (TaskRecord → Handled) → Db × Turned
  turn_with turn current db none = (db, over (ok tt))
  turn_with turn current db (some handler) =
      let db' = run py limits turn.before_check db in
      checked turn current handler db' (found_control current.version (get_task py task_id db'))

  -- One turn of the loop.
  unfoldable pub take_turn : Turn → TaskRecord → Db → Db × Turned
  unfolding checked
  take_turn turn current db = turn_with turn current db (handlers current.status)

  -- `_run_claimed`, for the turns that are given.
  unfoldable pub run_claimed : List Turn → TaskRecord → Db → Db × Turned
  unfolding take_turn
  run_claimed [] current db = (db, goes_on current)
  run_claimed (turn ∷ turns) current db =
      let (db', turned) = take_turn turn current db in
      elim turned [ over r ↦ (db', over r) | goes_on task ↦ run_claimed turns task db' ]
