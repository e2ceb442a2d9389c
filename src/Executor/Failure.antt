-- ===== src/Executor/Failure.antt =====
-- `_record_failure` of `BackgroundTaskExecutor`, over the tables of the repository.
use novel_crawler.Prelude.{
  String, Bool, true, false, ◌||◌, List, [], ◌∷◌, none, some, if◌then◌else◌, Result, ok, err,
}
use novel_crawler.Task.Status.{
  TaskStatus, recoverable_failed, terminal_failed, is_terminal_status, is_resumable,
}
use novel_crawler.Task.Python.{Python}
use novel_crawler.Task.Checks.{Limits}
use novel_crawler.Task.Records.{TaskRecord, TaskError}
use novel_crawler.Task.Db.{Db, Outcome}
use novel_crawler.Task.Repository.{TransitionOptions, get_task, transition}
use novel_crawler.Task.Calls.{Call, run}
use novel_crawler.Executor.Requests.{is_version_conflict, is_invalid_transition}

abbrev pub failure_target : Bool → TaskStatus
failure_target true = terminal_failed
failure_target false = recoverable_failed

abbrev pub failure_options : String → TransitionOptions
failure_options error_code = record {
  reason = some "executor_handler_failure";
  metadata = none;
  error_code = some error_code;
  error_message = none;
}

-- An attempt ends the loop, or is made again.
pub data Attempt : Type 0 where
  stop : Result TaskError Unit → Attempt
  retry : Attempt

abbrev pub attempt_of : Result TaskError TaskRecord → Attempt
attempt_of (ok task) = stop (ok tt)
attempt_of (err e) =
    if is_version_conflict e || is_invalid_transition e then retry else stop (err e)

module _ (py : Python) (limits : Limits) (task_id : String) (is_final : Bool)
    (error_code now : String) where
  unfoldable pub attempt_found : List Call → Db → Result TaskError TaskRecord → Db × Attempt
  attempt_found others db (err e) = (db, stop (err e))
  attempt_found others db (ok task) =
      if is_terminal_status task.status || is_resumable task.status
      then (db, stop (ok tt))
      else (let (db', outcome) =
            transition py limits task_id (failure_target is_final) task.version
              (failure_options error_code) now (run py limits others db) in
          (db', attempt_of outcome))

  -- The attempts that are left; each list is what other writers do between its read and its write.
  unfoldable pub attempts : List (List Call) → Db → Outcome Unit
  unfolding attempt_found
  attempts [] db = (db, ok tt)
  attempts (others ∷ rest) db =
      let (db', attempt) = attempt_found others db (get_task py task_id db) in
      elim attempt [ stop result ↦ (db', result) | retry ↦ attempts rest db' ]

  -- `_record_failure`: `range(3)`
  unfoldable pub record_failure : List Call → List Call → List Call → Db → Outcome Unit
  unfolding attempts
  record_failure first second third db = attempts (first ∷ second ∷ third ∷ []) db
