-- ===== src/Executor/Resume.antt =====
-- `resume` and `_rollback_resume` of `BackgroundTaskExecutor`, over its own state and the tables of the
-- repository. Other writers act between their calls: they are runs of calls.
use novel_crawler.Prelude.{
  ℕ, zero, suc, String, Bool, true, false, not, ◌||◌, List, [], ◌∷◌, Option, none, some,
  if◌then◌else◌, Result, ok, err,
}
use novel_crawler.Task.Status.{
  TaskStatus, waiting_for_user, is_terminal_status, is_resumable, same_status,
}
use novel_crawler.Task.Python.{Python}
use novel_crawler.Task.Checks.{Limits}
use novel_crawler.Task.Records.{TaskRecord, TaskError, is_terminal, cleanup_required}
use novel_crawler.Task.Db.{Db, Outcome}
use novel_crawler.Task.Repository.{TransitionOptions, get_task, transition}
use novel_crawler.Task.Calls.{Call, run}
use novel_crawler.Executor.State.{
  Executor, ExecutorError, executor_closed, executor_queue_full, resume_rollback_failed,
  repository_error,
}
use novel_crawler.Executor.Schedule.{Scheduling, is_interrupted, schedule_resumed}
use novel_crawler.Executor.Requests.{Round, because, is_version_conflict, is_invalid_transition}

-- An attempt to roll back ends the loop, or leaves the record for the next one.
pub data Rollback : Type 0 where
  ended : Result ExecutorError Unit → Rollback
  retry_with : TaskRecord → Rollback

abbrev pub rollback_options : TransitionOptions
rollback_options = record {
  reason = some "executor_resume_backpressure";
  metadata = none;
  error_code = some "executor_unavailable";
  error_message = none;
}

-- What the other writers do in one round of the loop of `resume`.
pub record ResumeRound : Type 0 where
  pub before_write : List Call
  pub before_schedule : List Call
  pub rollback : ℕ → Round

pub data Resumption : Type 0 where
  answered : Result ExecutorError TaskRecord → Resumption
  again : Resumption

abbrev pub is_refusal : ExecutorError → Bool
is_refusal executor_closed = true
is_refusal executor_queue_full = true
is_refusal _ = false

module _ (py : Python) (limits : Limits) (task_id now : String) where
  abbrev pub reread_for_rollback : Db → Result TaskError TaskRecord → Db × Rollback
  reread_for_rollback db (ok latest) = (db, retry_with latest)
  reread_for_rollback db (err e) = (db, ended (err (repository_error e)))

  -- The ends of the `try` of `_rollback_resume`.
  unfoldable pub settle_rollback : List Call → Outcome TaskRecord → Db × Rollback
  settle_rollback before_reread (db, ok task) = (db, ended (ok tt))
  settle_rollback before_reread (db, err e) =
      let db' = run py limits before_reread db in
      if is_version_conflict e
      then reread_for_rollback db' (get_task py task_id db')
      else if is_invalid_transition e
      then (db, ended (err resume_rollback_failed))
      else (db, ended (err (repository_error e)))

  unfoldable pub rollback_round : TaskStatus → Round → TaskRecord → Db → Db × Rollback
  unfolding settle_rollback
  rollback_round rollback_status round current db =
      if is_terminal_status current.status || is_resumable current.status
      then (db, ended (ok tt))
      else settle_rollback round.before_reread (
          transition py limits task_id rollback_status current.version rollback_options now
            (run py limits round.before_write db))

  -- The attempts that are left.
  unfoldable pub rollback_attempts :
      TaskStatus → (ℕ → Round) → ℕ → TaskRecord → Db → Db × Result ExecutorError Unit
  unfolding rollback_round
  rollback_attempts rollback_status rounds zero current db = (db, err resume_rollback_failed)
  rollback_attempts rollback_status rounds (suc n) current db =
      let (db', answer) = rollback_round rollback_status (rounds n) current db in
      elim answer [
        | ended result ↦ (db', result)
        | retry_with latest ↦ rollback_attempts rollback_status rounds n latest db'
      ]

  -- `_rollback_resume`: `range(8)`
  abbrev pub rollback_resume :
      TaskStatus → (ℕ → Round) → TaskRecord → Db → Db × Result ExecutorError Unit
  rollback_resume rollback_status rounds resumed db =
      rollback_attempts rollback_status rounds 8 resumed db

  abbrev pub raise_after :
      ExecutorError → Result ExecutorError Unit → Result ExecutorError TaskRecord
  raise_after e (ok u) = err e
  raise_after e (err e') = err e'

  unfoldable pub after_schedule :
      ResumeRound → TaskStatus → TaskRecord → Db → Scheduling → Db × Executor × Resumption
  unfolding rollback_attempts
  after_schedule round rollback_status resumed db (s, ok b) = (db, s, answered (ok resumed))
  after_schedule round rollback_status resumed db (s, err e) =
      let (db', rolled) = rollback_resume rollback_status round.rollback resumed db in
      if is_refusal e then (db', s, answered (raise_after e rolled)) else (db, s, answered (err e))

  unfoldable pub after_transition :
      ResumeRound → TaskStatus → Executor → Outcome TaskRecord → Db × Executor × Resumption
  unfolding after_schedule
  after_transition round rollback_status s (db, err e) =
      if is_version_conflict e then (db, s, again) else (db, s, answered (err (repository_error e)))
  after_transition round rollback_status s (db, ok resumed) =
      let db' = run py limits round.before_schedule db in
      if same_status resumed.status waiting_for_user
      then (db, s, answered (ok resumed))
      else after_schedule round rollback_status resumed db'
          (schedule_resumed py task_id (is_interrupted resumed.status) rollback_status db' s)

  abbrev pub resume_to :
      ResumeRound → TaskRecord → Executor → Db → Option TaskStatus → Db × Executor × Resumption
  resume_to round task s db none = (db, s, answered (ok task))
  resume_to round task s db (some target) = after_transition round task.status s (
      transition py limits task_id target task.version (because "executor_resume") now
        (run py limits round.before_write db))

  unfoldable pub resume_read :
      ResumeRound → Executor → Db → Result TaskError TaskRecord → Db × Executor × Resumption
  unfolding after_transition is_terminal cleanup_required
  resume_read round s db (err e) = (db, s, answered (err (repository_error e)))
  resume_read round s db (ok task) =
      if is_terminal task || (not (is_resumable task.status) || cleanup_required task)
      then (db, s, answered (ok task))
      else resume_to round task s db task.resume_status

  unfoldable pub resume_round : ResumeRound → Executor → Db → Db × Executor × Resumption
  unfolding resume_read
  resume_round round s db = resume_read round s db (get_task py task_id db)

  -- `resume`: other writers act in the rounds of the list; `again` is left where they all end so.
  unfoldable pub resume : List ResumeRound → Executor → Db → Db × Executor × Resumption
  unfolding resume_round
  resume [] s db = (db, s, again)
  resume (round ∷ rounds) s db =
      let (db', s', answer) = resume_round round s db in
      elim answer [ answered result ↦ (db', s', answered result) | again ↦ resume rounds s' db' ]
