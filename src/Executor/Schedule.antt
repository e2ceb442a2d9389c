-- ===== src/Executor/Schedule.antt =====
-- `submit`, `schedule_active` and `_schedule_resumed` of `BackgroundTaskExecutor`: each changes the
-- state under the lock.
use novel_crawler.Prelude.{
  ℕ, String, Bool, true, false, not, ◌||◌, ◌∷◌, Option, none, some, leb, if◌then◌else◌, Result, ok,
  err,
}
use novel_crawler.Task.Status.{
  TaskStatus, created, ready, probing, validating, crawling, recoverable_failed,
}
use novel_crawler.Task.Python.{Python}
use novel_crawler.Task.Records.{TaskRecord, TaskError, is_terminal}
use novel_crawler.Task.Db.{Db}
use novel_crawler.Task.Repository.{get_task}
use novel_crawler.Executor.State.{
  Executor, ExecutorError, executor_closed, executor_queue_full, repository_error, is_in, discard,
  get, pop, set, put_nowait,
}

-- `_INTERRUPTED`
abbrev pub is_interrupted : TaskStatus → Bool
is_interrupted probing = true
is_interrupted validating = true
is_interrupted crawling = true
is_interrupted _ = false

-- `_SUBMITTABLE`
abbrev pub is_submittable : TaskStatus → Bool
is_submittable created = true
is_submittable ready = true
is_submittable _ = false

-- What a scheduling method leaves and returns.
abbrev pub Scheduling : Type 0
Scheduling = Executor × Result ExecutorError Bool

-- The last lines of the three methods: the task is marked, queued, and unmarked where the queue is full.
unfoldable pub enqueue : String → ℕ → Bool → Executor → Scheduling
unfolding set pop discard put_nowait
enqueue task_id version preclaimed s =
    let marked : Executor = record s {
      scheduled = task_id ∷ s.scheduled;
      scheduled_versions = set task_id version s.scheduled_versions;
    } in
    elim (put_nowait task_id preclaimed marked) [
      | some queued ↦ (queued, ok true)
      | none ↦ (
        record marked {
          scheduled = discard task_id marked.scheduled;
          scheduled_versions = pop task_id marked.scheduled_versions;
        },
        err executor_queue_full,
      )
    ]

unfoldable pub submit_found : String → Executor → Result TaskError TaskRecord → Scheduling
unfolding enqueue is_in is_terminal
submit_found task_id s (err e) = (s, err (repository_error e))
submit_found task_id s (ok task) =
    if s.closing
    then (s, err executor_closed)
    else if is_terminal task || (not (is_submittable task.status) || is_in task_id s.scheduled)
    then (s, ok false)
    else enqueue task_id task.version false s

-- The version under which a task is scheduled, -1 where there is none.
unfoldable pub is_current : Option ℕ → ℕ → Bool
is_current none version = false
is_current (some scheduled) version = leb version scheduled

unfoldable pub activate_found : String → Executor → Result TaskError TaskRecord → Scheduling
unfolding enqueue is_in is_current get set
activate_found task_id s (err e) = (s, err (repository_error e))
activate_found task_id s (ok task) =
    if not (is_interrupted task.status)
    then (s, ok false)
    else if is_in task_id s.scheduled
    then (if is_current (get task_id s.scheduled_versions) task.version then (s, ok false) else (
      record s {
        scheduled_versions = set task_id task.version s.scheduled_versions;
        pending_resumes = set task_id (true, recoverable_failed) s.pending_resumes;
      },
      ok true,
    ))
    else enqueue task_id task.version true s

-- Where the repository raises for a task that is not scheduled, the task is in the set already.
unfoldable pub resume_found :
    String → Bool → TaskStatus → Executor → Result TaskError TaskRecord → Scheduling
unfolding enqueue is_in set
resume_found task_id preclaimed rollback_status s (err e) =
    if is_in task_id s.scheduled
    then (s, err (repository_error e))
    else (record s { scheduled = task_id ∷ s.scheduled }, err (repository_error e))
resume_found task_id preclaimed rollback_status s (ok task) =
    if is_in task_id s.scheduled
    then (
      record s {
        scheduled_versions = set task_id task.version s.scheduled_versions;
        pending_resumes = set task_id (preclaimed, rollback_status) s.pending_resumes;
      },
      ok true,
    )
    else enqueue task_id task.version preclaimed s

module _ (py : Python) where
  unfoldable pub submit : String → Db → Executor → Scheduling
  unfolding submit_found
  submit task_id db s = submit_found task_id s (get_task py task_id db)

  unfoldable pub schedule_active : String → Db → Executor → Scheduling
  unfolding activate_found
  schedule_active task_id db s =
      if s.closing
      then (s, err executor_closed)
      else activate_found task_id s (get_task py task_id db)

  unfoldable pub schedule_resumed : String → Bool → TaskStatus → Db → Executor → Scheduling
  unfolding resume_found
  schedule_resumed task_id preclaimed rollback_status db s =
      if s.closing
      then (s, err executor_closed)
      else resume_found task_id preclaimed rollback_status s (get_task py task_id db)
