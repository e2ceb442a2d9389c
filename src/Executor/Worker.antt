-- ===== src/Executor/Worker.antt =====
-- `_worker` of `BackgroundTaskExecutor`: what it takes from the queue, and what its `finally` does.
use novel_crawler.Prelude.{String, Bool, [], ◌∷◌, Option, none, some, if◌then◌else◌}
use novel_crawler.Task.Status.{TaskStatus}
use novel_crawler.Executor.State.{Executor, discard, remove_one, get, pop, put_nowait}

-- `self._queue.get`; `none` is `queue.Empty`.
unfoldable pub take_task : Executor → Option (Executor × (String × Bool))
take_task s = elim s.queue [
  | [] ↦ none
  | (task_id, preclaimed) ∷ rest ↦
      some (record s { queue = rest; running = task_id ∷ s.running }, (task_id, preclaimed))
]

-- The branches on `pending`; the result is the status to roll back to, where a resume is dropped.
unfoldable pub let_go :
    String → Option (Bool × TaskStatus) → Executor → Executor × Option TaskStatus
unfolding pop discard put_nowait
let_go task_id none s = (record s { scheduled_versions = pop task_id s.scheduled_versions }, none)
let_go task_id (some (preclaimed, rollback_status)) s =
    if s.closing
    then (record s { scheduled_versions = pop task_id s.scheduled_versions }, some rollback_status)
    else elim (put_nowait task_id preclaimed (record s { scheduled = task_id ∷ s.scheduled })) [
      | some queued ↦ (queued, none)
      | none ↦ (
        record s {
          scheduled = discard task_id (task_id ∷ s.scheduled);
          scheduled_versions = pop task_id s.scheduled_versions;
        },
        some rollback_status,
      )
    ]

-- The `finally` of `_worker`.
unfoldable pub finish : String → Executor → Executor × Option TaskStatus
unfolding let_go discard remove_one get pop
finish task_id s = let_go task_id (get task_id s.pending_resumes) (record s {
  running = remove_one task_id s.running;
  scheduled = discard task_id s.scheduled;
  pending_resumes = pop task_id s.pending_resumes;
})
