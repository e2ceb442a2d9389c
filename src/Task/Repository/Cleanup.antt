-- ===== src/Task/Repository/Cleanup.antt =====
-- `require_cleanup` and `complete_cleanup_gate` of `TaskRepository`.
use novel_crawler.Prelude.{
  ℕ, suc, String, Bool, true, false, not, ◌&&◌, Option, none, some, ◌=?◌, if◌then◌else◌, some_or,
  Result, ok, ◌>>=◌, ◌>>◌, raise_if, or_raise,
}
use novel_crawler.Task.Status.{
  TaskStatus, probing, waiting_for_user, validating, ready, crawling, paused, recoverable_failed,
  cleanup, open_gate, same_status, is_cleanup,
}
use novel_crawler.Task.Records.{
  TaskRecord, TaskError, input_error, task_not_found, task_version_conflict,
  cleanup_gate_not_allowed, cleanup_gate_not_active,
}
use novel_crawler.Task.Python.{Python}
use novel_crawler.Task.Checks.{validate_error_code}
use novel_crawler.Task.Db.{
  NewEvent, TaskRow, Db, Outcome, find_task, update_task, insert_event, delete_lease, task_from_row,
  transaction,
}

-- `allowed_sources` of `require_cleanup`
abbrev pub is_cleanup_source : TaskStatus → Bool
is_cleanup_source probing = true
is_cleanup_source waiting_for_user = true
is_cleanup_source validating = true
is_cleanup_source ready = true
is_cleanup_source crawling = true
is_cleanup_source paused = true
is_cleanup_source _ = false

-- The status to which a task returns when its cleanup is complete.
unfoldable pub cleanup_resume_status : TaskStatus → Option TaskStatus → TaskStatus
cleanup_resume_status waiting_for_user resume = some_or resume probing
cleanup_resume_status paused resume = some_or resume probing
cleanup_resume_status status resume = status

-- The row that the UPDATE of `require_cleanup` writes.
unfoldable pub require_cleanup_row : TaskStatus → String → String → TaskRow → TaskRow
require_cleanup_row resume_status error_code now current = record current {
  status = recoverable_failed;
  version = suc current.version;
  resume_status = some resume_status;
  resume_gate = cleanup;
  error_code = some error_code;
  error_message = none;
  updated_at = now;
}

-- The row that the UPDATE of `complete_cleanup_gate` writes.
unfoldable pub complete_cleanup_row : TaskStatus → String → TaskRow → TaskRow
complete_cleanup_row target now current = record current {
  status = target;
  version = suc current.version;
  resume_status = none;
  resume_gate = open_gate;
  error_code = none;
  error_message = none;
  updated_at = now;
}

-- The event that this method inserts.
abbrev pub require_cleanup_event : String → TaskRow → String → String → NewEvent
require_cleanup_event task_id current error_code now = record {
  task_id = task_id;
  from_status = some current.status;
  to_status = recoverable_failed;
  task_version = suc current.version;
  reason = some "cleanup_required";
  metadata_json = "{}";
  error_code = some error_code;
  error_message = none;
  created_at = now;
}

-- The event that this method inserts.
abbrev pub complete_cleanup_event : String → TaskRow → TaskStatus → String → NewEvent
complete_cleanup_event task_id current target now = record {
  task_id = task_id;
  from_status = some recoverable_failed;
  to_status = target;
  task_version = suc current.version;
  reason = some "cleanup_completed";
  metadata_json = "{}";
  error_code = none;
  error_message = none;
  created_at = now;
}

module _ (py : Python) where
  -- The part of `require_cleanup` behind its early return.
  unfoldable pub close_gate :
      String → TaskRow → String → String → Db → Result TaskError (Db × TaskRecord)
  unfolding cleanup_resume_status require_cleanup_row
  close_gate task_id current error_code now db = do
    raise_if (not (is_cleanup_source current.status)) (cleanup_gate_not_allowed current.status)
    let next_version = suc current.version
    let resume_status = cleanup_resume_status current.status current.resume_status
    updated ←
        update_task task_id current.version (require_cleanup_row resume_status error_code now) db
    logged ←
        insert_event (require_cleanup_event task_id current error_code now)
          (record updated { leases = delete_lease task_id updated.leases })
    ok (
      logged,
      record {
        task_id = task_id;
        status = recoverable_failed;
        version = next_version;
        created_at = current.created_at;
        updated_at = now;
        error_code = some error_code;
        resume_status = some resume_status;
        resume_gate = cleanup;
        source_url = current.source_url;
        metadata = py.loads current.metadata_json;
        error_message = none;
      },
    )

  -- The transaction of `require_cleanup`. A task whose gate is closed already is returned as it is.
  unfoldable pub apply_require_cleanup :
      String → ℕ → String → String → Db → Result TaskError (Db × TaskRecord)
  unfolding close_gate
  apply_require_cleanup task_id expected_version error_code now db = do
    current ← or_raise (find_task task_id db.tasks) task_not_found
    raise_if (not (current.version =? expected_version)) task_version_conflict
    if is_cleanup current.resume_gate
        then ok (db, task_from_row py current)
        else close_gate task_id current error_code now db

  unfoldable pub require_cleanup : String → ℕ → Option String → String → Db → Outcome TaskRecord
  unfolding apply_require_cleanup
  require_cleanup task_id expected_version error_code now db = transaction db (do
    validated ← validate_error_code error_code
    code ← or_raise validated (input_error "cleanup_error_code_required")
    apply_require_cleanup task_id expected_version code now db)

  unfoldable pub apply_complete_cleanup :
      String → ℕ → String → Db → Result TaskError (Db × TaskRecord)
  unfolding complete_cleanup_row
  apply_complete_cleanup task_id expected_version now db = do
    current ← or_raise (find_task task_id db.tasks) task_not_found
    raise_if (not (current.version =? expected_version)) task_version_conflict
    raise_if (not (same_status current.status recoverable_failed && is_cleanup current.resume_gate))
        cleanup_gate_not_active
    let target = some_or current.resume_status probing
    let next_version = suc current.version
    updated ← update_task task_id expected_version (complete_cleanup_row target now) db
    logged ← insert_event (complete_cleanup_event task_id current target now) updated
    ok (
      logged,
      record {
        task_id = task_id;
        status = target;
        version = next_version;
        created_at = current.created_at;
        updated_at = now;
        error_code = none;
        resume_status = none;
        resume_gate = open_gate;
        source_url = current.source_url;
        metadata = py.loads current.metadata_json;
        error_message = none;
      },
    )

  unfoldable pub complete_cleanup_gate : String → ℕ → String → Db → Outcome TaskRecord
  unfolding apply_complete_cleanup
  complete_cleanup_gate task_id expected_version now db =
      transaction db (apply_complete_cleanup task_id expected_version now db)
