-- ===== src/Task/Repository/Tasks.antt =====
-- `create_task`, `get_task`, `list_tasks`, `list_events` and `transition` of `TaskRepository`.
use mathlib.Core.List.{reverse}
use novel_crawler.Prelude.{
  ℕ, suc, String, ◌==◌, Bool, true, false, not, ◌&&◌, ◌||◌, List, [], ◌∷◌, Option, none, some, map,
  ltb, ◌=?◌, if◌then◌else◌, is_some, take, any, Result, ok, err, ◌>>=◌, ◌>>◌, raise_if, or_raise,
}
use novel_crawler.Task.Status.{
  TaskStatus, created, open_gate, ResumeGate, allowed_transitions, same_status, is_resumable,
  is_abandoned, is_cleanup,
}
use novel_crawler.Task.Values.{Fields}
use novel_crawler.Task.Records.{
  TaskRecord, TaskEvent, TaskError, input_error, task_not_found, task_version_conflict,
  transition_not_allowed, resume_not_allowed, cleanup_gate_requires_completion, integrity_error,
}
use novel_crawler.Task.Python.{Python}
use novel_crawler.Task.Checks.{
  Limits, validate_error_code, validate_source_url, validate_optional_text, validate_metadata,
}
use novel_crawler.Task.Db.{
  NewEvent, TaskRow, EventRow, Db, Outcome, find_task, update_task, insert_event, task_from_row,
  event_from_row, transaction,
}

abbrev pub created_row : String → String → String → String → TaskRow
created_row task_id source_url metadata_json now = record {
  task_id = task_id;
  source_url = source_url;
  status = created;
  version = 0;
  metadata_json = metadata_json;
  error_code = none;
  error_message = none;
  resume_status = none;
  resume_gate = open_gate;
  created_at = now;
  updated_at = now;
}

-- The event that this method inserts.
abbrev pub created_event : String → String → NewEvent
created_event task_id now = record {
  task_id = task_id;
  from_status = none;
  to_status = created;
  task_version = 0;
  reason = none;
  metadata_json = "{}";
  error_code = none;
  error_message = none;
  created_at = now;
}

-- The INSERT of a task; its primary key refuses an id in use.
unfoldable pub insert_task : TaskRow → Db → Result TaskError Db
insert_task row db =
    if is_some (find_task row.task_id db.tasks)
    then err integrity_error
    else ok (record db { tasks = row ∷ db.tasks })

-- `current.resume_status is not None and to_status is current.resume_status`
unfoldable pub resumes : Option TaskStatus → TaskStatus → Bool
resumes none to_status = false
resumes (some origin) to_status = same_status to_status origin

-- The guards of `transition`, in its order, on the row that it has read.
unfoldable pub transition_guards : TaskRow → TaskStatus → ℕ → Result TaskError Unit
unfolding resumes
transition_guards current to_status expected_version = do
  raise_if (not (current.version =? expected_version)) task_version_conflict
  raise_if (not (allowed_transitions current.status to_status))
      (transition_not_allowed current.status to_status)
  raise_if (is_cleanup current.resume_gate && not (is_abandoned to_status))
      cleanup_gate_requires_completion
  raise_if
      ((is_resumable current.status && not (is_abandoned to_status))
        && not (resumes current.resume_status to_status))
      (resume_not_allowed current.status to_status)

-- What a status change leaves in `resume_status` and in `resume_gate`.
unfoldable pub next_resume_status : TaskRow → TaskStatus → Option TaskStatus
next_resume_status current to_status = if is_resumable to_status then some current.status else none

unfoldable pub next_resume_gate : TaskRow → TaskStatus → ResumeGate
next_resume_gate current to_status =
    if is_abandoned to_status then open_gate else current.resume_gate

-- The validated arguments of `transition` that end in the columns.
pub record Note : Type 0 where
  pub reason : Option String
  pub metadata_json : String
  pub error_code : Option String
  pub error_message : Option String

-- The row that the UPDATE of `transition` writes.
unfoldable pub transition_row : TaskStatus → Note → String → TaskRow → TaskRow
unfolding next_resume_status next_resume_gate
transition_row to_status note now current = record current {
  status = to_status;
  version = suc current.version;
  resume_status = next_resume_status current to_status;
  resume_gate = next_resume_gate current to_status;
  error_code = note.error_code;
  error_message = note.error_message;
  updated_at = now;
}

-- The event that this method inserts.
abbrev pub transition_event : String → TaskRow → TaskStatus → Note → String → NewEvent
transition_event task_id current to_status note now = record {
  task_id = task_id;
  from_status = some current.status;
  to_status = to_status;
  task_version = suc current.version;
  reason = note.reason;
  metadata_json = note.metadata_json;
  error_code = note.error_code;
  error_message = note.error_message;
  created_at = now;
}

module _ (py : Python) where
  -- The transaction of `transition`, behind the validation of its arguments.
  unfoldable pub apply_transition :
      String → TaskStatus → ℕ → Note → String → Db → Result TaskError (Db × TaskRecord)
  unfolding transition_guards transition_row next_resume_status next_resume_gate
  apply_transition task_id to_status expected_version note now db = do
    current ← or_raise (find_task task_id db.tasks) task_not_found
    transition_guards current to_status expected_version
    let next_version = suc current.version
    updated ← update_task task_id expected_version (transition_row to_status note now) db
    logged ← insert_event (transition_event task_id current to_status note now) updated
    ok (
      logged,
      record {
        task_id = task_id;
        status = to_status;
        version = next_version;
        created_at = current.created_at;
        updated_at = now;
        error_code = note.error_code;
        resume_status = next_resume_status current to_status;
        resume_gate = next_resume_gate current to_status;
        source_url = current.source_url;
        metadata = py.loads current.metadata_json;
        error_message = note.error_message;
      },
    )

-- The optional arguments of `transition`.
pub record TransitionOptions : Type 0 where
  pub reason : Option String
  pub metadata : Option Fields
  pub error_code : Option String
  pub error_message : Option String

module _ (py : Python) (limits : Limits) where
  -- `create_task`; `uuid.uuid4().hex` and `_now()` are given.
  unfoldable pub create_task : String → String → String → Option Fields → Db → Outcome TaskRecord
  unfolding insert_task
  create_task task_id now source_url metadata db = transaction db (do
    url ← validate_source_url py source_url
    encoded ← validate_metadata py limits metadata
    inserted ← insert_task (created_row task_id url encoded.1 now) db
    logged ← insert_event (created_event task_id now) inserted
    ok (
      logged,
      record {
        task_id = task_id;
        status = created;
        version = 0;
        created_at = now;
        updated_at = now;
        error_code = none;
        resume_status = none;
        resume_gate = open_gate;
        source_url = url;
        metadata = encoded.0;
        error_message = none;
      },
    ))

  unfoldable pub validate_note : TransitionOptions → Result TaskError Note
  validate_note options = do
    reason ← validate_optional_text py options.reason "reason_invalid" "reason_sensitive" 256 true
    error_code ← validate_error_code options.error_code
    error_message ←
        validate_optional_text py options.error_message "error_message_invalid"
          "error_message_sensitive" limits.max_error_length true
    encoded ← validate_metadata py limits options.metadata
    ok (record {
      reason = reason;
      metadata_json = encoded.1;
      error_code = error_code;
      error_message = error_message;
    })

  unfoldable pub transition :
      String → TaskStatus → ℕ → TransitionOptions → String → Db → Outcome TaskRecord
  unfolding validate_note apply_transition
  transition task_id to_status expected_version options now db = transaction db (do
    note ← validate_note options
    apply_transition py task_id to_status expected_version note now db)

-- `WHERE status IN (...)`; `none` selects every status.
unfoldable pub rows_in : Option (List TaskStatus) → List TaskRow → List TaskRow
rows_in none rows = rows
rows_in (some statuses) [] = []
rows_in (some statuses) (t ∷ ts) =
    let rest = rows_in (some statuses) ts in
    if any (same_status t.status) statuses then t ∷ rest else rest

-- `SELECT * FROM task_events WHERE task_id=?`
unfoldable pub events_of : String → List EventRow → List EventRow
events_of id [] = []
events_of id (e ∷ es) = let rest = events_of id es in if e.task_id == id then e ∷ rest else rest

module _ (py : Python) where
  unfoldable pub get_task : String → Db → Result TaskError TaskRecord
  get_task task_id db = do
    row ← or_raise (find_task task_id db.tasks) task_not_found
    ok (task_from_row py row)

  -- `list_tasks`: an empty set of statuses selects nothing.
  unfoldable pub list_tasks : Option (List TaskStatus) → ℕ → Db → Result TaskError (List TaskRecord)
  unfolding rows_in
  list_tasks statuses limit db = do
    raise_if (ltb limit 1 || ltb 1000 limit) (input_error "limit_invalid")
    ok (map (task_from_row py) (take limit (reverse (rows_in statuses db.tasks))))

  unfoldable pub list_events : String → Db → Result TaskError (List TaskEvent)
  unfolding events_of
  list_events task_id db = do
    row ← or_raise (find_task task_id db.tasks) task_not_found
    ok (map (event_from_row py) (reverse (events_of task_id db.events)))
