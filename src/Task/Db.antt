-- ===== src/Task/Db.antt =====
-- The four tables of `tasks.db` (repository.py, `_migrate`) and the SQL statements that the
-- repository runs on them. A table is a list of rows, the newest first: an `ORDER BY` on a row id or
-- on `event_id` reads it backwards. Every operation runs inside `BEGIN IMMEDIATE` under the lock, so
-- operations follow one another, and one that raises leaves the tables as they were.
use novel_crawler.Prelude.{
  ℕ, suc, String, ◌==◌, Bool, true, false, ◌&&◌, List, [], ◌∷◌, Option, none, some, ◌=?◌,
  if◌then◌else◌, Result, ok, err,
}
use novel_crawler.Task.Status.{TaskStatus, ResumeGate}
use novel_crawler.Task.Records.{
  TaskRecord, TaskEvent, CheckpointRecord, TaskError, task_version_conflict, integrity_error,
}
use novel_crawler.Task.Python.{Python}

pub record TaskRow : Type 0 where
  pub task_id : String
  pub source_url : String
  pub status : TaskStatus
  pub version : ℕ
  pub metadata_json : String
  pub error_code : Option String
  pub error_message : Option String
  pub resume_status : Option TaskStatus
  pub resume_gate : ResumeGate
  pub created_at : String
  pub updated_at : String

pub record EventRow : Type 0 where
  pub event_id : ℕ
  pub task_id : String
  pub from_status : Option TaskStatus
  pub to_status : TaskStatus
  pub task_version : ℕ
  pub reason : Option String
  pub metadata_json : String
  pub error_code : Option String
  pub error_message : Option String
  pub created_at : String

pub record CheckpointRow : Type 0 where
  pub task_id : String
  pub checkpoint_key : String
  pub payload_json : String
  pub version : ℕ
  pub updated_at : String

pub record LeaseRow : Type 0 where
  pub task_id : String
  pub owner_id : String
  pub owner_epoch : ℕ
  pub expires_at : String

pub record Db : Type 0 where
  pub tasks : List TaskRow
  pub events : List EventRow
  pub checkpoints : List CheckpointRow
  pub leases : List LeaseRow
  -- the AUTOINCREMENT counter of `task_events`
  pub last_event_id : ℕ

abbrev pub empty : Db
empty = record { tasks = []; events = []; checkpoints = []; leases = []; last_event_id = 0 }

-- `SELECT * FROM tasks WHERE task_id=?`
unfoldable pub find_task : String → List TaskRow → Option TaskRow
find_task id [] = none
find_task id (t ∷ ts) = if t.task_id == id then some t else find_task id ts

-- `UPDATE tasks SET ... WHERE task_id=? AND version=?`, and its `rowcount`.
unfoldable pub set_task : String → ℕ → (TaskRow → TaskRow) → List TaskRow → List TaskRow
set_task id version f [] = []
set_task id version f (t ∷ ts) =
    let rest = set_task id version f ts in
    if t.task_id == id && t.version =? version then f t ∷ rest else t ∷ rest

unfoldable pub count_task : String → ℕ → List TaskRow → ℕ
count_task id version [] = 0
count_task id version (t ∷ ts) =
    let rest = count_task id version ts in
    if t.task_id == id && t.version =? version then suc rest else rest

-- The UPDATE with the test `if cursor.rowcount != 1: raise TaskVersionConflict` behind it.
unfoldable pub update_task : String → ℕ → (TaskRow → TaskRow) → Db → Result TaskError Db
unfolding set_task count_task
update_task id version f db =
    if count_task id version db.tasks =? 1
    then ok (record db { tasks = set_task id version f db.tasks })
    else err task_version_conflict

-- Whether `UNIQUE(task_id, task_version)` refuses another event.
unfoldable pub has_event : String → ℕ → List EventRow → Bool
has_event id version [] = false
has_event id version (e ∷ es) =
    if e.task_id == id && e.task_version =? version then true else has_event id version es

-- The columns that an INSERT INTO task_events gives.
pub record NewEvent : Type 0 where
  pub task_id : String
  pub from_status : Option TaskStatus
  pub to_status : TaskStatus
  pub task_version : ℕ
  pub reason : Option String
  pub metadata_json : String
  pub error_code : Option String
  pub error_message : Option String
  pub created_at : String

unfoldable pub insert_event : NewEvent → Db → Result TaskError Db
unfolding has_event
insert_event e db =
    if has_event e.task_id e.task_version db.events
    then err integrity_error
    else ok (record db {
      events =
          record {
            event_id = suc db.last_event_id;
            task_id = e.task_id;
            from_status = e.from_status;
            to_status = e.to_status;
            task_version = e.task_version;
            reason = e.reason;
            metadata_json = e.metadata_json;
            error_code = e.error_code;
            error_message = e.error_message;
            created_at = e.created_at;
          }
          ∷ db.events;
      last_event_id = suc db.last_event_id;
    })

-- `SELECT ... FROM task_interaction_leases WHERE task_id=?`
unfoldable pub find_lease : String → List LeaseRow → Option LeaseRow
find_lease id [] = none
find_lease id (l ∷ ls) = if l.task_id == id then some l else find_lease id ls

-- `DELETE FROM task_interaction_leases WHERE task_id=?`
unfoldable pub delete_lease : String → List LeaseRow → List LeaseRow
delete_lease id [] = []
delete_lease id (l ∷ ls) =
    let rest = delete_lease id ls in if l.task_id == id then rest else l ∷ rest

-- `_task_from_row`, `_event_from_row`, `_checkpoint_from_row`
unfoldable pub task_from_row : Python → TaskRow → TaskRecord
task_from_row py row = record {
  task_id = row.task_id;
  status = row.status;
  version = row.version;
  created_at = row.created_at;
  updated_at = row.updated_at;
  error_code = row.error_code;
  resume_status = row.resume_status;
  resume_gate = row.resume_gate;
  source_url = row.source_url;
  metadata = py.loads row.metadata_json;
  error_message = row.error_message;
}

unfoldable pub event_from_row : Python → EventRow → TaskEvent
event_from_row py row = record {
  event_id = row.event_id;
  task_id = row.task_id;
  from_status = row.from_status;
  to_status = row.to_status;
  task_version = row.task_version;
  created_at = row.created_at;
  error_code = row.error_code;
  reason = row.reason;
  metadata = py.loads row.metadata_json;
  error_message = row.error_message;
}

unfoldable pub checkpoint_from_row : Python → CheckpointRow → CheckpointRecord
checkpoint_from_row py row = record {
  task_id = row.task_id;
  key = row.checkpoint_key;
  version = row.version;
  updated_at = row.updated_at;
  payload = py.loads row.payload_json;
}

-- A call of the repository: the tables behind it, and its result or what it raised.
abbrev pub Outcome : Type 0 → Type 0
Outcome A = Db × Result TaskError A

-- `with self._transaction()`: commit on return, roll back on any exception.
unfoldable pub transaction : {A : Type 0} → Db → Result TaskError (Db × A) → Outcome A
transaction db (ok (db', a)) = (db', ok a)
transaction db (err e) = (db, err e)
