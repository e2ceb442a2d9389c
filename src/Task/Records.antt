-- ===== src/Task/Records.antt =====
-- novel_crawler/task_engine/models.py: the frozen dataclasses; and the errors of repository.py.
use novel_crawler.Prelude.{ℕ, String, Option, Bool}
use novel_crawler.Task.Status.{TaskStatus, ResumeGate, is_terminal_status, is_cleanup}
use novel_crawler.Task.Values.{Value}

pub record TaskRecord : Type 0 where
  pub task_id : String
  pub status : TaskStatus
  pub version : ℕ
  pub created_at : String
  pub updated_at : String
  pub error_code : Option String
  pub resume_status : Option TaskStatus
  pub resume_gate : ResumeGate
  pub source_url : String
  pub metadata : Value
  pub error_message : Option String

unfoldable pub is_terminal : TaskRecord → Bool
is_terminal task = is_terminal_status task.status

unfoldable pub cleanup_required : TaskRecord → Bool
cleanup_required task = is_cleanup task.resume_gate

pub record TaskEvent : Type 0 where
  pub event_id : ℕ
  pub task_id : String
  pub from_status : Option TaskStatus
  pub to_status : TaskStatus
  pub task_version : ℕ
  pub created_at : String
  pub error_code : Option String
  pub reason : Option String
  pub metadata : Value
  pub error_message : Option String

pub record CheckpointRecord : Type 0 where
  pub task_id : String
  pub key : String
  pub version : ℕ
  pub updated_at : String
  pub payload : Value

-- `TaskRepositoryError` and its subclasses, with the message or the parts of it; `value_error` and
-- `integrity_error` are Python's `ValueError` and `sqlite3.IntegrityError`.
pub data TaskError : Type 0 where
  input_error : String → TaskError
  task_not_found checkpoint_not_found : TaskError
  task_version_conflict checkpoint_version_conflict : TaskError
  transition_not_allowed resume_not_allowed : TaskStatus → TaskStatus → TaskError
  cleanup_gate_not_allowed interaction_recovery_not_allowed : TaskStatus → TaskError
  cleanup_gate_requires_completion cleanup_gate_not_active interaction_lease_active : TaskError
  value_error : String → TaskError
  integrity_error : TaskError
