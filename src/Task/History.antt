-- ===== src/Task/History.antt =====
-- What the event log of a task says: the statuses that it passed through, one version after the
-- other, and the invariant that ties the log to the row of the task.
use novel_crawler.Prelude.{
  ℕ, zero, suc, String, ◌==◌, Bool, true, false, not, ◌&&◌, List, [], ◌∷◌, Option, none, some, ◌=?◌,
  if◌then◌else◌, ◌≡◌,
}
use novel_crawler.Task.Status.{
  TaskStatus, created, probing, waiting_for_user, validating, ready, crawling, paused,
  recoverable_failed, same_status, allowed_transitions, is_resumable,
}
use novel_crawler.Task.Db.{TaskRow, EventRow, Db, find_task}

-- The edges that the log may hold: those of the table, and the two that the cleanup gate adds.
unfoldable pub recorded_edge : TaskStatus → TaskStatus → Bool
recorded_edge paused recoverable_failed = true
recorded_edge recoverable_failed created = true
recorded_edge from to = allowed_transitions from to

-- Reading a log from its first event: nothing yet, a status at a version, or no history of a task.
pub data Trace : Type 0 where
  blank broken : Trace
  at : TaskStatus → ℕ → Trace

unfoldable pub begins : Option TaskStatus → TaskStatus → ℕ → Trace
begins none created zero = at created 0
begins _ _ _ = broken

unfoldable pub follows : TaskStatus → ℕ → Option TaskStatus → TaskStatus → ℕ → Trace
follows status version none to task_version = broken
follows status version (some from) to task_version =
    if same_status from status && (task_version =? suc version && recorded_edge status to)
    then at to task_version
    else broken

unfoldable pub replay_event : EventRow → Trace → Trace
unfolding begins follows
replay_event e blank = begins e.from_status e.to_status e.task_version
replay_event e broken = broken
replay_event e (at status version) = follows status version e.from_status e.to_status e.task_version

unfoldable pub replay : String → List EventRow → Trace
replay id [] = blank
replay id (e ∷ es) =
    let rest = replay id es in if e.task_id == id then replay_event e rest else rest

-- The trace that a row stands for.
abbrev pub trace_of : Option TaskRow → Trace
trace_of none = blank
trace_of (some t) = at t.status t.version

-- The statuses that a parked task may return to.
abbrev pub is_active : TaskStatus → Bool
is_active created = true
is_active probing = true
is_active waiting_for_user = true
is_active validating = true
is_active ready = true
is_active crawling = true
is_active _ = false

-- A task has a status to return to exactly while it is paused or has failed recoverably.
abbrev pub is_parked_right : TaskStatus → Option TaskStatus → Bool
is_parked_right status none = not (is_resumable status)
is_parked_right status (some origin) = is_resumable status && is_active origin

abbrev pub Parked : TaskRow → Type 0
Parked t = is_parked_right t.status t.resume_status ≡ true

-- No two rows share their primary key.
abbrev pub Unique : List TaskRow → Type 0
Unique [] = Unit
Unique (t ∷ ts) = (find_task t.task_id ts ≡ none) × Unique ts

pub record Consistent (db : Db) : Type 0 where
  pub unique : Unique db.tasks
  pub traced : (id : String) → replay id db.events ≡ trace_of (find_task id db.tasks)
  pub parked : (id : String) (t : TaskRow) → find_task id db.tasks ≡ some t → Parked t
