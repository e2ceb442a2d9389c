-- ===== src/Executor/State.antt =====
-- novel_crawler/task_engine/executor.py: the state that `BackgroundTaskExecutor` keeps under its lock,
-- and the queue of its workers.
use novel_crawler.Prelude.{
  ℕ, String, ◌==◌, Bool, false, ◌||◌, List, [], ◌∷◌, ◌++◌, Option, none, some, ltb, length,
  if◌then◌else◌,
}
use novel_crawler.Task.Status.{TaskStatus}
use novel_crawler.Task.Records.{TaskError}

-- `ExecutorClosed`, `ExecutorQueueFull`, `TaskExecutorError("resume_rollback_failed")`, and what the
-- repository raises.
pub data ExecutorError : Type 0 where
  executor_closed executor_queue_full resume_rollback_failed : ExecutorError
  repository_error : TaskError → ExecutorError

pub record Executor : Type 0 where
  pub max_queue_size : ℕ
  pub queue : List (String × Bool)
  pub scheduled : List String
  pub scheduled_versions : List (String × ℕ)
  pub pending_resumes : List (String × (Bool × TaskStatus))
  pub closing : Bool
  -- The tasks that workers have taken from the queue and not let go yet: `task_id` of `_worker`.
  pub running : List String

-- `__init__`, before its threads have taken anything.
abbrev pub started : ℕ → Executor
started max_queue_size = record {
  max_queue_size = max_queue_size;
  queue = [];
  scheduled = [];
  scheduled_versions = [];
  pending_resumes = [];
  closing = false;
  running = [];
}

-- `task_id in self._scheduled`
unfoldable pub is_in : String → List String → Bool
is_in id [] = false
is_in id (x ∷ xs) = x == id || is_in id xs

-- `set.discard`
unfoldable pub discard : String → List String → List String
discard id [] = []
discard id (x ∷ xs) = let rest = discard id xs in if x == id then rest else x ∷ rest

-- A worker lets a task go.
unfoldable pub remove_one : String → List String → List String
remove_one id [] = []
remove_one id (x ∷ xs) = let rest = remove_one id xs in if x == id then xs else x ∷ rest

module _ {A : Type 0} where
  -- `dict.get`, `dict.pop(key, None)` and `dict[key] = value`
  unfoldable pub get : String → List (String × A) → Option A
  get id [] = none
  get id ((k, a) ∷ xs) = if k == id then some a else get id xs

  unfoldable pub pop : String → List (String × A) → List (String × A)
  pop id [] = []
  pop id ((k, a) ∷ xs) = let rest = pop id xs in if k == id then rest else (k, a) ∷ rest

  unfoldable pub set : String → A → List (String × A) → List (String × A)
  unfolding pop
  set id a xs = (id, a) ∷ pop id xs

-- `self._queue.put_nowait((task_id, preclaimed))`; `none` is `queue.Full`.
unfoldable pub put_nowait : String → Bool → Executor → Option Executor
put_nowait task_id preclaimed s =
    if ltb (length s.queue) s.max_queue_size
    then some (record s { queue = s.queue ++ ((task_id, preclaimed) ∷ []) })
    else none
