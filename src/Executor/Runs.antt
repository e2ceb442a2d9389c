-- ===== src/Executor/Runs.antt =====
-- Every order of the steps of the threads: callers, workers and the shutdown.
use novel_crawler.Prelude.{
  ℕ, String, Bool, true, List, [], ◌∷◌, none, some, ◌≡◌, ◌⊎◌, refl, arith, inl, inr, ap, some_inj,
  ok,
}
use novel_crawler.Task.Status.{TaskStatus}
use novel_crawler.Task.Python.{Python}
use novel_crawler.Task.Records.{TaskRecord}
use novel_crawler.Task.Db.{Db}
use novel_crawler.Task.Repository.{get_task}
use novel_crawler.Executor.State.{Executor, started, is_in, get}
use novel_crawler.Executor.Schedule.{submit, schedule_active, schedule_resumed}
use novel_crawler.Executor.Worker.{take_task, finish}
use novel_crawler.Executor.Counts.{count_queue, count_id}
use novel_crawler.Executor.Steps.{
  Sound, either-Sound, submit_found-Sound, activate_found-Sound, resume_found-Sound,
}
use novel_crawler.Executor.Workers.{take-Sound, finish-Sound}

-- One section under the lock, or one `get` of the queue, by some thread, at some time.
pub data Step (py : Python) (s s' : Executor) : Type 0 where
  submitted : (id : String) (db : Db) → s' ≡ (submit py id db s).0 → Step py s s'
  activated : (id : String) (db : Db) → s' ≡ (schedule_active py id db s).0 → Step py s s'
  resumed :
      (id : String) (preclaimed : Bool) (rollback_status : TaskStatus) (db : Db) (task : TaskRecord)
      → get_task py id db ≡ ok task
      → s' ≡ (schedule_resumed py id preclaimed rollback_status db s).0
      → Step py s s'
  taken :
      (id : String) (preclaimed : Bool) → take_task s ≡ some (s', (id, preclaimed)) → Step py s s'
  finished : (id : String) → is_in id s.running ≡ true → s' ≡ (finish id s).0 → Step py s s'
  closed : s' ≡ record s { closing = true } → Step py s s'

pub data Reachable (py : Python) (max_queue_size : ℕ) : Executor → Type 0 where
  start : Reachable py max_queue_size (started max_queue_size)
  next :
      {s s' : Executor}
      → Reachable py max_queue_size s
      → Step py s s'
      → Reachable py max_queue_size s'

started-Sound : (n : ℕ) → Sound (started n)
unfolding is_in count_queue count_id get
started-Sound n = record { once = λ x. refl; pending = λ x h. cc; bounded = ground arith }

queue_cases :
    (q : List (String × Bool))
    → (q ≡ []) ⊎ ((id : String) × (b : Bool) × (rest : List (String × Bool)) × (q ≡ (id, b) ∷ rest))
queue_cases [] = inl refl
queue_cases ((id, b) ∷ rest) = inr (id, b, rest, refl)

take_task-Sound :
    (s s' : Executor) (id : String) (b : Bool)
    → Sound s
    → take_task s ≡ some (s', (id, b))
    → Sound s'
unfolding take_task
take_task-Sound s s' id b good h = elim (queue_cases s.queue) [
  | inl empty ↦ absurd (none≢some (rw empty at h))
  | inr (id', b', rest, front) ↦
      let after : record s { queue = rest; running = id' ∷ s.running } ≡ s' =
        ap (λ r. r.0) (some_inj (rw front at h)) in
      rw (← after) (take-Sound s id' b' rest good front)
]
  where
    none≢some : {x : Executor × (String × Bool)} → none ≡ some x → ⊥
    none≢some e = cc

Step-Sound : (py : Python) (s s' : Executor) → Sound s → Step py s s' → Sound s'
unfolding submit schedule_active schedule_resumed
Step-Sound py s s' good (submitted id db e) =
    rw e (submit_found-Sound s good id (get_task py id db))
Step-Sound py s s' good (activated id db e) = rw e (
    either-Sound s.closing _ _ (λ h. good)
      (λ h. activate_found-Sound s good id (get_task py id db)))
Step-Sound py s s' good (resumed id b r db task found e) =
    rw (e, found)
      (either-Sound s.closing _ _ (λ h. good) (λ h. resume_found-Sound s good id task b r))
Step-Sound py s s' good (taken id b h) = take_task-Sound s s' id b good h
Step-Sound py s s' good (finished id mine e) = rw e (finish-Sound s good id mine)
Step-Sound py s s' good (closed e) =
    rw e (record { once = good.once; pending = good.pending; bounded = good.bounded })

-- In every state that the threads can reach, in whatever order they run, each scheduled task is once
-- in the queue or in the hands of a worker, and no other task is; a resume waits only for a scheduled
-- task; and the queue is within its bound.
pub Reachable-Sound : (py : Python) (n : ℕ) (s : Executor) → Reachable py n s → Sound s
Reachable-Sound py n s start = started-Sound n
Reachable-Sound py n s (next {s = before} path step) =
    Step-Sound py before s (Reachable-Sound py n before path) step
