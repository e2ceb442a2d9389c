-- ===== src/Executor/Submit.antt =====
-- What `submit` promises to its caller.
use novel_crawler.Prelude.{
  ◌≤◌, String, Bool, true, false, ◌∷◌, ◌≡◌, arith, eq_iff, eq_refl, length, Result, ok, err,
}
use novel_crawler.Task.Python.{Python}
use novel_crawler.Task.Records.{TaskRecord, TaskError}
use novel_crawler.Task.Db.{Db}
use novel_crawler.Task.Repository.{get_task}
use novel_crawler.Executor.State.{
  Executor, ExecutorError, repository_error, executor_queue_full, is_in, put_nowait,
}
use novel_crawler.Executor.Schedule.{Scheduling, enqueue, submit_found, submit}
use novel_crawler.Executor.Counts.{is_in-discard}

record IsQueued (id : String) (out : Scheduling) : Type 0 where
  open_ : out.0.closing ≡ false
  there : is_in id out.0.scheduled ≡ true

IsQueued-of :
    (id : String) (s : Executor) (found : Result TaskError TaskRecord)
    → (submit_found id s found).1 ≡ ok true
    → IsQueued id (submit_found id s found)
unfolding submit_found enqueue is_in put_nowait
IsQueued-of id s (err e) h = record { open_ = ground arith; there = ground arith }
IsQueued-of id s (ok task) h = record { open_ = ground arith; there = ground (arith, eq_refl id) }

full_of :
    (id : String) (s : Executor) (found : Result TaskError TaskRecord)
    → (submit_found id s found).1 ≡ err executor_queue_full
    → let s' = (submit_found id s found).0 in
      (s.max_queue_size ≤ length s.queue)
      × (s'.queue ≡ s.queue)
      × (s'.running ≡ s.running)
      × (s'.pending_resumes ≡ s.pending_resumes)
      × ((x : String) → is_in x s'.scheduled ≡ is_in x s.scheduled)
unfolding submit_found enqueue put_nowait
full_of id s (err e) h = absurd (other h)
  where
    other :
        {e : TaskError}
        → Path (Result ExecutorError Bool) (err (repository_error e)) (err executor_queue_full)
        → ⊥
    other h = cc
full_of id s (ok task) h = (
  ground arith,
  ground arith,
  ground arith,
  ground arith,
  λ x. unfold is_in in ground (arith, is_in-discard id x (id ∷ s.scheduled), eq_iff id x),
)

again_false :
    (id : String) (s : Executor) (task : TaskRecord)
    → s.closing ≡ false
    → is_in id s.scheduled ≡ true
    → submit_found id s (ok task) ≡ (s, ok false)
unfolding submit_found
again_false id s task open_ there = rw (open_, there) (ground arith)

module _ (py : Python) (id : String) (db : Db) (s : Executor) where
  -- Behind a `submit` that returned true, the next `submit` of a task that the repository knows returns
  -- false and changes nothing: one request is queued.
  pub submit_once :
      (db' : Db) (task : TaskRecord)
      → (submit py id db s).1 ≡ ok true
      → get_task py id db' ≡ ok task
      → submit py id db' (submit py id db s).0 ≡ ((submit py id db s).0, ok false)
  unfolding submit
  submit_once db' task h found =
      let queued = IsQueued-of id s (get_task py id db) h in
      rw found
        (again_false id (submit_found id s (get_task py id db)).0 task queued.open_ queued.there)

  -- A `submit` that raises `ExecutorQueueFull` finds the queue at its bound and leaves the queue, the
  -- workers and the pending resumes alone, and the same tasks scheduled.
  pub submit_full :
      (submit py id db s).1 ≡ err executor_queue_full
      → let s' = (submit py id db s).0 in
        (s.max_queue_size ≤ length s.queue)
        × (s'.queue ≡ s.queue)
        × (s'.running ≡ s.running)
        × (s'.pending_resumes ≡ s.pending_resumes)
        × ((x : String) → is_in x s'.scheduled ≡ is_in x s.scheduled)
  unfolding submit
  submit_full h = full_of id s (get_task py id db) h
