-- ===== src/Batch/Loop.antt =====
-- The state of `ChapterBatchRunner.__call__`, and the calls on the repository and the store that it
-- makes: `check_control` and `checkpoint` of executor.py, `_counts` and `_save`.
use novel_crawler.Prelude.{
  ℕ, String, Bool, not, ◌||◌, List, [], ◌∷◌, Option, some, leb, ◌=?◌, if◌then◌else◌, Result, ok,
  err,
}
use novel_crawler.Task.Status.{paused, cancelled, same_status}
use novel_crawler.Task.Python.{Python}
use novel_crawler.Task.Checks.{Limits}
use novel_crawler.Task.Records.{TaskRecord, TaskError, CheckpointRecord}
use novel_crawler.Task.Db.{Db}
use novel_crawler.Task.Repository.{get_task, save_checkpoint}
use novel_crawler.Task.Calls.{Call, run}
use novel_crawler.Chapter.Rows.{ChapterError}
use novel_crawler.Chapter.Done.{Store}
use novel_crawler.Chapter.Reading.{Progress, progress}
use novel_crawler.Batch.Settings.{
  Settings, BatchError, task_control_requested, task_error, chapter_error, Moment,
}
use novel_crawler.Batch.Payload.{Numbers, payload}

-- The tables, and the variables of the loop. `saves` are the `next_index` of the checkpoints that the
-- run has written, the last one first.
pub record Loop : Type 0 where
  pub db : Db
  pub store : Store
  pub pending_batch : ℕ
  pub final_next : ℕ
  pub retry_indices : List ℕ
  pub checkpoint_version : Option ℕ
  pub succeeded : ℕ
  pub failed : ℕ
  pub saves : List ℕ

-- A part of the run: what it leaves, and whether it raised.
abbrev pub Outcome : Type 0
Outcome = Loop × Result BatchError Unit

infixl 5 ◌then_do◌
abbrev pub ◌then_do◌ : Outcome → (Loop → Outcome) → Outcome
(loop, ok u) then_do next = next loop
(loop, err e) then_do next = (loop, err e)

-- `min(retry_indices, default=final_next)`
unfoldable pub min_index : ℕ → List ℕ → ℕ
min_index default [] = default
min_index default (i ∷ is) = let rest = min_index i is in if leb i rest then i else rest

abbrev pub max : ℕ → ℕ → ℕ
max a b = if leb a b then b else a

-- What a run knows: its task, and the version at which it was claimed.
pub record Context : Type 0 where
  pub task_id : String
  pub expected_task_version : ℕ
  pub book_id : ℕ

abbrev pub is_control : ℕ → TaskRecord → Bool
is_control version task =
    not (task.version =? version)
    || (same_status task.status paused || same_status task.status cancelled)

unfoldable pub control_of : ℕ → Result TaskError TaskRecord → Result BatchError Unit
control_of version (err e) = err (task_error e)
control_of version (ok task) = if is_control version task then err task_control_requested else ok tt

module _ (py : Python) (limits : Limits) (numbers : Numbers) (settings : Settings)
    (context : Context) where
  -- `check_control(force=True)`, after what others did.
  unfoldable pub check_control : List Call → Loop → Outcome
  unfolding control_of
  check_control others loop =
      let db' = run py limits others loop.db in
      (
        record loop { db = db' },
        control_of context.expected_task_version (get_task py context.task_id db'),
      )

  abbrev pub saved : ℕ → Loop → Db × Result TaskError CheckpointRecord → Outcome
  saved next_index loop (db', ok r) = (
    record loop { db = db'; checkpoint_version = some r.version; saves = next_index ∷ loop.saves },
    ok tt,
  )
  saved next_index loop (db', err e) = (record loop { db = db' }, err (task_error e))

  -- The call of `save_checkpoint` that `context.checkpoint` makes.
  unfoldable pub save_now : Moment → Loop → Outcome
  unfolding min_index
  save_now moment loop =
      let next_index = min_index loop.final_next loop.retry_indices in
      saved next_index loop (
        save_checkpoint py limits context.task_id settings.checkpoint_key
          (payload numbers next_index loop.succeeded loop.failed) loop.checkpoint_version
          moment.save_time loop.db)

  -- `_save`, by `context.checkpoint`
  unfoldable pub save : Moment → Loop → Outcome
  unfolding check_control save_now
  save moment loop = check_control moment.before_save loop then_do save_now moment

  abbrev pub counted : Loop → Result ChapterError Progress → Outcome
  counted loop (ok p) = (record loop { succeeded = p.done_count; failed = p.failed_count }, ok tt)
  counted loop (err e) = (loop, err (chapter_error e))

  -- `_counts`
  unfoldable pub counts : Loop → Outcome
  counts loop = counted loop (
      progress context.book_id (some settings.chapter_start) settings.chapter_end
        loop.store.chapters)

  unfoldable pub counts_and_save : Moment → Loop → Outcome
  unfolding counts save
  counts_and_save moment loop = counts loop then_do save moment
