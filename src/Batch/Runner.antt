-- ===== src/Batch/Runner.antt =====
-- `ChapterBatchRunner.__call__`
use novel_crawler.Prelude.{
  ℕ, suc, ◌+◌, String, Bool, true, false, not, ◌||◌, List, [], ◌∷◌, Option, none, some, is_some,
  leb, ltb, if◌then◌else◌, Result, ok, err, ◌>>=◌, ◌>>◌, raise_if,
}
use novel_crawler.Task.Status.{TaskStatus, completed, recoverable_failed}
use novel_crawler.Task.Python.{Python}
use novel_crawler.Task.Checks.{Limits}
use novel_crawler.Task.Records.{TaskRecord, TaskError, CheckpointRecord, checkpoint_not_found}
use novel_crawler.Task.Db.{Db}
use novel_crawler.Task.Repository.{load_checkpoint}
use novel_crawler.Chapter.Rows.{ChapterRow, ClaimLease, ChapterError, is_done}
use novel_crawler.Chapter.Claims.{claim_chapter, release_chapter_claim, mark_failed}
use novel_crawler.Chapter.Done.{Library, Store, mark_done}
use novel_crawler.Chapter.Reading.{all_chapters}
use novel_crawler.Chapter.Calls.{perform_all, failed_or}
use novel_crawler.Batch.Settings.{
  Settings, BatchError, task_control_requested, terminal_task_error, interrupted, value_error,
  task_error, chapter_error, Processed, text, control, terminal, interrupt, failure, Moment,
}
use novel_crawler.Batch.Payload.{Numbers, payload_get, positive_int, nonnegative_int}
use novel_crawler.Batch.Loop.{
  Loop, Outcome, ◌then_do◌, max, Context, check_control, counts_and_save,
}

-- What the run starts from: the checkpoint, or the first chapter.
pub record Prior : Type 0 where
  pub version : Option ℕ
  pub next_index : ℕ
  pub succeeded : ℕ
  pub failed : ℕ

abbrev pub is_past : ℕ → Option ℕ → Bool
is_past next_index none = false
is_past next_index (some end) = ltb (end + 1) next_index

abbrev pub is_finished : ℕ → Option ℕ → Bool
is_finished next_index none = false
is_finished next_index (some end) = ltb end next_index

module _ (py : Python) (limits : Limits) (lib : Library) (numbers : Numbers)
    (processor : ChapterRow → Processed) (settings : Settings) (context : Context) where
  unfoldable pub prior_of : Result TaskError CheckpointRecord → Result BatchError Prior
  prior_of (err checkpoint_not_found) =
      ok (record { version = none; next_index = settings.chapter_start; succeeded = 0; failed = 0 })
  prior_of (err e) = err (task_error e)
  prior_of (ok prior) = do
    next_index ←
        positive_int numbers (payload_get "next_index" prior.payload)
          "checkpoint_next_index_invalid"
    raise_if (ltb next_index settings.chapter_start || is_past next_index settings.chapter_end)
        (value_error "checkpoint_next_index_invalid")
    succeeded ←
        nonnegative_int numbers (payload_get "succeeded" prior.payload)
          "checkpoint_succeeded_invalid"
    failed ←
        nonnegative_int numbers (payload_get "failed" prior.payload) "checkpoint_failed_invalid"
    ok (record {
      version = some prior.version;
      next_index = next_index;
      succeeded = succeeded;
      failed = failed;
    })

  abbrev pub retry : ℕ → Loop → Loop
  retry index loop = record loop { retry_indices = index ∷ loop.retry_indices }

  abbrev pub tick : Loop → Loop
  tick loop = record loop { pending_batch = suc loop.pending_batch }

  -- `release_chapter_claim`, and then `raise`
  unfoldable pub release_and_raise : ℕ → ClaimLease → BatchError → Loop → Outcome
  release_and_raise index lease error loop =
      let (rows, released) =
        release_chapter_claim context.book_id index lease loop.store.chapters in
      (
        record loop { store = record loop.store { chapters = rows } },
        elim released [ ok u ↦ err error | err e ↦ err (chapter_error e) ],
      )

  -- The handler of `except Exception`: a claim conflict of `mark_failed` is passed over.
  unfoldable pub fail_chapter : ℕ → ClaimLease → Moment → Loop → Outcome
  fail_chapter index lease moment loop =
      let rows = loop.store.chapters in
      let failed =
        mark_failed context.book_id index "chapter_processor_failed" (some lease) moment.fail_time
          rows in
      (
        tick (
            retry index
              (record loop { store = record loop.store { chapters = failed_or rows failed } })),
        ok tt,
      )

  abbrev pub marked : ℕ → ClaimLease → Moment → Loop → Store × Result ChapterError String → Outcome
  marked index lease moment loop (store, ok path) = (tick (record loop { store = store }), ok tt)
  marked index lease moment loop (store, err e) =
      fail_chapter index lease moment (record loop { store = store })

  -- The `try` around the processor and `mark_done`.
  unfoldable pub process : ChapterRow → ClaimLease → Moment → Loop → Processed → Outcome
  unfolding release_and_raise fail_chapter
  process chapter lease moment loop (text content) =
      marked chapter.chapter_index lease moment loop (
        mark_done lib context.book_id chapter.chapter_index chapter.title content (some lease)
          moment.mark_time settings.reject_duplicate_content loop.store)
  process chapter lease moment loop control =
      release_and_raise chapter.chapter_index lease task_control_requested loop
  process chapter lease moment loop terminal =
      release_and_raise chapter.chapter_index lease terminal_task_error loop
  process chapter lease moment loop interrupt =
      release_and_raise chapter.chapter_index lease interrupted loop
  process chapter lease moment loop failure = fail_chapter chapter.chapter_index lease moment loop

  abbrev pub with_store : Loop → Store → Loop
  with_store loop store = record loop { store = store }

  -- The branches on the lease; others act while the processor runs.
  abbrev pub claimed :
      ChapterRow
      → Moment
      → Loop
      → Result ChapterError (List ChapterRow × Option ClaimLease)
      → Outcome
  claimed chapter moment loop (err e) = (loop, err (chapter_error e))
  claimed chapter moment loop (ok (rows, none)) = (retry chapter.chapter_index loop, ok tt)
  claimed chapter moment loop (ok (rows, some lease)) =
      process chapter lease moment
        (with_store loop (perform_all lib moment.during (record loop.store { chapters = rows })))
        (processor chapter)

  unfoldable pub claim_and_process : ChapterRow → Moment → Loop → Outcome
  unfolding process
  claim_and_process chapter moment loop =
      let loop' = with_store loop (perform_all lib moment.before_claim loop.store) in
      claimed chapter moment loop' (
        claim_chapter context.book_id chapter.chapter_index context.task_id moment.claim_time
          settings.claim_lease_seconds moment.token loop'.store.chapters)

  unfoldable pub handle : ChapterRow → Moment → Loop → Outcome
  unfolding claim_and_process
  handle chapter moment loop =
      let loop' = record loop { final_next = max loop.final_next (suc chapter.chapter_index) } in
      if is_done chapter.status then (tick loop', ok tt) else claim_and_process chapter moment loop'

  -- The checkpoint of a full batch.
  unfoldable pub flush : Moment → Loop → Outcome
  unfolding counts_and_save
  flush moment loop =
      if leb settings.batch_size loop.pending_batch
      then (counts_and_save py limits numbers settings context moment loop then_do λ loop.
          (record loop { pending_batch = 0 }, ok tt))
      else (loop, ok tt)

  unfoldable pub step : ChapterRow → Moment → Loop → Outcome
  unfolding check_control handle flush
  step chapter moment loop =
      check_control py limits numbers settings context moment.before_check loop then_do λ loop.
      handle chapter moment loop then_do λ loop. flush moment loop

  -- The loop; `moments` says what happens around the chapter of an index.
  unfoldable pub iterate : (ℕ → Moment) → List ChapterRow → Loop → Outcome
  unfolding step
  iterate moments [] loop = (loop, ok tt)
  iterate moments (chapter ∷ chapters) loop =
      step chapter (moments chapter.chapter_index) loop then_do λ loop.
      iterate moments chapters loop

  unfoldable pub final_save : Moment → Loop → Outcome
  unfolding counts_and_save
  final_save moment loop =
      if ltb 0 loop.pending_batch || not (is_some loop.checkpoint_version)
      then counts_and_save py limits numbers settings context moment loop
      else (loop, ok tt)

  -- `chapters` of the run.
  unfoldable pub chapters_from : ℕ → List ChapterRow → Result ChapterError (List ChapterRow)
  chapters_from next_index rows =
      if is_finished next_index settings.chapter_end
      then ok []
      else all_chapters context.book_id (some next_index) settings.chapter_end rows

  abbrev pub start_loop : Prior → Db → Store → Loop
  start_loop prior db store = record {
    db = db;
    store = store;
    pending_batch = 0;
    final_next = prior.next_index;
    retry_indices = [];
    checkpoint_version = prior.version;
    succeeded = prior.succeeded;
    failed = prior.failed;
    saves = [];
  }

  abbrev pub is_empty : List ℕ → Bool
  is_empty [] = true
  is_empty (i ∷ is) = false

  -- The status that a run returns.
  abbrev pub result_of : Outcome → Loop × Result BatchError TaskStatus
  result_of (loop, err e) = (loop, err e)
  result_of (loop, ok u) = (
    loop,
    ok (
        if ltb 0 loop.failed || not (is_empty loop.retry_indices)
        then recoverable_failed
        else completed),
  )

  unfoldable pub run_chapters :
      (ℕ → Moment) → Moment → Loop → Result ChapterError (List ChapterRow) → Outcome
  unfolding iterate final_save
  run_chapters moments last loop (err e) = (loop, err (chapter_error e))
  run_chapters moments last loop (ok chapters) =
      iterate moments chapters loop then_do λ loop. final_save last loop

  unfoldable pub run_from :
      (ℕ → Moment) → Moment → Prior → Db → Store → Loop × Result BatchError TaskStatus
  unfolding run_chapters chapters_from
  run_from moments last prior db store = result_of (
      run_chapters moments last (start_loop prior db store)
        (chapters_from prior.next_index store.chapters))

-- `task.metadata.get("book_id")`
unfoldable pub book_of : Numbers → TaskRecord → Result BatchError ℕ
unfolding positive_int
book_of numbers task =
    positive_int numbers (payload_get "book_id" task.metadata) "task_book_id_invalid"

module _ (py : Python) (limits : Limits) (lib : Library) (numbers : Numbers)
    (processor : ChapterRow → Processed) (settings : Settings) where
  abbrev pub context_of : TaskRecord → ℕ → Context
  context_of task book = record {
    task_id = task.task_id;
    expected_task_version = task.version;
    book_id = book;
  }

  -- What the run reads first: its book, and the checkpoint.
  unfoldable pub begin : TaskRecord → Db → Result BatchError (ℕ × Prior)
  unfolding book_of prior_of
  begin task db = do
    book ← book_of numbers task
    prior ←
        prior_of py limits lib numbers processor settings (context_of task book)
          (load_checkpoint py task.task_id settings.checkpoint_key db)
    ok (book, prior)

  -- `__call__`: the tables and variables at its end, `none` where it raised before its loop.
  unfoldable pub call :
      (ℕ → Moment) → Moment → TaskRecord → Db → Store → Option Loop × Result BatchError TaskStatus
  unfolding begin run_from
  call moments last task db store = elim (begin task db) [
    | err e ↦ (none, err e)
    | ok (book, prior) ↦
        let (loop, result) =
          run_from py limits lib numbers processor settings (context_of task book) moments last
            prior db store in
        (some loop, result)
  ]
