-- ===== src/Batch/Saving.antt =====
-- The calls of a run on the repository and on the counts keep its invariant.
use novel_crawler.Prelude.{ℕ, List, Option, some, Result, ok, err}
use novel_crawler.Task.Python.{Python}
use novel_crawler.Task.Checks.{Limits}
use novel_crawler.Task.Records.{TaskError, CheckpointRecord}
use novel_crawler.Task.Db.{Db}
use novel_crawler.Task.Repository.{save_checkpoint}
use novel_crawler.Task.Calls.{Call, run}
use novel_crawler.Chapter.Rows.{ChapterRow, ChapterError}
use novel_crawler.Chapter.Reading.{Progress, progress}
use novel_crawler.Batch.Settings.{Settings, BatchError, Moment}
use novel_crawler.Batch.Payload.{Numbers, payload}
use novel_crawler.Batch.Loop.{
  Loop, min_index, Context, check_control, counts, save, save_now, saved, counted, counts_and_save,
}
use novel_crawler.Batch.Passed.{
  AllPassed, Inv, After, returned, raised, After-then_do, Inv-kept, Inv-Passed,
}

module _ (book start : ℕ) (end : Option ℕ) where
  After-cases :
      (P : Loop → Type 0) (loop : Loop) (r : Result BatchError Unit)
      → P loop
      → AllPassed book start end loop.saves loop.store.chapters
      → After book start end P (loop, r)
  After-cases P loop (ok u) h sound = returned h
  After-cases P loop (err e) h sound = raised sound

  module _ (py : Python) (limits : Limits) (numbers : Numbers) (settings : Settings)
      (context : Context) (rest : List ChapterRow) where
    pub check_control-After :
        (others : List Call) (loop : Loop)
        → Inv book start end rest loop
        → After book start end
            (Inv book start end rest)
            (check_control py limits numbers settings context others loop)
    unfolding check_control
    check_control-After others loop inv =
        After-cases (Inv book start end rest) _ _
          (Inv-kept book start end rest loop (run py limits others loop.db) loop.pending_batch
            loop.checkpoint_version loop.succeeded loop.failed inv)
          inv.sound

    counted-After :
        (loop : Loop) (r : Result ChapterError Progress)
        → Inv book start end rest loop
        → After book start end
            (Inv book start end rest)
            (counted py limits numbers settings context loop r)
    counted-After loop (ok p) inv = returned (
        Inv-kept book start end rest loop loop.db loop.pending_batch loop.checkpoint_version
          p.done_count p.failed_count inv)
    counted-After loop (err e) inv = raised inv.sound

    saved-After :
        (loop : Loop) (r : Db × Result TaskError CheckpointRecord)
        → Inv book start end rest loop
        → After book start end (Inv book start end rest) (
            saved py limits numbers settings context
              (min_index loop.final_next loop.retry_indices)
              loop
              r)
    saved-After loop (db', err e) inv = raised inv.sound
    saved-After loop (db', ok r) inv = returned (record {
      unique = inv.unique;
      ordered = inv.ordered;
      above = inv.above;
      within = inv.within;
      settled = inv.settled;
      below = inv.below;
      inside = inv.inside;
      covered = inv.covered;
      sound = (Inv-Passed book start end rest loop inv, inv.sound);
    })

    counts-After :
        (loop : Loop)
        → Inv book start end rest loop
        → After book start end
            (Inv book start end rest)
            (counts py limits numbers settings context loop)
    unfolding counts
    counts-After loop inv =
        counted-After loop
          (progress context.book_id (some settings.chapter_start) settings.chapter_end
            loop.store.chapters)
          inv

    save_now-After :
        (moment : Moment) (loop : Loop)
        → Inv book start end rest loop
        → After book start end
            (Inv book start end rest)
            (save_now py limits numbers settings context moment loop)
    unfolding save_now
    save_now-After moment loop inv =
        saved-After loop
          (save_checkpoint py limits context.task_id settings.checkpoint_key
            (payload numbers (min_index loop.final_next loop.retry_indices) loop.succeeded
              loop.failed)
            loop.checkpoint_version moment.save_time loop.db)
          inv

    save-After :
        (moment : Moment) (loop : Loop)
        → Inv book start end rest loop
        → After book start end
            (Inv book start end rest)
            (save py limits numbers settings context moment loop)
    unfolding save
    save-After moment loop inv =
        After-then_do book start end {next = save_now py limits numbers settings context moment}
          (check_control-After moment.before_save loop inv) (save_now-After moment)

    pub counts_and_save-After :
        (moment : Moment) (loop : Loop)
        → Inv book start end rest loop
        → After book start end
            (Inv book start end rest)
            (counts_and_save py limits numbers settings context moment loop)
    unfolding counts_and_save
    counts_and_save-After moment loop inv =
        After-then_do book start end {next = save py limits numbers settings context moment}
          (counts-After loop inv) (save-After moment)
