-- ===== src/Batch/Steps.antt =====
-- Each step of the loop of a run keeps its invariant.
use novel_crawler.Prelude.{
  ℕ, suc, String, false, not, ◌||◌, List, [], ◌∷◌, Option, none, some, is_some, ◌≡◌, refl, leb, ltb,
  Bool-cases, Result-cases, inl, inr, Result, ok, err,
}
use novel_crawler.Task.Python.{Python}
use novel_crawler.Task.Checks.{Limits}
use novel_crawler.Chapter.Rows.{ChapterRow, ClaimLease, ChapterError, is_done}
use novel_crawler.Chapter.Claims.{claim_chapter, release_chapter_claim, mark_failed}
use novel_crawler.Chapter.Done.{Library, Store, mark_done}
use novel_crawler.Chapter.Calls.{perform_all, claimed_or, failed_or}
use novel_crawler.Chapter.Closed.{mark_done_closed}
use novel_crawler.Chapter.Open.{
  is_open_at, Closes, Closes-trans, claim-Closes, release-Closes, mark_failed-Closes,
  mark_done-Closes, perform_all-Closes,
}
use novel_crawler.Batch.Settings.{
  Settings, BatchError, Processed, text, control, terminal, interrupt, failure, Moment,
  task_control_requested, terminal_task_error, interrupted,
}
use novel_crawler.Batch.Payload.{Numbers}
use novel_crawler.Batch.Loop.{Loop, Outcome, ◌then_do◌, max, Context}
use novel_crawler.Batch.Runner.{
  retry, tick, release_and_raise, fail_chapter, marked, process, claimed, claim_and_process, handle,
  flush, step, iterate, final_save,
}
use novel_crawler.Batch.Passed.{
  AllPassed-Closes, Inv, After, returned, raised, After-then_do, Inv-kept,
}
use novel_crawler.Batch.Saving.{check_control-After, counts_and_save-After}
use novel_crawler.Batch.Upkeep.{advance, unretry, tick-Keeps, store-Keeps}

module _ (py : Python) (limits : Limits) (lib : Library) (numbers : Numbers)
    (processor : ChapterRow → Processed) (settings : Settings) (context : Context) (start : ℕ) where
  abbrev Keeps : List ChapterRow → Loop → Type 0
  Keeps rest loop = Inv context.book_id start settings.chapter_end rest loop

  abbrev Ends : List ChapterRow → Outcome → Type 0
  Ends rest out = After context.book_id start settings.chapter_end (Keeps rest) out

  abbrev retried : ℕ → Loop → Loop
  retried i loop = retry py limits lib numbers processor settings context i loop

  abbrev ticked : Loop → Loop
  ticked loop = tick py limits lib numbers processor settings context loop

  -- The chapter is closed, or is to be retried, wherever a branch returns.
  module _ (c : ChapterRow) (cs : List ChapterRow) (lease : ClaimLease) (moment : Moment) where
    abbrev Busy : Loop → Type 0
    Busy loop = Keeps cs (retried c.chapter_index loop)

    Busy-store :
        (loop : Loop) (store : Store)
        → Closes loop.store.chapters store.chapters
        → Busy loop
        → Busy (record loop { store = store })
    Busy-store loop store closes busy =
        store-Keeps py limits lib numbers processor settings context start cs
          (retried c.chapter_index loop) store closes busy

    release-Ends :
        (error : BatchError) (loop : Loop)
        → Busy loop
        → Ends cs (
            release_and_raise py limits lib numbers processor settings context c.chapter_index lease
              error loop)
    unfolding release_and_raise
    release-Ends error loop busy =
        let rows = loop.store.chapters in
        let sound =
          AllPassed-Closes context.book_id start settings.chapter_end loop.saves rows
            (release_chapter_claim context.book_id c.chapter_index lease rows).0
            (release-Closes context.book_id c.chapter_index lease rows) busy.sound in
        elim (Result-cases (release_chapter_claim context.book_id c.chapter_index lease rows).1) [
          | inl (u, done) ↦ rw done (raised sound)
          | inr (e, fails) ↦ rw fails (raised sound)
        ]

    fail-Ends :
        (loop : Loop)
        → Busy loop
        → Ends cs (
            fail_chapter py limits lib numbers processor settings context c.chapter_index lease
              moment loop)
    unfolding fail_chapter
    fail-Ends loop busy =
        let rows = loop.store.chapters in
        let outcome =
          mark_failed context.book_id c.chapter_index "chapter_processor_failed" (some lease)
            moment.fail_time rows in
        returned (
          tick-Keeps py limits lib numbers processor settings context start cs
            (retried c.chapter_index
              (record loop { store = record loop.store { chapters = failed_or rows outcome } }))
            (Busy-store loop (record loop.store { chapters = failed_or rows outcome })
              (mark_failed-Closes context.book_id c.chapter_index "chapter_processor_failed"
                (some lease) moment.fail_time rows)
              busy))

    marked-Ends :
        (loop : Loop) (out : Store × Result ChapterError String)
        → Busy loop
        → Closes loop.store.chapters out.0.chapters
        → ((path : String)
            → out.1 ≡ ok path
            → is_open_at context.book_id c.chapter_index out.0.chapters ≡ false)
        → Ends cs (
            marked py limits lib numbers processor settings context c.chapter_index lease moment
              loop out)
    marked-Ends loop (store, ok path) busy closes closed =
        let loop' : Loop = record loop { store = store } in
        returned (
          tick-Keeps py limits lib numbers processor settings context start cs loop' (
            unretry py limits lib numbers processor settings context start c.chapter_index cs loop'
              (Busy-store loop store closes busy) (closed path refl)))
    marked-Ends loop (store, err e) busy closes closed =
        fail-Ends (record loop { store = store }) (Busy-store loop store closes busy)

    process-Ends :
        (loop : Loop) (processed : Processed)
        → Busy loop
        → Ends cs
            (process py limits lib numbers processor settings context c lease moment loop processed)
    unfolding process
    process-Ends loop (text content) busy =
        marked-Ends loop
          (mark_done lib context.book_id c.chapter_index c.title content (some lease)
            moment.mark_time settings.reject_duplicate_content loop.store)
          busy
          (mark_done-Closes lib context.book_id c.chapter_index c.title content (some lease)
            moment.mark_time settings.reject_duplicate_content loop.store)
          (λ path h.
            mark_done_closed lib context.book_id c.chapter_index c.title content (some lease)
              moment.mark_time settings.reject_duplicate_content loop.store path busy.unique h)
    process-Ends loop control busy = release-Ends task_control_requested loop busy
    process-Ends loop terminal busy = release-Ends terminal_task_error loop busy
    process-Ends loop interrupt busy = release-Ends interrupted loop busy
    process-Ends loop failure busy = fail-Ends loop busy

  module _ (c : ChapterRow) (cs : List ChapterRow) (moment : Moment) where
    claimed-Ends :
        (loop : Loop) (r : Result ChapterError (List ChapterRow × Option ClaimLease))
        → Keeps cs (retried c.chapter_index loop)
        → Closes loop.store.chapters (claimed_or loop.store.chapters r)
        → Ends cs (claimed py limits lib numbers processor settings context c moment loop r)
    claimed-Ends loop (err e) busy closes = raised busy.sound
    claimed-Ends loop (ok (rows, none)) busy closes = returned busy
    claimed-Ends loop (ok (rows, some lease)) busy closes =
        let before : Store = record loop.store { chapters = rows } in
        let store = perform_all lib moment.during before in
        process-Ends c cs lease moment (record loop { store = store }) (processor c)
          (Busy-store c cs lease moment loop store
            (Closes-trans loop.store.chapters rows store.chapters closes
              (perform_all-Closes lib moment.during before))
            busy)

    claim-Ends :
        (loop : Loop)
        → Keeps cs (retried c.chapter_index loop)
        → Ends cs (claim_and_process py limits lib numbers processor settings context c moment loop)
    unfolding claim_and_process
    claim-Ends loop busy =
        let store = perform_all lib moment.before_claim loop.store in
        claimed-Ends (record loop { store = store })
          (claim_chapter context.book_id c.chapter_index context.task_id moment.claim_time
            settings.claim_lease_seconds moment.token store.chapters)
          (store-Keeps py limits lib numbers processor settings context start cs
            (retried c.chapter_index loop) store
            (perform_all-Closes lib moment.before_claim loop.store) busy)
          (claim-Closes context.book_id c.chapter_index context.task_id moment.claim_time
            settings.claim_lease_seconds moment.token store.chapters)

    handle-Ends :
        (loop : Loop)
        → Keeps (c ∷ cs) loop
        → Ends cs (handle py limits lib numbers processor settings context c moment loop)
    unfolding handle
    handle-Ends loop inv =
        let busy = advance py limits lib numbers processor settings context start c cs loop inv in
        let loop' : Loop = record loop { final_next = max loop.final_next (suc c.chapter_index) } in
        elim (Bool-cases (is_done c.status)) [
          | inl finished ↦ rw finished (
              returned (
                tick-Keeps py limits lib numbers processor settings context start cs loop' (
                  unretry py limits lib numbers processor settings context start c.chapter_index cs
                    loop' busy (inv.settled.0 finished))))
          | inr open_ ↦ rw open_ (claim-Ends loop' busy)
        ]

    flush-Ends :
        (loop : Loop)
        → Keeps cs loop
        → Ends cs (flush py limits lib numbers processor settings context moment loop)
    unfolding flush
    flush-Ends loop inv = elim (Bool-cases (leb settings.batch_size loop.pending_batch)) [
      | inr small ↦ rw small (returned inv)
      | inl full ↦ rw full (
          After-then_do context.book_id start settings.chapter_end
            {next = λ loop. (record loop { pending_batch = 0 }, ok tt)}
            (counts_and_save-After context.book_id start settings.chapter_end py limits numbers
              settings context cs moment loop inv)
            (λ loop inv. returned (
              Inv-kept context.book_id start settings.chapter_end cs loop loop.db 0
                loop.checkpoint_version loop.succeeded loop.failed inv)))
    ]

    step-Ends :
        (loop : Loop)
        → Keeps (c ∷ cs) loop
        → Ends cs (step py limits lib numbers processor settings context c moment loop)
    unfolding step
    step-Ends loop inv =
        After-then_do context.book_id start settings.chapter_end
          {next = λ loop.
            handle py limits lib numbers processor settings context c moment loop
            then_do flush py limits lib numbers processor settings context moment}
          (check_control-After context.book_id start settings.chapter_end py limits numbers settings
            context (c ∷ cs) moment.before_check loop inv)
          (λ loop inv.
            After-then_do context.book_id start settings.chapter_end
              {next = flush py limits lib numbers processor settings context moment}
              (handle-Ends loop inv) flush-Ends)

  pub iterate-Ends :
      (moments : ℕ → Moment) (cs : List ChapterRow) (loop : Loop)
      → Keeps cs loop
      → Ends [] (iterate py limits lib numbers processor settings context moments cs loop)
  unfolding iterate
  iterate-Ends moments [] loop inv = returned inv
  iterate-Ends moments (c ∷ cs) loop inv =
      After-then_do context.book_id start settings.chapter_end
        {next = iterate py limits lib numbers processor settings context moments cs}
        (step-Ends c cs (moments c.chapter_index) loop inv) (iterate-Ends moments cs)

  pub final_save-Ends :
      (moment : Moment) (loop : Loop)
      → Keeps [] loop
      → Ends [] (final_save py limits lib numbers processor settings context moment loop)
  unfolding final_save
  final_save-Ends moment loop inv =
      elim (Bool-cases (ltb 0 loop.pending_batch || not (is_some loop.checkpoint_version))) [
        | inr clean ↦ rw clean (returned inv)
        | inl due ↦ rw due (
            counts_and_save-After context.book_id start settings.chapter_end py limits numbers
              settings context [] moment loop inv)
      ]
