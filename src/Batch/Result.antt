-- ===== src/Batch/Result.antt =====
-- What `ChapterBatchRunner.__call__` returns, and the checkpoints that it has written.
use novel_crawler.Prelude.{
  ℕ, ◌≤◌, true, false, not, ◌||◌, List, [], ◌∷◌, Option, none, some, ◌≡◌, refl, arith, ltb,
  if◌then◌else◌, Bool-cases, Result-cases, inl, inr, sym, ap, ◌∙◌, Result, ok, err, err≢ok, ok_inj,
}
use novel_crawler.Task.Status.{TaskStatus, completed, recoverable_failed}
use novel_crawler.Task.Python.{Python}
use novel_crawler.Task.Checks.{Limits}
use novel_crawler.Task.Records.{TaskRecord, TaskError, CheckpointRecord}
use novel_crawler.Task.Db.{Db}
use novel_crawler.Task.Repository.{load_checkpoint}
use novel_crawler.Chapter.Rows.{ChapterRow}
use novel_crawler.Chapter.Table.{Unique}
use novel_crawler.Chapter.Done.{Library, Store}
use novel_crawler.Chapter.Reading.{is_before}
use novel_crawler.Chapter.Open.{is_open_at}
use novel_crawler.Batch.Settings.{
  check_settings, is_end_valid, Settings, BatchError, Processed, Moment,
}
use novel_crawler.Batch.Payload.{Numbers, positive_int, nonnegative_int}
use novel_crawler.Batch.Loop.{Loop, Outcome, Context}
use novel_crawler.Batch.Runner.{
  Prior, prior_of, is_past, chapters_from, start_loop, run_chapters, run_from, result_of, is_empty,
  begin, book_of, call, context_of,
}
use novel_crawler.Batch.Passed.{is_listed, Passed, AllPassed, Inv, After, returned, raised}
use novel_crawler.Batch.Complete.{run-After}

some_inj : {A : Type 0} {a b : A} → some a ≡ some b → a ≡ b
some_inj h = cc

start_inside :
    (start : ℕ) (end : Option ℕ) → is_end_valid start end ≡ true → is_past start end ≡ false
start_inside start none h = refl
start_inside start (some end) h = ground arith

settings_inside :
    (second : ℕ) (settings : Settings) (u : Unit)
    → check_settings second settings ≡ ok u
    → is_past settings.chapter_start settings.chapter_end ≡ false
unfolding check_settings
settings_inside second s u h = start_inside s.chapter_start s.chapter_end (ground arith)

module _ (py : Python) (limits : Limits) (lib : Library) (numbers : Numbers)
    (processor : ChapterRow → Processed) (settings : Settings) where
  prior_inside :
      (context : Context) (r : Result TaskError CheckpointRecord) (prior : Prior)
      → is_past settings.chapter_start settings.chapter_end ≡ false
      → prior_of py limits lib numbers processor settings context r ≡ ok prior
      → is_past prior.next_index settings.chapter_end ≡ false
  unfolding prior_of positive_int nonnegative_int
  prior_inside context (err e) prior inside h = ground arith
  prior_inside context (ok r) prior inside h = ground arith

  begin_inside :
      (second : ℕ) (u : Unit) (task : TaskRecord) (db : Db) (book : ℕ) (prior : Prior)
      → check_settings second settings ≡ ok u
      → begin py limits lib numbers processor settings task db ≡ ok (book, prior)
      → is_past prior.next_index settings.chapter_end ≡ false
  unfolding begin book_of
  begin_inside second u task db book prior valid h =
      let inside = settings_inside second settings u valid in
      let read = load_checkpoint py task.task_id settings.checkpoint_key db in
      elim (Result-cases (book_of numbers task)) [
        | inr (e, fails) ↦ absurd (err≢ok (rw fails at h))
        | inl (b, found) ↦
            let context = context_of py limits lib numbers processor settings task b in
            elim (Result-cases (prior_of py limits lib numbers processor settings context read)) [
              | inr (e, fails) ↦ absurd (err≢ok (rw (found, fails) at h))
              | inl (p, started) ↦
                  let same : p ≡ prior = ap (λ r. r.1) (ok_inj (rw (found, started) at h)) in
                  rw (← same) (prior_inside context read p inside started)
            ]
      ]

  module _ (context : Context) where
    none_listed :
        (i failed : ℕ) (retries : List ℕ)
        → (if ltb 0 failed
              || not (is_empty py limits lib numbers processor settings context retries)
            then recoverable_failed
            else completed)
          ≡ completed
        → is_listed i retries ≡ false
    none_listed i failed [] h = refl
    none_listed i failed (j ∷ js) h = ground arith

    abbrev Ends : Outcome → Type 0
    Ends out =
        After context.book_id settings.chapter_start settings.chapter_end
          (Inv context.book_id settings.chapter_start settings.chapter_end []) out

    abbrev result : Outcome → Loop × Result BatchError TaskStatus
    result out = result_of py limits lib numbers processor settings context out

    result-AllPassed :
        (out : Outcome)
        → Ends out
        → AllPassed context.book_id settings.chapter_start settings.chapter_end
            (result out).0.saves
            (result out).0.store.chapters
    result-AllPassed (loop, ok u) (returned inv) = inv.sound
    result-AllPassed (loop, err e) (raised sound) = sound

    result_closed :
        (out : Outcome) (i : ℕ)
        → Ends out
        → (result out).1 ≡ ok completed
        → settings.chapter_start ≤ i
        → is_before settings.chapter_end i ≡ true
        → is_open_at context.book_id i (result out).0.store.chapters ≡ false
    result_closed (loop, ok u) i (returned inv) h le before =
        let covered = inv.covered i le before in
        let unlisted = none_listed i loop.failed loop.retry_indices (ok_inj h) in
        elim (Bool-cases (is_open_at context.book_id i loop.store.chapters)) [
          | inr closed ↦ closed
          | inl opens ↦ let bad : false ≡ true = rw unlisted at (covered opens) in cc
        ]
    result_closed (loop, err e) i (raised sound) h le before = absurd (err≢ok h)

  module _ (moments : ℕ → Moment) (last : Moment) (task : TaskRecord) (db : Db) (store : Store)
      (book : ℕ) (prior : Prior) where
    abbrev runs : Loop × Result BatchError TaskStatus
    runs =
        run_from py limits lib numbers processor settings
          (context_of py limits lib numbers processor settings task book) moments last prior db
          store

    pub call-begin :
        begin py limits lib numbers processor settings task db ≡ ok (book, prior)
        → call py limits lib numbers processor settings moments last task db store
          ≡ (some runs.0, runs.1)
    unfolding call
    call-begin h = rw (h, call) refl

    module _ (second : ℕ) (u : Unit) where
      run-Ends :
          check_settings second settings ≡ ok u
          → begin py limits lib numbers processor settings task db ≡ ok (book, prior)
          → Unique store.chapters
          → Passed book settings.chapter_start settings.chapter_end prior.next_index store.chapters
          → Ends (context_of py limits lib numbers processor settings task book) (
              run_chapters py limits lib numbers processor settings
                (context_of py limits lib numbers processor settings task book)
                moments
                last
                (start_loop py limits lib numbers processor settings
                  (context_of py limits lib numbers processor settings task book)
                  prior
                  db
                  store)
                (chapters_from py limits lib numbers processor settings
                  (context_of py limits lib numbers processor settings task book)
                  prior.next_index
                  store.chapters))
      run-Ends valid begins q passed =
          run-After py limits lib numbers processor settings
            (context_of py limits lib numbers processor settings task book) settings.chapter_start
            prior db store q (begin_inside second u task db book prior valid begins) passed moments
            last

      -- A run whose settings are valid, on a store whose chapters are unique, and which begins
      -- where no chapter of its range is open: for every checkpoint that it writes, no
      -- chapter of the range below the checkpoint's `next_index` is open at the end, whatever
      -- the processor and others did, and also where the run raises.
      pub call-AllPassed :
          (loop : Loop)
          → check_settings second settings ≡ ok u
          → begin py limits lib numbers processor settings task db ≡ ok (book, prior)
          → Unique store.chapters
          → Passed book settings.chapter_start settings.chapter_end prior.next_index store.chapters
          → (call py limits lib numbers processor settings moments last task db store).0 ≡ some loop
          → AllPassed book settings.chapter_start settings.chapter_end loop.saves
              loop.store.chapters
      unfolding run_from
      call-AllPassed loop valid begins q passed h =
          let same : runs.0 ≡ loop = some_inj (sym (ap (λ r. r.0) (call-begin begins)) ∙ h) in
          rw (← same) (
            result-AllPassed (context_of py limits lib numbers processor settings task book) _
              (run-Ends valid begins q passed))

      -- Under the same conditions, a run that returns `completed` leaves no chapter of its range
      -- open: each is done, or the store has none at that index.
      pub call_closed :
          (loop : Loop) (i : ℕ)
          → check_settings second settings ≡ ok u
          → begin py limits lib numbers processor settings task db ≡ ok (book, prior)
          → Unique store.chapters
          → Passed book settings.chapter_start settings.chapter_end prior.next_index store.chapters
          → call py limits lib numbers processor settings moments last task db store
            ≡ (some loop, ok completed)
          → settings.chapter_start ≤ i
          → is_before settings.chapter_end i ≡ true
          → is_open_at book i loop.store.chapters ≡ false
      unfolding run_from
      call_closed loop i valid begins q passed h le before =
          let outcome : (some runs.0, runs.1) ≡ (some loop, ok completed) =
            sym (call-begin begins) ∙ h in
          let same : runs.0 ≡ loop = some_inj (ap (λ r. r.0) outcome) in
          rw (← same) (
            result_closed (context_of py limits lib numbers processor settings task book) _ i
              (run-Ends valid begins q passed) (ap (λ r. r.1) outcome) le before)
