-- ===== src/Lib.antt =====
-- Novel-Crawler: the task engine, the chapter store and the proxy pool of a resumable crawler of
-- novels.
--
-- A crawl is a task with a status. The repository of tasks
-- (novel_crawler/task_engine/repository.py over the statuses of
-- novel_crawler/task_engine/models.py) keeps tasks, their event log, checkpoints and the leases
-- of interactions with a user in one SQLite file, which several processes may open. Every change
-- of a task names the version that it expects. The content store (novel_crawler/core/storage.py)
-- keeps chapters, the claims that workers hold on them, and the files with their texts; it
-- deletes a book by a job that removes its files. The executor
-- (novel_crawler/task_engine/executor.py) gives tasks to worker threads, and the batch runner
-- (novel_crawler/task_engine/chapter_batch.py) is a handler of such a task: it goes through the
-- chapters of a book, claims each in the content store, calls a processor, and writes a
-- checkpoint to the repository after every batch.
--
-- The files, and the code that they model:
-- - Prelude: names of the library passed on, tests on numbers and texts, lists, and results with
--   do blocks.
-- - Task.Status, Task.Records: novel_crawler/task_engine/models.py, the statuses,
--   ALLOWED_TRANSITIONS, the gate, and the records.
-- - Task.Values, Task.Python: JSON values, and what the repository takes from Python's json, re
--   and urllib.parse, as a record of functions. The model defines none of them.
-- - Task.Checks: the checks of inputs of repository.py, _reject_sensitive_metadata among them.
-- - Task.Db: the tables of repository.py as lists of rows, newest first, and `transaction`,
--   behind which a call that raises leaves the tables as they were.
-- - Task.Repository: the methods of TaskRepository, by the same names; children for the tasks,
--   the cleanup gate, the interaction leases, and the checkpoints. Each is a function from the
--   tables to the tables and a result.
-- - Task.History, Task.Tables, Task.Advance, Task.Steps: the invariant that ties the log of
--   events to the rows, and the steps of the tables.
-- - Task.Calls, Task.Effects, Task.Refinement, Task.Runs, Task.Growth: calls as data, runs of
--   calls, and what they do to the tables.
-- - Task.Transition, Task.Versions, Task.Gate, Task.Leases, Task.Compare: what single methods and
--   pairs of them promise.
-- - Chapter.Rows, Chapter.Claims, Chapter.Done: the chapters table of storage.py,
--   _validate_claim, claim_chapter, release_chapter_claim, mark_failed, reset_failed, mark_done
--   and _commit_done. A file system is a list of paths with their texts.
-- - Chapter.Reading: _validate_chapter_range, all_chapters, pending_chapters and progress.
-- - Chapter.Table, Chapter.Fencing, Chapter.Claimed, Chapter.Content: laws of the UPDATE
--   statement, and the promises of the claims and of mark_done.
-- - Executor.State, Executor.Schedule, Executor.Worker: novel_crawler/task_engine/executor.py,
--   the fields of BackgroundTaskExecutor, submit, schedule_active, _schedule_resumed, and what
--   _worker takes and lets go.
-- - Executor.Counts, Executor.Steps, Executor.Workers, Executor.Runs, Executor.Submit: the
--   sections under the lock as steps of any threads in any order, with an invariant.
-- - Executor.Requests, Executor.Cancel, Executor.Claiming: _claim, _request_status, pause and
--   cancel over the tables of the repository.
-- - Executor.Failure, Executor.Notes, Executor.Settled: _record_failure, the texts of its note,
--   and its three attempts against other writers.
-- - Executor.Handling, Executor.Turns: _run_claimed with the outcomes of a handler, and its turns
--   against other writers.
-- - Executor.Resume, Executor.Entering, Executor.Rollback: resume and _rollback_resume over the
--   state of the executor and the tables, and a resume that is refused.
-- - Batch.Settings, Batch.Payload, Batch.Loop, Batch.Runner:
--   novel_crawler/task_engine/chapter_batch.py, the parameters of ChapterBatchRunner, the payload
--   of its checkpoint, its variables, and `__call__` with its branches; check_control and
--   checkpoint of executor.py.
-- - Batch.Order, Batch.Passed, Batch.Saving, Batch.Upkeep, Batch.Steps, Batch.Complete,
--   Batch.Result: the invariant of its loop, and what a run promises.
-- - Chapter.Calls, Chapter.Open, Chapter.Closed: what other workers may do to the chapters
--   meanwhile.
-- - Deletion.Paths, Deletion.Manifest, Deletion.Safe: _valid_manifest_relative_path and
--   _decode_deletion_manifest of novel_crawler/core/storage.py, and where the paths of a manifest
--   lead.
-- - Deletion.Disk: _join_manifest_path, _validate_content_path, _is_reparse_point,
--   validate_tree_under and remove_tree_under of storage.py, over a record of what the operating
--   system answers and removes (Disk). A place is an absolute path as the list of its parts, the
--   last one first.
-- - Deletion.Jobs, Deletion.Table, Deletion.Process: the table deletion_jobs,
--   _process_deletion_job, _block_deletion_job and retry_deletion_job over a state of files.
-- - Deletion.Reports, Deletion.Removal, Deletion.Gone, Deletion.Inside: what a job reports, what
--   is left of its files, and where the links of a removed path lead.
-- - Deletion.Books, Deletion.Atomic: delete_book.
-- - Proxy.Pool, Proxy.Serving: novel_crawler/core/proxy_pool.py, and what next serves behind any
--   calls.
-- - The modules named Witness, and Executor.Handlers: tests, and the theorems applied at concrete
--   tables.
--
-- The functions recurse on lists and on JSON values. _record_failure and _rollback_resume have
-- the attempts of the code, three and eight. The loops of _request_status and resume recurse on
-- the list of rounds in which other writers act: for _request_status a round in which none does
-- follows them, and resume answers `again` where the list is used up. _run_claimed runs for the
-- turns that are given, and says whether it would go on. A method runs in one BEGIN IMMEDIATE
-- transaction under a lock, so that concurrent calls are a sequence of calls, and the theorems on
-- runs are about every such sequence. Timestamps of tasks are texts that the code compares as
-- texts; times of chapters are natural numbers of ticks, since the code compares them and adds a
-- lease to them. Numbers of versions and generations are natural numbers: the code tests that
-- they are not negative.
--
-- Not modelled: the tests by isinstance, which are the types here; the migrations of old database
-- files; SQLite, files and locks that fail; the columns that no modelled method reads (url and
-- canonical_url of a chapter, created_at and updated_at of its row). The SHA-256 digest, the test
-- for a blank text and the path of a chapter are parameters, in the record Library. So are the
-- processor of a batch run, the JSON texts of integers (Numbers), and for deletions Python's json
-- (Json), the manifest of a book, and the calls of the operating system on files (Disk). Two
-- threads that work on one deletion job at the same time are not modelled. The browser, the site
-- adapters, the adaptation of configurations, the web server and the command line are not
-- modelled: most of their code drives libraries and services.
pub mod Prelude
pub mod Task
pub mod Chapter
pub mod Batch
pub mod Deletion
pub mod Proxy
pub mod Executor
