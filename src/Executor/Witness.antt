-- ===== src/Executor/Witness.antt =====
-- Tests of the executor, and the instances of its theorems at concrete states.
use novel_crawler.Prelude.{
  ◌⊎◌, String, true, false, List, [], ◌∷◌, none, some, ◌≡◌, refl, ok, err, length, ◌≤◌, inl,
}
use novel_crawler.Task.Status.{created, probing, validating, paused, allowed_transitions}
use novel_crawler.Task.Checks.{
  validate_metadata, validate_optional_text, validate_error_code, validate_source_url,
}
use novel_crawler.Task.Records.{TaskError, TaskRecord, is_terminal}
use novel_crawler.Task.Db.{
  TaskRow, Db, empty, find_task, task_from_row, insert_event, update_task, transaction,
}
use novel_crawler.Task.Repository
use novel_crawler.Task.Repository.{Note, validate_note, get_task, insert_task, transition_guards}
use novel_crawler.Task.Calls.{Call, run, perform}
use novel_crawler.Task.Witness.{
  plain, limits, late, first, tables, tables-Consistent, first_found, silent, early,
}
use novel_crawler.Executor.State.{
  Executor, ExecutorError, started, executor_queue_full, is_in, put_nowait,
}
use novel_crawler.Executor.Schedule.{enqueue, submit_found, submit, is_interrupted}
use novel_crawler.Executor.Worker.{take_task}
use novel_crawler.Executor.Requests.{Round, because, cancel, claim, claim_found}
use novel_crawler.Executor.Failure.{failure_options, record_failure}
use novel_crawler.Executor.Settled.{rests, record_failure_settles}
use novel_crawler.Executor.Resume.{ResumeRound, answered, rollback_options, is_refusal, resume}
use novel_crawler.Executor.Rollback.{resume_rolls_back}
use novel_crawler.Executor.Steps.{Sound}
use novel_crawler.Executor.Runs.{Step, Reachable, Reachable-Sound}
use novel_crawler.Executor.Submit.{submit_once, submit_full}
use novel_crawler.Executor.Cancel.{cancel_settles}
use novel_crawler.Task.History.{Consistent}
use novel_crawler.Task.Runs.{run-Consistent_from, empty-Consistent}
use novel_crawler.Executor.Claiming.{claim_once}

abbrev new_row : TaskRow
new_row = record first { task_id = "n1"; status = created; version = 0 }

-- Tables with a task that was created.
abbrev db : Db
db = record empty { tasks = new_row ∷ [] }

abbrev new_task : TaskRecord
new_task = task_from_row plain new_row

new_read : get_task plain "n1" db ≡ ok new_task
unfolding get_task find_task
new_read = refl

abbrev idle : Executor
idle = started 1

abbrev queued : Executor
queued = (submit plain "n1" db idle).0

abbrev working : Executor
working = record idle {
  queue = [];
  scheduled = "n1" ∷ [];
  scheduled_versions = ("n1", 0) ∷ [];
  running = "n1" ∷ [];
}

taking : take_task queued ≡ some (working, ("n1", false))
unfolding take_task submit submit_found enqueue put_nowait get_task is_in find_task task_from_row
taking = refl

Reachable-Sound_example : Sound working
Reachable-Sound_example = Reachable-Sound plain 1 working (
    Reachable.next (Reachable.next Reachable.start (Step.submitted "n1" db refl))
      (Step.taken "n1" false taking))

submitting : (submit plain "n1" db idle).1 ≡ ok true
unfolding submit submit_found enqueue put_nowait get_task is_in find_task task_from_row
submitting = refl

submit_once_example : submit plain "n1" db queued ≡ (queued, ok false)
submit_once_example = submit_once plain "n1" db idle db new_task submitting new_read

-- An executor whose queue of one place is taken by another task.
abbrev busy : Executor
busy = record idle {
  queue = ("n2", false) ∷ [];
  scheduled = "n2" ∷ [];
  scheduled_versions = ("n2", 0) ∷ [];
}

refusing : (submit plain "n1" db busy).1 ≡ err executor_queue_full
unfolding submit submit_found enqueue put_nowait get_task is_in find_task task_from_row
refusing = refl

submit_full_example :
    let s' = (submit plain "n1" db busy).0 in
    (busy.max_queue_size ≤ length busy.queue)
    × (s'.queue ≡ busy.queue)
    × (s'.running ≡ busy.running)
    × (s'.pending_resumes ≡ busy.pending_resumes)
    × ((x : String) → is_in x s'.scheduled ≡ is_in x busy.scheduled)
submit_full_example = submit_full plain "n1" db busy refusing

abbrev cancel_note : Note
cancel_note = record {
  reason = some "executor_cancelled";
  metadata_json = "{}";
  error_code = none;
  error_message = none;
}

cancel_valid : validate_note plain limits (because "executor_cancelled") ≡ ok cancel_note
unfolding validate_note validate_optional_text validate_error_code validate_metadata
cancel_valid = refl

-- Another writer parks the task between the read and the write of the first round.
abbrev contested : List Round
contested =
    record { before_write = Call.transition "t1" paused 1 silent late ∷ []; before_reread = [] }
    ∷ []

cancel_settles_example :
    (r : TaskRecord) × ((cancel plain limits "t1" late contested tables).1 ≡ ok r)
    × (is_terminal r ≡ true)
cancel_settles_example =
    cancel_settles plain limits "t1" late cancel_note cancel_valid contested tables first
      tables-Consistent first_found

-- Tables behind the creation of one task.
fresh : Db
unfolding run perform Repository.create_task validate_source_url validate_metadata insert_task
    insert_event transaction
fresh = run plain limits (Call.create_task "n1" early "https://h/" none ∷ []) empty

fresh-Consistent : Consistent fresh
unfolding fresh
fresh-Consistent =
    run-Consistent_from plain limits (Call.create_task "n1" early "https://h/" none ∷ []) empty
      empty-Consistent

claiming_returns : (r : TaskRecord) × ((claim plain limits "n1" late [] fresh).1 ≡ ok (some r))
unfolding fresh claim claim_found get_task find_task task_from_row Repository.transition
    validate_note validate_optional_text validate_error_code validate_metadata transition_guards
    allowed_transitions update_task insert_event transaction
claiming_returns = (_, refl)

claim_once_example :
    let db' = (claim plain limits "n1" late [] fresh).0 in
    (is_interrupted claiming_returns.0.status ≡ true)
    × (claim plain limits "n1" late [] db' ≡ (db', ok none))
claim_once_example =
    claim_once plain limits "n1" late late [] [] fresh claiming_returns.0 fresh-Consistent
      claiming_returns.1

-- Another writer moves the task between the read and the write of the first attempt.
abbrev disturbed : List Call
disturbed = Call.transition "t1" validating 1 silent late ∷ []

record_failure_settles_example :
    let out = record_failure plain limits "t1" false "boom" late disturbed [] [] tables in
    ((out.1 ≡ ok tt) × ((t : TaskRow) × (find_task "t1" out.0.tasks ≡ some t) × (rests t ≡ true)))
    ⊎ ((e : TaskError) × (validate_note plain limits (failure_options "boom") ≡ err e)
        × (out ≡ (run plain limits disturbed tables, err e)))
record_failure_settles_example =
    record_failure_settles plain limits "t1" false "boom" late disturbed [] tables first
      tables-Consistent first_found

abbrev undo_note : Note
undo_note = record {
  reason = some "executor_resume_backpressure";
  metadata_json = "{}";
  error_code = some "executor_unavailable";
  error_message = none;
}

undo_valid : validate_note plain limits rollback_options ≡ ok undo_note
unfolding validate_note validate_optional_text validate_error_code validate_metadata
undo_valid = refl

abbrev resume_note : Note
resume_note = record undo_note { reason = some "executor_resume"; error_code = none }

resume_valid : validate_note plain limits (because "executor_resume") ≡ ok resume_note
unfolding validate_note validate_optional_text validate_error_code validate_metadata
resume_valid = refl

-- A task that was paused while it was probed.
abbrev pausing : List Call
pausing =
    Call.create_task "n1" early "https://h/" none
    ∷ Call.transition "n1" probing 0 silent early
    ∷ Call.transition "n1" paused 1 silent late
    ∷ []

parked : Db
unfolding run perform Repository.create_task Repository.transition validate_note
    validate_optional_text validate_error_code validate_source_url validate_metadata insert_task
    insert_event update_task find_task transition_guards allowed_transitions transaction
parked = run plain limits pausing empty

parked-Consistent : Consistent parked
unfolding parked
parked-Consistent = run-Consistent_from plain limits pausing empty empty-Consistent

abbrev parked_row : TaskRow
parked_row = record new_row {
  status = paused;
  version = 2;
  resume_status = some probing;
  created_at = early;
  updated_at = late;
}

parked_found : find_task "n1" parked.tasks ≡ some parked_row
unfolding parked
parked_found = refl

abbrev closed : Executor
closed = record idle { closing = true }

abbrev still : ResumeRound
still = record {
  before_write = [];
  before_schedule = [];
  rollback = λ n. record { before_write = []; before_reread = [] };
}

resume_rolls_back_example :
    (s' : Executor) × (e : ExecutorError) × (db' : Db) × (t' : TaskRow) × (resume plain limits "n1"
        late
        (still ∷ [])
        closed
        parked
      ≡ (db', s', answered (err e)))
    × (is_refusal e ≡ true)
    × (s'.queue ≡ [])
    × (find_task "n1" db'.tasks ≡ some t')
    × (t'.status ≡ paused)
    × (t'.resume_status ≡ some probing)
    × (t'.resume_gate ≡ parked_row.resume_gate)
    × (t'.version ≡ 4)
unfolding allowed_transitions
resume_rolls_back_example =
    resume_rolls_back plain limits "n1" late closed parked parked_row probing resume_note undo_note
      parked-Consistent parked_found refl refl refl refl refl refl resume_valid undo_valid []
      (inl refl)
