-- ===== src/Executor/Requests.antt =====
-- `_claim`, `_request_status` and `cancel` of `BackgroundTaskExecutor`, over the tables of the
-- repository. Other writers act between the read and the write of a round: they are runs of calls.
use novel_crawler.Prelude.{
  String, Bool, true, false, ◌||◌, List, [], ◌∷◌, Option, none, some, if◌then◌else◌, Result, ok,
  err,
}
use novel_crawler.Task.Status.{
  TaskStatus, created, probing, waiting_for_user, validating, ready, crawling, completed, paused,
  recoverable_failed, terminal_failed, cancelled, same_status,
}
use novel_crawler.Task.Python.{Python}
use novel_crawler.Task.Checks.{Limits}
use novel_crawler.Task.Records.{
  TaskRecord, TaskError, is_terminal, task_version_conflict, transition_not_allowed,
  resume_not_allowed, cleanup_gate_not_allowed, interaction_recovery_not_allowed,
  cleanup_gate_requires_completion, cleanup_gate_not_active, interaction_lease_active,
}
use novel_crawler.Task.Db.{Db, Outcome}
use novel_crawler.Task.Repository.{TransitionOptions, get_task, transition}
use novel_crawler.Task.Calls.{Call, run}

-- `f"executor_{status.value}"`
abbrev pub request_reason : TaskStatus → String
request_reason created = "executor_created"
request_reason probing = "executor_probing"
request_reason waiting_for_user = "executor_waiting_for_user"
request_reason validating = "executor_validating"
request_reason ready = "executor_ready"
request_reason crawling = "executor_crawling"
request_reason completed = "executor_completed"
request_reason paused = "executor_paused"
request_reason recoverable_failed = "executor_recoverable_failed"
request_reason terminal_failed = "executor_terminal_failed"
request_reason cancelled = "executor_cancelled"

abbrev pub is_version_conflict : TaskError → Bool
is_version_conflict task_version_conflict = true
is_version_conflict _ = false

-- The errors that repository.py raises as `InvalidTaskTransition`.
abbrev pub is_invalid_transition : TaskError → Bool
is_invalid_transition (transition_not_allowed from to) = true
is_invalid_transition (resume_not_allowed from to) = true
is_invalid_transition (cleanup_gate_not_allowed from) = true
is_invalid_transition (interaction_recovery_not_allowed from) = true
is_invalid_transition cleanup_gate_requires_completion = true
is_invalid_transition cleanup_gate_not_active = true
is_invalid_transition interaction_lease_active = true
is_invalid_transition _ = false

-- What the other writers do in one round of the loop: before its write, and before it reads again.
pub record Round : Type 0 where
  pub before_write : List Call
  pub before_reread : List Call

-- A round returns or raises, or the loop continues.
pub data Answer : Type 0 where
  done : Result TaskError TaskRecord → Answer
  again : Answer

abbrev pub because : String → TransitionOptions
because reason = record {
  reason = some reason;
  metadata = none;
  error_code = none;
  error_message = none;
}

-- `task.is_terminal or task.status is status`
unfoldable pub is_settled : TaskStatus → TaskRecord → Bool
unfolding is_terminal
is_settled status task = is_terminal task || same_status task.status status

-- `_claim` enters the status that follows, where there is one.
abbrev pub claim_target : TaskStatus → Option TaskStatus
claim_target created = some probing
claim_target ready = some crawling
claim_target _ = none

module _ (py : Python) (limits : Limits) where
  -- Other writers act between the read of the task and the write.
  unfoldable pub claim_found :
      String → String → List Call → Db → Result TaskError TaskRecord → Outcome (Option TaskRecord)
  claim_found task_id now others db (err e) = (db, err e)
  claim_found task_id now others db (ok task) = elim (claim_target task.status) [
    | none ↦ (db, ok none)
    | some target ↦
        let (db', outcome) =
          transition py limits task_id target task.version (because "executor_claim") now
            (run py limits others db) in
        elim outcome [ ok claimed ↦ (db', ok (some claimed)) | err e ↦ (db', err e) ]
  ]

  -- `_claim`
  unfoldable pub claim : String → String → List Call → Db → Outcome (Option TaskRecord)
  unfolding claim_found
  claim task_id now others db = claim_found task_id now others db (get_task py task_id db)

  -- `latest` of `_request_status`
  unfoldable pub reread : TaskStatus → TaskError → Db → Result TaskError TaskRecord → Db × Answer
  unfolding is_settled
  reread status raised db (err e) = (db, done (err e))
  reread status raised db (ok latest) =
      if is_settled status latest then (db, done (ok latest)) else (db, done (err raised))

  -- The three ends of the `try` of `_request_status`.
  unfoldable pub settle : String → TaskStatus → List Call → Outcome TaskRecord → Db × Answer
  unfolding reread
  settle task_id status before_reread (db, ok task) = (db, done (ok task))
  settle task_id status before_reread (db, err e) =
      if is_version_conflict e
      then (db, again)
      else if is_invalid_transition e
      then (let db' = run py limits before_reread db in
          reread status e db' (get_task py task_id db'))
      else (db, done (err e))

  unfoldable pub request_found :
      String → TaskStatus → String → Round → Db → Result TaskError TaskRecord → Db × Answer
  unfolding settle is_settled
  request_found task_id status now round db (err e) = (db, done (err e))
  request_found task_id status now round db (ok task) =
      if is_settled status task
      then (db, done (ok task))
      else settle task_id status round.before_reread (
          transition py limits task_id status task.version (because (request_reason status)) now
            (run py limits round.before_write db))

  -- One round of the loop of `_request_status`.
  unfoldable pub request_round : String → TaskStatus → String → Round → Db → Db × Answer
  unfolding request_found
  request_round task_id status now round db =
      request_found task_id status now round db (get_task py task_id db)

  -- `_request_status`: other writers act in the rounds of the list, and in none after them.
  unfoldable pub request_status :
      String → TaskStatus → String → List Round → Db → Outcome TaskRecord
  unfolding request_round
  request_status task_id status now [] db =
      let (db', answer) =
        request_round task_id status now (record { before_write = []; before_reread = [] }) db in
      elim answer [ done result ↦ (db', result) | again ↦ (db', err task_version_conflict) ]
  request_status task_id status now (round ∷ rounds) db =
      let (db', answer) = request_round task_id status now round db in
      elim answer [
        | done result ↦ (db', result)
        | again ↦ request_status task_id status now rounds db'
      ]

  -- `pause` and `cancel`
  abbrev pub pause : String → String → List Round → Db → Outcome TaskRecord
  pause task_id now rounds db = request_status task_id paused now rounds db

  abbrev pub cancel : String → String → List Round → Db → Outcome TaskRecord
  cancel task_id now rounds db = request_status task_id cancelled now rounds db
