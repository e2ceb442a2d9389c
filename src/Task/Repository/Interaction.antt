-- ===== src/Task/Repository/Interaction.antt =====
-- The interaction leases of `TaskRepository`: a task that waits for its user is held by one owner
-- until the lease runs out. A time is an ISO text, and texts are compared as SQLite compares them.
use mathlib.Core.List.{reverse}
use novel_crawler.Prelude.{
  ℕ, suc, String, ◌==◌, Bool, false, not, ◌&&◌, List, [], ◌∷◌, Option, none, some, map, ◌=?◌,
  if◌then◌else◌, take, any, text_lt, Result, ok, ◌>>=◌, ◌>>◌, raise_if, or_raise,
}
use novel_crawler.Task.Status.{
  probing, waiting_for_user, recoverable_failed, open_gate, same_status, allowed_transitions,
}
use novel_crawler.Task.Records.{
  TaskRecord, TaskError, input_error, value_error, task_not_found, task_version_conflict,
  transition_not_allowed, interaction_recovery_not_allowed, interaction_lease_active,
}
use novel_crawler.Task.Python.{Python}
use novel_crawler.Task.Checks.{validate_interaction_lease}
use novel_crawler.Task.Db.{
  NewEvent, TaskRow, LeaseRow, Db, Outcome, find_task, update_task, insert_event, find_lease,
  delete_lease, task_from_row, transaction,
}

-- `_INTERACTION_RECOVERY_ERRORS`
abbrev pub interaction_recovery_errors : List String
interaction_recovery_errors =
    "interaction_session_lost" ∷ "interaction_expired" ∷ "interaction_cleanup_required"
    ∷ "verification_timed_out" ∷ "verification_failed" ∷ "adaptive_service_failed" ∷ []

-- `lease is not None and str(lease["expires_at"]) > lease_now`
unfoldable pub is_live : Option LeaseRow → String → Bool
is_live none now = false
is_live (some lease) now = text_lt now lease.expires_at

-- `now or timestamp`
unfoldable pub lease_clock : Option String → String → String
lease_clock none timestamp = timestamp
lease_clock (some now) timestamp = if now == "" then timestamp else now

-- The row that the UPDATE of `recover_lost_interaction` writes; it leaves `resume_gate` alone.
unfoldable pub recover_row : String → String → TaskRow → TaskRow
recover_row error_code now current = record current {
  status = recoverable_failed;
  version = suc current.version;
  resume_status = some probing;
  error_code = some error_code;
  error_message = none;
  updated_at = now;
}

-- The row that the UPDATE of `transition_to_waiting_with_lease` writes; it leaves `resume_gate` alone.
unfoldable pub waiting_row : String → TaskRow → TaskRow
waiting_row now current = record current {
  status = waiting_for_user;
  version = suc current.version;
  resume_status = none;
  error_code = none;
  error_message = none;
  updated_at = now;
}

-- `WHERE task_id=? AND owner_id=? AND owner_epoch=?`
unfoldable pub is_held : String → String → ℕ → LeaseRow → Bool
is_held task_id owner_id owner_epoch lease =
    lease.task_id == task_id && (lease.owner_id == owner_id && lease.owner_epoch =? owner_epoch)

-- `UPDATE task_interaction_leases SET expires_at=? WHERE ...`
unfoldable pub renew_rows : String → String → ℕ → String → List LeaseRow → List LeaseRow
unfolding is_held
renew_rows task_id owner_id owner_epoch expires_at [] = []
renew_rows task_id owner_id owner_epoch expires_at (l ∷ ls) =
    let rest = renew_rows task_id owner_id owner_epoch expires_at ls in
    if is_held task_id owner_id owner_epoch l
    then record l { expires_at = expires_at } ∷ rest
    else l ∷ rest

-- `DELETE FROM task_interaction_leases WHERE ...`
unfoldable pub release_rows : String → String → ℕ → List LeaseRow → List LeaseRow
unfolding is_held
release_rows task_id owner_id owner_epoch [] = []
release_rows task_id owner_id owner_epoch (l ∷ ls) =
    let rest = release_rows task_id owner_id owner_epoch ls in
    if is_held task_id owner_id owner_epoch l then rest else l ∷ rest

-- The `rowcount` of either statement.
unfoldable pub count_held : String → String → ℕ → List LeaseRow → ℕ
unfolding is_held
count_held task_id owner_id owner_epoch [] = 0
count_held task_id owner_id owner_epoch (l ∷ ls) =
    let rest = count_held task_id owner_id owner_epoch ls in
    if is_held task_id owner_id owner_epoch l then suc rest else rest

-- `WHERE status=? AND (lease.task_id IS NULL OR lease.expires_at<=?)` on the joined rows
unfoldable pub is_orphaned : String → List LeaseRow → TaskRow → Bool
unfolding is_live
is_orphaned now leases t =
    same_status t.status waiting_for_user && not (is_live (find_lease t.task_id leases) now)

unfoldable pub orphaned_rows : String → List LeaseRow → List TaskRow → List TaskRow
orphaned_rows now leases [] = []
orphaned_rows now leases (t ∷ ts) =
    let rest = orphaned_rows now leases ts in if is_orphaned now leases t then t ∷ rest else rest

-- The event that this method inserts.
abbrev pub recover_event : String → TaskRow → String → String → NewEvent
recover_event task_id current error_code now = record {
  task_id = task_id;
  from_status = some waiting_for_user;
  to_status = recoverable_failed;
  task_version = suc current.version;
  reason = some "interaction_recovery";
  metadata_json = "{}";
  error_code = some error_code;
  error_message = none;
  created_at = now;
}

-- The event that this method inserts.
abbrev pub waiting_event : String → TaskRow → String → NewEvent
waiting_event task_id current now = record {
  task_id = task_id;
  from_status = some current.status;
  to_status = waiting_for_user;
  task_version = suc current.version;
  reason = some "adaptive_interaction_waiting";
  metadata_json = "{}";
  error_code = none;
  error_message = none;
  created_at = now;
}

module _ (py : Python) where
  unfoldable pub apply_recover :
      String → ℕ → String → String → String → Db → Result TaskError (Db × TaskRecord)
  unfolding recover_row is_live
  apply_recover task_id expected_version error_code lease_now now db = do
    current ← or_raise (find_task task_id db.tasks) task_not_found
    raise_if (not (current.version =? expected_version)) task_version_conflict
    raise_if (not (same_status current.status waiting_for_user))
        (interaction_recovery_not_allowed current.status)
    raise_if (is_live (find_lease task_id db.leases) lease_now) interaction_lease_active
    let next_version = suc current.version
    updated ←
        update_task task_id expected_version (recover_row error_code now)
          (record db { leases = delete_lease task_id db.leases })
    logged ← insert_event (recover_event task_id current error_code now) updated
    ok (
      logged,
      record {
        task_id = task_id;
        status = recoverable_failed;
        version = next_version;
        created_at = current.created_at;
        updated_at = now;
        error_code = some error_code;
        resume_status = some probing;
        resume_gate = open_gate;
        source_url = current.source_url;
        metadata = py.loads current.metadata_json;
        error_message = none;
      },
    )

  -- `recover_lost_interaction(task_id, ..., now=lease_now)` at the time `now`
  unfoldable pub recover_lost_interaction :
      String → ℕ → String → Option String → String → Db → Outcome TaskRecord
  unfolding apply_recover lease_clock
  recover_lost_interaction task_id expected_version error_code lease_now now db = transaction db (do
    raise_if (not (any (λ e. e == error_code) interaction_recovery_errors))
        (value_error "interaction_recovery_error_invalid")
    apply_recover task_id expected_version error_code (lease_clock lease_now now) now db)

  unfoldable pub apply_wait :
      String → ℕ → LeaseRow → String → Db → Result TaskError (Db × TaskRecord)
  unfolding waiting_row
  apply_wait task_id expected_version lease now db = do
    current ← or_raise (find_task task_id db.tasks) task_not_found
    raise_if (not (current.version =? expected_version)) task_version_conflict
    raise_if (not (allowed_transitions current.status waiting_for_user))
        (transition_not_allowed current.status waiting_for_user)
    let next_version = suc current.version
    updated ← update_task task_id expected_version (waiting_row now) db
    logged ←
        insert_event (waiting_event task_id current now)
          (record updated { leases = lease ∷ delete_lease task_id updated.leases })
    ok (
      logged,
      record {
        task_id = task_id;
        status = waiting_for_user;
        version = next_version;
        created_at = current.created_at;
        updated_at = now;
        error_code = none;
        resume_status = none;
        resume_gate = open_gate;
        source_url = current.source_url;
        metadata = py.loads current.metadata_json;
        error_message = none;
      },
    )

  unfoldable pub transition_to_waiting_with_lease :
      String → ℕ → String → ℕ → String → String → Db → Outcome TaskRecord
  unfolding apply_wait
  transition_to_waiting_with_lease task_id expected_version owner_id owner_epoch expires_at now db =
      transaction db (do
        validate_interaction_lease py owner_id owner_epoch expires_at
        apply_wait task_id expected_version
            (record {
              task_id = task_id;
              owner_id = owner_id;
              owner_epoch = owner_epoch;
              expires_at = expires_at;
            })
            now db)

  unfoldable pub apply_renew : String → ℕ → String → ℕ → String → Db → Result TaskError (Db × Bool)
  unfolding renew_rows count_held
  apply_renew task_id expected_version owner_id owner_epoch expires_at db = do
    current ← or_raise (find_task task_id db.tasks) task_not_found
    raise_if (not (current.version =? expected_version)) task_version_conflict
    if not (same_status current.status waiting_for_user)
        then ok (db, false)
        else ok (
          record db { leases = renew_rows task_id owner_id owner_epoch expires_at db.leases },
          count_held task_id owner_id owner_epoch db.leases =? 1,
        )

  unfoldable pub renew_interaction_lease : String → ℕ → String → ℕ → String → Db → Outcome Bool
  unfolding apply_renew
  renew_interaction_lease task_id expected_version owner_id owner_epoch expires_at db =
      transaction db (do
        validate_interaction_lease py owner_id owner_epoch expires_at
        apply_renew task_id expected_version owner_id owner_epoch expires_at db)

  unfoldable pub owns_interaction_lease : String → String → ℕ → String → Db → Result TaskError Bool
  unfolding is_held
  owns_interaction_lease task_id owner_id owner_epoch now db = do
    validate_interaction_lease py owner_id owner_epoch now
    ok (any (λ l. is_held task_id owner_id owner_epoch l && text_lt now l.expires_at) db.leases)

  unfoldable pub release_interaction_lease : String → String → ℕ → Db → Outcome Bool
  unfolding release_rows count_held
  release_interaction_lease task_id owner_id owner_epoch db = transaction db (do
    validate_interaction_lease py owner_id owner_epoch "2000-01-01T00:00:00+00:00"
    ok (
      record db { leases = release_rows task_id owner_id owner_epoch db.leases },
      count_held task_id owner_id owner_epoch db.leases =? 1,
    ))

  -- `LIMIT ?` with `limit` a natural number.
  unfoldable pub list_orphaned_waiting : String → ℕ → Db → Result TaskError (List TaskRecord)
  unfolding orphaned_rows is_orphaned
  list_orphaned_waiting now limit db = do
    raise_if (now == "") (input_error "interaction_lease_time_invalid")
    ok (map (task_from_row py) (take limit (reverse (orphaned_rows now db.leases db.tasks))))
