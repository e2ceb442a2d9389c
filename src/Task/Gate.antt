-- ===== src/Task/Gate.antt =====
-- The cleanup gate: `require_cleanup` and `complete_cleanup_gate` together, and
-- `transition_to_waiting_with_lease` at a closed gate.
use novel_crawler.Prelude.{
  ℕ, suc, String, true, false, ◌&&◌, ◌∷◌, none, some, ◌≡◌, refl, arith, ok, err, ◌=?◌, =?_refl,
  eq_refl, some_or, Bool-cases, inl, inr,
}
use novel_crawler.Task.Status.{
  TaskStatus, probing, waiting_for_user, paused, recoverable_failed, open_gate, cleanup, is_cleanup,
  same_status, allowed_transitions,
}
use novel_crawler.Task.Python.{Python}
use novel_crawler.Task.Checks.{is_error_code, validate_error_code, validate_interaction_lease}
use novel_crawler.Task.Records.{
  TaskRecord, TaskError, cleanup_required, cleanup_gate_not_active, task_version_conflict,
}
use novel_crawler.Task.Db.{
  TaskRow, Db, LeaseRow, find_task, delete_lease, transaction, task_from_row,
}
use novel_crawler.Task.Repository.{
  require_cleanup, apply_require_cleanup, is_cleanup_source, cleanup_resume_status,
  require_cleanup_row, require_cleanup_event, complete_cleanup_gate, apply_complete_cleanup,
  complete_cleanup_row, complete_cleanup_event, transition_to_waiting_with_lease, waiting_row,
  waiting_event, get_task,
}
use novel_crawler.Task.History.{Consistent}
use novel_crawler.Task.Tables.{find_task-set_task}
use novel_crawler.Task.Advance.{advanced, Consistent-advanced}
use novel_crawler.Task.Steps.{
  require_cleanup-IsStep, close_gate_lem, apply_complete_cleanup_lem, apply_wait_lem,
}
use novel_crawler.Task.Transition.{get_task-advanced}

module _ (py : Python) (id : String) (db : Db) (good : Consistent db) (t : TaskRow)
    (found : find_task id db.tasks ≡ some t) where
  -- The outcome of `require_cleanup` on a task whose gate is open and whose status allows it.
  require_cleanup_outcome :
      (code now : String)
      → is_cleanup t.resume_gate ≡ false
      → is_cleanup_source t.status ≡ true
      → is_error_code code ≡ true
      → let f = require_cleanup_row (cleanup_resume_status t.status t.resume_status) code now in
        require_cleanup py id t.version (some code) now db ≡ (
          advanced id db f t (require_cleanup_event id t code now) (delete_lease id db.leases),
          ok (task_from_row py (f t)),
        )
  unfolding require_cleanup apply_require_cleanup validate_error_code transaction
  require_cleanup_outcome code now free source valid =
      rw (
        valid,
        found,
        =?_refl t.version,
        free,
        close_gate_lem id t code now py db good found source,
      )

  complete_cleanup_outcome :
      (now : String)
      → (same_status t.status recoverable_failed && is_cleanup t.resume_gate) ≡ true
      → let target = some_or t.resume_status probing in
        complete_cleanup_gate py id t.version now db ≡ (
          advanced id db
              (complete_cleanup_row target now)
              t
              (complete_cleanup_event id t target now)
              db.leases,
          ok (task_from_row py (complete_cleanup_row target now t)),
        )
  unfolding complete_cleanup_gate transaction
  complete_cleanup_outcome now gate = rw (apply_complete_cleanup_lem id t now py db good found gate)

  pub wait_outcome :
      (owner : String) (epoch : ℕ) (expires now : String)
      → validate_interaction_lease py owner epoch expires ≡ ok tt
      → allowed_transitions t.status waiting_for_user ≡ true
      → let lease : LeaseRow = record {
        task_id = id;
        owner_id = owner;
        owner_epoch = epoch;
        expires_at = expires;
      } in
        transition_to_waiting_with_lease py id t.version owner epoch expires now db ≡ (
          advanced id db
              (waiting_row now)
              t
              (waiting_event id t now)
              (lease ∷ delete_lease id db.leases),
          ok (record (task_from_row py (waiting_row now t)) { resume_gate = open_gate }),
        )
  unfolding transition_to_waiting_with_lease transaction
  wait_outcome owner epoch expires now valid allowed =
      rw (valid, apply_wait_lem id t now _ py db good found allowed)

module _ (py : Python) (id : String) (db : Db) (good : Consistent db) (t : TaskRow)
    (found : find_task id db.tasks ≡ some t) where
  -- A cleanup that is required of a task with an open gate, in a status that allows it, can be
  -- completed at the next version. A task that waited for its user then probes, a paused task is in
  -- the status in which it was paused, and any other task is where it was. Its gate is open, it is
  -- parked no longer, and `get_task` reads what was returned.
  pub cleanup_round_trip :
      (code now now' : String)
      → is_cleanup t.resume_gate ≡ false
      → is_cleanup_source t.status ≡ true
      → is_error_code code ≡ true
      → let out =
          complete_cleanup_gate py id
            (suc t.version)
            now'
            (require_cleanup py id t.version (some code) now db).0 in
        (r : TaskRecord) × (out.1 ≡ ok r)
        × (get_task py id out.0 ≡ ok r)
        × (t.status ≡ waiting_for_user → r.status ≡ probing)
        × ((origin : TaskStatus)
            → t.status ≡ paused
            → t.resume_status ≡ some origin
            → r.status ≡ origin)
        × (same_status t.status waiting_for_user ≡ false
            → same_status t.status paused ≡ false
            → r.status ≡ t.status)
        × (r.resume_gate ≡ open_gate)
        × (r.resume_status ≡ none)
  unfolding require_cleanup_row complete_cleanup_row task_from_row
  cleanup_round_trip code now now' free source valid =
      let origin = cleanup_resume_status t.status t.resume_status in
      let f = require_cleanup_row origin code now in
      let e = require_cleanup_event id t code now in
      let leases = delete_lease id db.leases in
      let step = require_cleanup-IsStep id t code now (good.parked id t found) source in
      let db1 = advanced id db f t e leases in
      let good1 = Consistent-advanced id db f t e leases good found step in
      let found1 : find_task id db1.tasks ≡ some (f t) =
        rw (find_task-set_task f (λ u. refl) id id db.tasks t found, eq_refl) in
      let first = require_cleanup_outcome py id db good t found code now free source valid in
      let second = complete_cleanup_outcome py id db1 good1 (f t) found1 now' refl in
      (
        task_from_row py (complete_cleanup_row origin now' (f t)),
        rw (first, second),
        rw (first, second)
            (get_task-advanced py id db1 (complete_cleanup_row origin now') (f t)
              (complete_cleanup_event id (f t) origin now') leases found1 (λ u. refl)),
        λ waits. unfold cleanup_resume_status in ground (arith, good.parked id t found),
        λ s pauses parked. unfold cleanup_resume_status in rw (pauses, parked) refl,
        λ active going. unfold cleanup_resume_status in ground arith,
        refl,
        refl,
      )

  -- `transition_to_waiting_with_lease` passes a closed gate by: from RECOVERABLE_FAILED with a
  -- cleanup to complete it returns a record that says that no cleanup is required, while the stored
  -- task waits for its user behind the closed gate, and a call of `complete_cleanup_gate` that follows,
  -- with any version, is refused and changes nothing.
  pub wait_passes_gate :
      (owner : String) (epoch : ℕ) (expires now : String) (v : ℕ) (now' : String)
      → validate_interaction_lease py owner epoch expires ≡ ok tt
      → t.status ≡ recoverable_failed
      → t.resume_gate ≡ cleanup
      → let out = transition_to_waiting_with_lease py id t.version owner epoch expires now db in
        (r : TaskRecord) × (stored : TaskRecord) × (out.1 ≡ ok r)
        × (cleanup_required r ≡ false)
        × (get_task py id out.0 ≡ ok stored)
        × (cleanup_required stored ≡ true)
        × (stored.status ≡ waiting_for_user)
        × ((e : TaskError) × (complete_cleanup_gate py id v now' out.0 ≡ (out.0, err e)))
  unfolding waiting_row task_from_row cleanup_required
  wait_passes_gate owner epoch expires now v now' valid failed gate =
      let f = waiting_row now in
      let e = waiting_event id t now in
      let allowed : allowed_transitions t.status waiting_for_user ≡ true =
        unfold allowed_transitions in ground arith in
      let out = wait_outcome py id db good t found owner epoch expires now valid allowed in
      (
        record (task_from_row py (f t)) { resume_gate = open_gate },
        task_from_row py (f t),
        rw out,
        refl,
        rw out (get_task-advanced py id db f t e _ found (λ u. refl)),
        ground arith,
        refl,
        rw out (
            unfold complete_cleanup_gate apply_complete_cleanup transaction in
            let there = find_task-set_task f (λ u. refl) id id db.tasks t found in
            elim (Bool-cases (suc t.version =? v)) [
              | inr stale ↦ (task_version_conflict, rw (there, eq_refl, stale))
              | inl same ↦ (cleanup_gate_not_active, rw (there, eq_refl, same))
            ]),
      )
