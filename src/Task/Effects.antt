-- ===== src/Task/Effects.antt =====
-- What a call may do to the tables of tasks and events: nothing, the creation of one task, or one
-- step of one task. Every method of the repository refines this specification.
use novel_crawler.Prelude.{
  ℕ, suc, String, ◌&&◌, ◌∷◌, Option, none, some, ◌≡◌, refl, inl, inr, Result-cases, Option-cases,
  Bool-cases, some_or, ◌=?◌, any, ◌==◌, =?→eq,
}
use novel_crawler.Task.Status.{
  TaskStatus, probing, waiting_for_user, recoverable_failed, is_cleanup, same_status,
  allowed_transitions,
}
use novel_crawler.Task.Python.{Python}
use novel_crawler.Task.Checks.{Limits, validate_error_code, validate_interaction_lease}
use novel_crawler.Task.Db.{
  TaskRow, NewEvent, LeaseRow, Db, find_task, set_task, find_lease, transaction,
}
use novel_crawler.Task.Repository
use novel_crawler.Task.Repository.{
  Note, TransitionOptions, transition_guards, transition_row, transition_event, apply_transition,
  validate_note, created_row, created_event, insert_task, close_gate, apply_require_cleanup,
  is_cleanup_source, cleanup_resume_status, require_cleanup_row, require_cleanup_event,
  complete_cleanup_row, complete_cleanup_event, apply_complete_cleanup, apply_recover, recover_row,
  recover_event, lease_clock, is_live, interaction_recovery_errors, apply_wait, waiting_row,
  waiting_event,
}
use novel_crawler.Task.History.{Consistent}
use novel_crawler.Task.Tables.{event_row}
use novel_crawler.Task.Advance.{IsStep}
use novel_crawler.Task.Steps.{
  transition-IsStep, apply_transition_lem, require_cleanup-IsStep, close_gate_lem,
  complete_cleanup-IsStep, apply_complete_cleanup_lem, recover-IsStep, apply_recover_lem,
  waiting-IsStep, apply_wait_lem,
}

pub data Effect (db db' : Db) : Type 0 where
  unchanged : db'.tasks ≡ db.tasks → db'.events ≡ db.events → Effect db db'
  born :
      (id url metadata_json now : String)
      → find_task id db.tasks ≡ none
      → db'.tasks ≡ created_row id url metadata_json now ∷ db.tasks
      → db'.events ≡ event_row (created_event id now) (suc db.last_event_id) ∷ db.events
      → Effect db db'
  moved :
      (id : String) (f : TaskRow → TaskRow) (t : TaskRow) (e : NewEvent)
      → find_task id db.tasks ≡ some t
      → IsStep id f t e
      → db'.tasks ≡ set_task id t.version f db.tasks
      → db'.events ≡ event_row e (suc db.last_event_id) ∷ db.events
      → Effect db db'

module _ (py : Python) (limits : Limits) (db : Db) (good : Consistent db) where
  apply_transition-Effect :
      (id : String) (to : TaskStatus) (v : ℕ) (note : Note) (now : String)
      → Effect db (transaction db (apply_transition py id to v note now db)).0
  apply_transition-Effect id to v note now = elim (Option-cases (find_task id db.tasks)) [
    | inl missing ↦ unfold transaction apply_transition in rw missing (unchanged refl refl)
    | inr (t, found) ↦ elim (Result-cases (transition_guards t to v)) [
      | inl (tt, pass) ↦ rw (apply_transition_lem id t to v note now py db good found pass) (
          unfold transaction in
          moved id (transition_row to note now) t (transition_event id t to note now) found
            (transition-IsStep id t to v note now pass) refl refl)
      | inr (e, fail) ↦
          unfold transaction apply_transition in rw (found, fail) (unchanged refl refl)
    ]
  ]

  pub transition-Effect :
      (id : String) (to : TaskStatus) (v : ℕ) (options : TransitionOptions) (now : String)
      → Effect db (Repository.transition py limits id to v options now db).0
  transition-Effect id to v options now = elim (Result-cases (validate_note py limits options)) [
    | inl (note, valid) ↦
        unfold Repository.transition in rw valid (apply_transition-Effect id to v note now)
    | inr (e, invalid) ↦
        unfold Repository.transition transaction in rw invalid (unchanged refl refl)
  ]

  close_gate-Effect :
      (id : String) (t : TaskRow) (code now : String)
      → find_task id db.tasks ≡ some t
      → Effect db (transaction db (close_gate py id t code now db)).0
  close_gate-Effect id t code now found = elim (Bool-cases (is_cleanup_source t.status)) [
    | inl source ↦
        let origin = cleanup_resume_status t.status t.resume_status in
        rw (close_gate_lem id t code now py db good found source) (
          unfold transaction in
          moved id (require_cleanup_row origin code now) t (require_cleanup_event id t code now)
            found (require_cleanup-IsStep id t code now (good.parked id t found) source) refl refl)
    | inr other ↦ unfold transaction close_gate in rw other (unchanged refl refl)
  ]

  apply_require_cleanup-Effect :
      (id : String) (v : ℕ) (code now : String)
      → Effect db (transaction db (apply_require_cleanup py id v code now db)).0
  apply_require_cleanup-Effect id v code now = elim (Option-cases (find_task id db.tasks)) [
    | inl missing ↦ unfold transaction apply_require_cleanup in rw missing (unchanged refl refl)
    | inr (t, found) ↦ elim (Bool-cases (t.version =? v)) [
      | inr stale ↦
          unfold transaction apply_require_cleanup in rw (found, stale) (unchanged refl refl)
      | inl current ↦ elim (Bool-cases (is_cleanup t.resume_gate)) [
        | inl gated ↦
            unfold transaction apply_require_cleanup in
            rw (found, current, gated) (unchanged refl refl)
        | inr free ↦
            unfold apply_require_cleanup in
            rw (found, current, free) (close_gate-Effect id t code now found)
      ]
    ]
  ]

  pub require_cleanup-Effect :
      (id : String) (v : ℕ) (code : Option String) (now : String)
      → Effect db (Repository.require_cleanup py id v code now db).0
  require_cleanup-Effect id v code now = elim (Result-cases (validate_error_code code)) [
    | inr (e, invalid) ↦
        unfold Repository.require_cleanup transaction in rw invalid (unchanged refl refl)
    | inl (none, valid) ↦
        unfold Repository.require_cleanup transaction in rw valid (unchanged refl refl)
    | inl (some c, valid) ↦
        unfold Repository.require_cleanup in rw valid (apply_require_cleanup-Effect id v c now)
  ]

  pub complete_cleanup_gate-Effect :
      (id : String) (v : ℕ) (now : String)
      → Effect db (Repository.complete_cleanup_gate py id v now db).0
  complete_cleanup_gate-Effect id v now = elim (Option-cases (find_task id db.tasks)) [
    | inl missing ↦
        unfold Repository.complete_cleanup_gate transaction in rw missing (unchanged refl refl)
    | inr (t, found) ↦ elim (Bool-cases (t.version =? v)) [
      | inr stale ↦
          unfold Repository.complete_cleanup_gate transaction in
          rw (found, stale) (unchanged refl refl)
      | inl current ↦
          elim (Bool-cases (same_status t.status recoverable_failed && is_cleanup t.resume_gate)) [
            | inr closed ↦
                unfold Repository.complete_cleanup_gate transaction in
                rw (found, current, closed) (unchanged refl refl)
            | inl gate ↦
                let target = some_or t.resume_status probing in
                unfold Repository.complete_cleanup_gate in
                rw
                  (
                    ← =?→eq t.version v current,
                    apply_complete_cleanup_lem id t now py db good found gate,
                  )
                  (unfold transaction in
                    moved id (complete_cleanup_row target now) t
                      (complete_cleanup_event id t target now) found
                      (complete_cleanup-IsStep id t now (good.parked id t found) gate) refl refl)
          ]
    ]
  ]

  apply_recover-Effect :
      (id : String) (v : ℕ) (code clock now : String)
      → Effect db (transaction db (apply_recover py id v code clock now db)).0
  apply_recover-Effect id v code clock now = elim (Option-cases (find_task id db.tasks)) [
    | inl missing ↦ unfold apply_recover transaction in rw missing (unchanged refl refl)
    | inr (t, found) ↦ elim (Bool-cases (t.version =? v)) [
      | inr stale ↦ unfold apply_recover transaction in rw (found, stale) (unchanged refl refl)
      | inl current ↦ elim (Bool-cases (same_status t.status waiting_for_user)) [
        | inr idle ↦
            unfold apply_recover transaction in rw (found, current, idle) (unchanged refl refl)
        | inl waits ↦ elim (Bool-cases (is_live (find_lease id db.leases) clock)) [
          | inl live ↦
              unfold apply_recover transaction in
              rw (found, current, waits, live) (unchanged refl refl)
          | inr dead ↦
              rw
                (
                  ← =?→eq t.version v current,
                  apply_recover_lem id t now code clock py db good found waits dead,
                )
                (unfold transaction in
                  moved id (recover_row code now) t (recover_event id t code now) found
                    (recover-IsStep id t now code waits) refl refl)
        ]
      ]
    ]
  ]

  pub recover_lost_interaction-Effect :
      (id : String) (v : ℕ) (code : String) (clock : Option String) (now : String)
      → Effect db (Repository.recover_lost_interaction py id v code clock now db).0
  recover_lost_interaction-Effect id v code clock now =
      elim (Bool-cases (any (λ e. e == code) interaction_recovery_errors)) [
        | inr unknown ↦
            unfold Repository.recover_lost_interaction transaction in
            rw unknown (unchanged refl refl)
        | inl known ↦
            unfold Repository.recover_lost_interaction in
            rw known (apply_recover-Effect id v code (lease_clock clock now) now)
      ]

  apply_wait-Effect :
      (id : String) (v : ℕ) (lease : LeaseRow) (now : String)
      → Effect db (transaction db (apply_wait py id v lease now db)).0
  apply_wait-Effect id v lease now = elim (Option-cases (find_task id db.tasks)) [
    | inl missing ↦ unfold apply_wait transaction in rw missing (unchanged refl refl)
    | inr (t, found) ↦ elim (Bool-cases (t.version =? v)) [
      | inr stale ↦ unfold apply_wait transaction in rw (found, stale) (unchanged refl refl)
      | inl current ↦ elim (Bool-cases (allowed_transitions t.status waiting_for_user)) [
        | inr banned ↦
            unfold apply_wait transaction in rw (found, current, banned) (unchanged refl refl)
        | inl allowed ↦
            rw (← =?→eq t.version v current, apply_wait_lem id t now lease py db good found allowed)
              (unfold transaction in
                moved id (waiting_row now) t (waiting_event id t now) found
                  (waiting-IsStep id t now allowed) refl refl)
      ]
    ]
  ]

  pub transition_to_waiting-Effect :
      (id : String) (v : ℕ) (owner : String) (epoch : ℕ) (expires now : String)
      → Effect db (Repository.transition_to_waiting_with_lease py id v owner epoch expires now db).0
  transition_to_waiting-Effect id v owner epoch expires now =
      elim (Result-cases (validate_interaction_lease py owner epoch expires)) [
        | inr (e, invalid) ↦
            unfold Repository.transition_to_waiting_with_lease transaction in
            rw invalid (unchanged refl refl)
        | inl (_, valid) ↦
            unfold Repository.transition_to_waiting_with_lease in
            rw valid (apply_wait-Effect id v _ now)
      ]
