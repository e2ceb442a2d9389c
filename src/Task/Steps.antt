-- ===== src/Task/Steps.antt =====
-- Each method that changes a status makes one consistent step, with its result written out.
use novel_crawler.Prelude.{
  ℕ, String, true, false, ◌&&◌, some_or, ◌∷◌, some, ◌≡◌, refl, arith, ok, =?_refl,
}
use novel_crawler.Task.Status.{
  TaskStatus, probing, waiting_for_user, recoverable_failed, open_gate, is_cleanup, same_status,
  allowed_transitions,
}
use novel_crawler.Task.Python.{Python}
use novel_crawler.Task.Db.{
  TaskRow, Db, LeaseRow, find_task, find_lease, delete_lease, task_from_row,
}
use novel_crawler.Task.Repository.{
  Note, transition_guards, transition_row, transition_event, apply_transition, is_cleanup_source,
  cleanup_resume_status, require_cleanup_row, require_cleanup_event, close_gate,
  complete_cleanup_row, complete_cleanup_event, apply_complete_cleanup, recover_row, recover_event,
  apply_recover, is_live, waiting_row, waiting_event, apply_wait,
}
use novel_crawler.Task.History.{recorded_edge, Parked, Consistent}
use novel_crawler.Task.Tables.{find_task-id, update_task_lem}
use novel_crawler.Task.Advance.{IsStep, advanced, update_task-advanced, insert_event-advanced}

allowed→recorded : (s t : TaskStatus) → allowed_transitions s t ≡ true → recorded_edge s t ≡ true
unfolding allowed_transitions recorded_edge
allowed→recorded s t h = ground arith

module _ (id : String) (t : TaskRow) (to : TaskStatus) (v : ℕ) (note : Note) (now : String) where
  transition_guards-allowed :
      transition_guards t to v ≡ ok tt → (t.version ≡ v) × (allowed_transitions t.status to ≡ true)
  unfolding transition_guards
  transition_guards-allowed h = ground arith

  transition_row-Parked :
      allowed_transitions t.status to ≡ true → Parked (transition_row to note now t)
  unfolding transition_row allowed_transitions
  transition_row-Parked h = ground arith

  pub transition-IsStep :
      transition_guards t to v ≡ ok tt
      → IsStep id (transition_row to note now) t (transition_event id t to note now)
  unfolding transition_row
  transition-IsStep h = record {
    keeps = λ u. refl;
    of_task = refl;
    leaves = refl;
    enters = refl;
    numbered = refl;
    bumped = refl;
    edge = allowed→recorded t.status to (transition_guards-allowed h).1;
    stays_parked = transition_row-Parked (transition_guards-allowed h).1;
  }

  -- A transition whose guards pass is made.
  pub apply_transition_lem :
      (py : Python) (db : Db)
      → Consistent db
      → find_task id db.tasks ≡ some t
      → transition_guards t to v ≡ ok tt
      → apply_transition py id to v note now db
        ≡ ok (
          advanced id db
              (transition_row to note now)
              t
              (transition_event id t to note now)
              db.leases,
          task_from_row py (transition_row to note now t),
        )
  unfolding apply_transition
  apply_transition_lem py db good found pass =
      let step = transition-IsStep pass in
      let f = transition_row to note now in
      let e = transition_event id t to note now in
      rw
        (
          found,
          pass,
          ← (transition_guards-allowed pass).0,
          update_task-advanced id db f t e db.leases good found step,
          insert_event-advanced id db f t e db.leases good found step,
        )
        (unfold task_from_row transition_row in rw (find_task-id id db.tasks t found))

module _ (id : String) (t : TaskRow) (code now : String) where
  pub require_cleanup-IsStep :
      Parked t
      → is_cleanup_source t.status ≡ true
      → let origin = cleanup_resume_status t.status t.resume_status in
        IsStep id (require_cleanup_row origin code now) t (require_cleanup_event id t code now)
  unfolding require_cleanup_row cleanup_resume_status recorded_edge allowed_transitions
  require_cleanup-IsStep p h = record {
    keeps = λ u. refl;
    of_task = refl;
    leaves = refl;
    enters = refl;
    numbered = refl;
    bumped = refl;
    edge = ground arith;
    stays_parked = ground arith;
  }

  -- The gate of a task closes where its status allows it, and its lease goes.
  pub close_gate_lem :
      (py : Python) (db : Db)
      → Consistent db
      → find_task id db.tasks ≡ some t
      → is_cleanup_source t.status ≡ true
      → let f = require_cleanup_row (cleanup_resume_status t.status t.resume_status) code now in
        close_gate py id t code now db
        ≡ ok (
          advanced id db f t (require_cleanup_event id t code now) (delete_lease id db.leases),
          task_from_row py (f t),
        )
  unfolding close_gate
  close_gate_lem py db good found source =
      let step = require_cleanup-IsStep (good.parked id t found) source in
      let f = require_cleanup_row (cleanup_resume_status t.status t.resume_status) code now in
      let e = require_cleanup_event id t code now in
      let leases = delete_lease id db.leases in
      rw
        (
          source,
          update_task-advanced id db f t e leases good found step,
          insert_event-advanced id db f t e leases good found step,
        )
        (unfold task_from_row require_cleanup_row in rw (find_task-id id db.tasks t found))

module _ (id : String) (t : TaskRow) (now : String) where
  pub complete_cleanup-IsStep :
      Parked t
      → (same_status t.status recoverable_failed && is_cleanup t.resume_gate) ≡ true
      → let target = some_or t.resume_status probing in
        IsStep id (complete_cleanup_row target now) t (complete_cleanup_event id t target now)
  unfolding complete_cleanup_row recorded_edge allowed_transitions
  complete_cleanup-IsStep p h = record {
    keeps = λ u. refl;
    of_task = refl;
    leaves = ground arith;
    enters = refl;
    numbered = refl;
    bumped = refl;
    edge = ground arith;
    stays_parked = ground arith;
  }

  pub apply_complete_cleanup_lem :
      (py : Python) (db : Db)
      → Consistent db
      → find_task id db.tasks ≡ some t
      → (same_status t.status recoverable_failed && is_cleanup t.resume_gate) ≡ true
      → let target = some_or t.resume_status probing in
        apply_complete_cleanup py id t.version now db
        ≡ ok (
          advanced id db
              (complete_cleanup_row target now)
              t
              (complete_cleanup_event id t target now)
              db.leases,
          task_from_row py (complete_cleanup_row target now t),
        )
  unfolding apply_complete_cleanup
  apply_complete_cleanup_lem py db good found gate =
      let target = some_or t.resume_status probing in
      let step = complete_cleanup-IsStep (good.parked id t found) gate in
      let f = complete_cleanup_row target now in
      let e = complete_cleanup_event id t target now in
      rw
        (
          found,
          =?_refl t.version,
          gate,
          update_task-advanced id db f t e db.leases good found step,
          insert_event-advanced id db f t e db.leases good found step,
        )
        (unfold task_from_row complete_cleanup_row in rw (find_task-id id db.tasks t found))

  pub recover-IsStep :
      (code : String)
      → same_status t.status waiting_for_user ≡ true
      → IsStep id (recover_row code now) t (recover_event id t code now)
  unfolding recover_row recorded_edge allowed_transitions
  recover-IsStep code h = record {
    keeps = λ u. refl;
    of_task = refl;
    leaves = ground arith;
    enters = refl;
    numbered = refl;
    bumped = refl;
    edge = ground arith;
    stays_parked = refl;
  }

  pub waiting-IsStep :
      allowed_transitions t.status waiting_for_user ≡ true
      → IsStep id (waiting_row now) t (waiting_event id t now)
  unfolding waiting_row
  waiting-IsStep h = record {
    keeps = λ u. refl;
    of_task = refl;
    leaves = refl;
    enters = refl;
    numbered = refl;
    bumped = refl;
    edge = allowed→recorded t.status waiting_for_user h;
    stays_parked = refl;
  }

  -- A waiting task whose lease is not live is failed recoverably, and its lease goes.
  pub apply_recover_lem :
      (code clock : String) (py : Python) (db : Db)
      → Consistent db
      → find_task id db.tasks ≡ some t
      → same_status t.status waiting_for_user ≡ true
      → is_live (find_lease id db.leases) clock ≡ false
      → apply_recover py id t.version code clock now db
        ≡ ok (
          advanced id db
              (recover_row code now)
              t
              (recover_event id t code now)
              (delete_lease id db.leases),
          record (task_from_row py (recover_row code now t)) { resume_gate = open_gate },
        )
  unfolding apply_recover
  apply_recover_lem code clock py db good found waits dead =
      let step = recover-IsStep code waits in
      let f = recover_row code now in
      let e = recover_event id t code now in
      let leases = delete_lease id db.leases in
      rw
        (
          found,
          =?_refl t.version,
          waits,
          dead,
          update_task_lem f id (record db { leases = leases }) t good.unique found,
          insert_event-advanced id db f t e leases good found step,
        )
        (unfold task_from_row recover_row in rw (find_task-id id db.tasks t found))

  -- A task that may wait does so under the given lease.
  pub apply_wait_lem :
      (lease : LeaseRow) (py : Python) (db : Db)
      → Consistent db
      → find_task id db.tasks ≡ some t
      → allowed_transitions t.status waiting_for_user ≡ true
      → apply_wait py id t.version lease now db
        ≡ ok (
          advanced id db
              (waiting_row now)
              t
              (waiting_event id t now)
              (lease ∷ delete_lease id db.leases),
          record (task_from_row py (waiting_row now t)) { resume_gate = open_gate },
        )
  unfolding apply_wait
  apply_wait_lem lease py db good found allowed =
      let step = waiting-IsStep allowed in
      let f = waiting_row now in
      let e = waiting_event id t now in
      let leases = lease ∷ delete_lease id db.leases in
      rw
        (
          found,
          =?_refl t.version,
          allowed,
          update_task-advanced id db f t e leases good found step,
          insert_event-advanced id db f t e leases good found step,
        )
        (unfold task_from_row waiting_row in rw (find_task-id id db.tasks t found))
