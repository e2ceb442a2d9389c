-- ===== src/Executor/Entering.antt =====
-- A call of `transition` on a row that it may move.
use novel_crawler.Prelude.{String, true, false, some, ◌≡◌, refl, ap, arith, ok, eq_refl}
use novel_crawler.Task.Status.{
  TaskStatus, waiting_for_user, is_terminal_status, is_resumable, is_abandoned, same_status,
  allowed_transitions,
}
use novel_crawler.Task.Python.{Python}
use novel_crawler.Task.Checks.{Limits}
use novel_crawler.Task.Db.{Db, TaskRow, find_task, task_from_row, transaction}
use novel_crawler.Task.Repository.{
  Note, TransitionOptions, transition, validate_note, transition_row, transition_event,
}
use novel_crawler.Task.History.{Consistent}
use novel_crawler.Task.Tables.{find_task-set_task}
use novel_crawler.Task.Advance.{advanced}
use novel_crawler.Task.Steps.{apply_transition_lem}
use novel_crawler.Task.Calls.{Call, perform}
use novel_crawler.Task.Runs.{perform-Consistent}
use novel_crawler.Task.Transition.{MayEnter, MayEnter-guards}

pub find_task-advanced :
    (id : String) (to : TaskStatus) (note : Note) (now : String) (db : Db) (t : TaskRow)
    → find_task id db.tasks ≡ some t
    → find_task id
        (advanced id db
          (transition_row to note now)
          t
          (transition_event id t to note now)
          db.leases).tasks
      ≡ some (transition_row to note now t)
unfolding transition_row
find_task-advanced id to note now db t found =
    rw (find_task-set_task (transition_row to note now) (λ u. refl) id id db.tasks t found, eq_refl)

module _ (py : Python) (limits : Limits) (id now : String) where
  -- A call of `transition` that is made, on the row that it finds.
  pub record Enters (to : TaskStatus) (options : TransitionOptions) (note : Note) (db : Db)
      (t : TaskRow) : Type 0 where
    pub tables : Db
    pub outcome :
        transition py limits id to t.version options now db
        ≡ (tables, ok (task_from_row py (transition_row to note now t)))
    pub good : Consistent tables
    pub found : find_task id tables.tasks ≡ some (transition_row to note now t)

  module _ (to : TaskStatus) (options : TransitionOptions) (note : Note) (db : Db) (t : TaskRow)
      (valid : validate_note py limits options ≡ ok note) (good : Consistent db)
      (found : find_task id db.tasks ≡ some t) (may : MayEnter t to) where
    made : transition py limits id to t.version options now db ≡ (
      advanced id db (transition_row to note now) t (transition_event id t to note now) db.leases,
      ok (task_from_row py (transition_row to note now t)),
    )
    unfolding transition transaction
    made = rw (
      valid,
      apply_transition_lem id t to t.version note now py db good found
          (MayEnter-guards t to t.version refl may),
    )

    pub enters : Enters to options note db t
    enters = record {
      tables = (transition py limits id to t.version options now db).0;
      outcome = ap (λ o. ((transition py limits id to t.version options now db).0, o.1)) made;
      good =
          unfold perform in
          perform-Consistent py limits (Call.transition id to t.version options now) db good;
      found = rw made (find_task-advanced id to note now db t found);
    }

pub parked_kept : (from : TaskStatus) → is_resumable from ≡ true → is_abandoned from ≡ false
parked_kept from parked = ground arith

pub parked_running :
    (from : TaskStatus) → is_resumable from ≡ true → is_terminal_status from ≡ false
parked_running from parked = ground arith

pub not_parked :
    (from to : TaskStatus)
    → is_resumable from ≡ true
    → allowed_transitions from to ≡ true
    → is_resumable to ≡ false
unfolding allowed_transitions
not_parked from to parked edge = ground arith

pub not_over :
    (from to : TaskStatus)
    → is_resumable from ≡ true
    → is_abandoned to ≡ false
    → allowed_transitions from to ≡ true
    → is_terminal_status to ≡ false
unfolding allowed_transitions
not_over from to parked kept edge = ground arith

pub way_back :
    (from to : TaskStatus)
    → is_resumable from ≡ true
    → same_status to waiting_for_user ≡ false
    → is_abandoned to ≡ false
    → allowed_transitions from to ≡ true
    → allowed_transitions to from ≡ true
unfolding allowed_transitions
way_back from to parked busy kept edge = ground arith
