-- ===== src/Task/Advance.antt =====
-- One change of a task's row together with the event that records it keeps the tables consistent.
-- Every method that changes a status makes its change in this form.
use novel_crawler.Prelude.{
  ℕ, suc, String, ◌==◌, true, List, some, if◌then◌else◌, ◌≡◌, refl, sym, ap, ◌∙◌, inl, inr, arith,
  eq_iff, Bool-cases, ok,
}
use novel_crawler.Task.Status.{TaskStatus, same_status}
use novel_crawler.Task.Db.{
  TaskRow, LeaseRow, Db, NewEvent, find_task, set_task, update_task, insert_event,
}
use novel_crawler.Task.History.{
  at, follows, replay_event, replay, recorded_edge, trace_of, Parked, Consistent,
}
use novel_crawler.Task.Tables.{
  find_task-set_task, Unique-set_task, update_task_lem, with_event, insert_event_lem,
}

-- `f` changes the row `t` as the event `e` says, along an edge that the log may hold.
pub record IsStep (id : String) (f : TaskRow → TaskRow) (t : TaskRow) (e : NewEvent) : Type 0 where
  pub keeps : (u : TaskRow) → (f u).task_id ≡ u.task_id
  pub of_task : e.task_id ≡ id
  pub leaves : e.from_status ≡ some t.status
  pub enters : e.to_status ≡ (f t).status
  pub numbered : e.task_version ≡ suc t.version
  pub bumped : (f t).version ≡ suc t.version
  pub edge : recorded_edge t.status (f t).status ≡ true
  pub stays_parked : Parked (f t)

abbrev pub with_row : String → ℕ → (TaskRow → TaskRow) → Db → Db
with_row id version f db = record db { tasks = set_task id version f db.tasks }

abbrev pub with_leases : List LeaseRow → Db → Db
with_leases leases db = record db { leases = leases }

same_status_refl : (s : TaskStatus) → same_status s s ≡ true
same_status_refl TaskStatus.created = refl
same_status_refl _ = refl

module _ (id : String) (db : Db) (f : TaskRow → TaskRow) (t : TaskRow) (e : NewEvent)
    (leases : List LeaseRow) where
  abbrev pub advanced : Db
  advanced = with_event e (with_leases leases (with_row id t.version f db))

  module _ (good : Consistent db) (found : find_task id db.tasks ≡ some t)
      (step : IsStep id f t e) where
    traced_at : replay e.task_id db.events ≡ at t.status t.version
    traced_at = rw step.of_task (good.traced id ∙ ap trace_of found)

    pub find_task-advanced :
        (j : String)
        → find_task j advanced.tasks ≡ (if id == j then some (f t) else find_task j db.tasks)
    find_task-advanced j = find_task-set_task f step.keeps id j db.tasks t found

    replay-advanced :
        (j : String)
        → replay j advanced.events
          ≡ (if id == j then at (f t).status (f t).version else replay j db.events)
    unfolding replay replay_event follows
    replay-advanced j = ground (
      arith,
      eq_iff id j,
      step.of_task,
      step.leaves,
      step.enters,
      step.numbered,
      step.bumped,
      step.edge,
      traced_at,
      same_status_refl t.status,
    )

    Parked-at :
        (j : String) (u : TaskRow)
        → (if id == j then some (f t) else find_task j db.tasks) ≡ some u
        → Parked u
    Parked-at j u h = ground (arith, step.stays_parked, good.parked j u)

    pub Consistent-advanced : Consistent advanced
    Consistent-advanced = record {
      unique = Unique-set_task f step.keeps id t.version db.tasks good.unique;
      traced = λ j. elim (Bool-cases (id == j)) [
        | inl same ↦ rw (find_task-advanced j, replay-advanced j, same)
        | inr other ↦ rw (find_task-advanced j, replay-advanced j, other) (good.traced j)
      ];
      parked = λ j u h. Parked-at j u (sym (find_task-advanced j) ∙ h);
    }

    pub insert_event-advanced :
        insert_event e (with_leases leases (with_row id t.version f db)) ≡ ok advanced
    insert_event-advanced =
        insert_event_lem e (with_leases leases (with_row id t.version f db)) t.status t.version
          traced_at step.numbered

    pub update_task-advanced : update_task id t.version f db ≡ ok (with_row id t.version f db)
    update_task-advanced = update_task_lem f id db t good.unique found
