-- ===== src/Task/Tables.antt =====
-- Laws of the SQL statements on the task and event tables.
use novel_crawler.Prelude.{
  ℕ, zero, suc, ◌<◌, String, ◌==◌, false, List, [], ◌∷◌, Option, none, some, if◌then◌else◌, ◌≡◌,
  refl, inl, inr, arith, eq_iff, Bool-cases, ok,
}
use novel_crawler.Task.Status.{TaskStatus}
use novel_crawler.Task.Db.{
  TaskRow, EventRow, Db, NewEvent, find_task, set_task, count_task, update_task, has_event,
  insert_event,
}
use novel_crawler.Task.History.{
  Trace, blank, broken, at, begins, follows, replay_event, replay, Unique,
}

pub find_task-id :
    (id : String) (ts : List TaskRow) (t : TaskRow) → find_task id ts ≡ some t → t.task_id ≡ id
unfolding find_task
find_task-id id [] t h = ground arith
find_task-id id (u ∷ ts) t h = ground (arith, eq_iff u.task_id id, find_task-id id ts t)

pub count_task_absent :
    (id : String) (v : ℕ) (ts : List TaskRow) → find_task id ts ≡ none → count_task id v ts ≡ 0
unfolding find_task count_task
count_task_absent id v [] h = refl
count_task_absent id v (u ∷ ts) h = ground (arith, count_task_absent id v ts)

-- In a table with a primary key a version that is there is matched by one row.
pub count_task_found :
    (id : String) (ts : List TaskRow) (t : TaskRow)
    → Unique ts
    → find_task id ts ≡ some t
    → count_task id t.version ts ≡ 1
unfolding find_task count_task
count_task_found id [] t q h = ground arith
count_task_found id (u ∷ ts) t q h = ground (
  arith,
  eq_iff u.task_id id,
  count_task_found id ts t q.1,
  count_task_absent u.task_id u.version ts,
)

module _ (f : TaskRow → TaskRow) (keeps : (t : TaskRow) → (f t).task_id ≡ t.task_id) where
  pub find_task-set_task_absent :
      (id : String) (v : ℕ) (j : String) (ts : List TaskRow)
      → find_task j ts ≡ none
      → find_task j (set_task id v f ts) ≡ none
  unfolding find_task set_task
  find_task-set_task_absent id v j [] h = refl
  find_task-set_task_absent id v j (u ∷ ts) h =
      ground (arith, keeps u, find_task-set_task_absent id v j ts)

  find_task-set_task_ne :
      (id : String) (v : ℕ) (j : String) (ts : List TaskRow)
      → (id == j) ≡ false
      → find_task j (set_task id v f ts) ≡ find_task j ts
  unfolding find_task set_task
  find_task-set_task_ne id v j [] h = refl
  find_task-set_task_ne id v j (u ∷ ts) h = ground (
    arith,
    keeps u,
    eq_iff u.task_id id,
    eq_iff u.task_id j,
    eq_iff id j,
    find_task-set_task_ne id v j ts,
  )

  find_task-set_task_self :
      (id : String) (ts : List TaskRow) (t : TaskRow)
      → find_task id ts ≡ some t
      → find_task id (set_task id t.version f ts) ≡ some (f t)
  unfolding find_task set_task
  find_task-set_task_self id [] t h = ground arith
  find_task-set_task_self id (u ∷ ts) t h =
      ground (arith, keeps u, eq_iff u.task_id id, find_task-set_task_self id ts t)

  -- The UPDATE changes the row that it is meant for, and no other.
  pub find_task-set_task :
      (id j : String) (ts : List TaskRow) (t : TaskRow)
      → find_task id ts ≡ some t
      → find_task j (set_task id t.version f ts) ≡ (if id == j then some (f t) else find_task j ts)
  find_task-set_task id j ts t h = elim (Bool-cases (id == j)) [
    | inl same ↦ rw (same, ← (eq_iff id j).0 same) (find_task-set_task_self id ts t h)
    | inr other ↦ rw other (find_task-set_task_ne id t.version j ts other)
  ]

  pub Unique-set_task :
      (id : String) (v : ℕ) (ts : List TaskRow) → Unique ts → Unique (set_task id v f ts)
  unfolding set_task
  Unique-set_task id v [] q = tt
  Unique-set_task id v (u ∷ ts) q =
      ground
        (arith, keeps u, find_task-set_task_absent id v u.task_id ts, Unique-set_task id v ts q.1)

-- A log without a history of a task has no event of it.
pub has_event_blank :
    (id : String) (w : ℕ) (es : List EventRow) → replay id es ≡ blank → has_event id w es ≡ false
unfolding replay replay_event has_event begins follows
has_event_blank id w [] h = refl
has_event_blank id w (e ∷ es) h = ground (arith, has_event_blank id w es)

-- An event that goes on from a version stands at the next one.
follows-at :
    (from : Option TaskStatus) (to s s' : TaskStatus) (u n v : ℕ)
    → follows s u from to n ≡ at s' v
    → (n ≡ v) × (v ≡ suc u)
unfolding follows
follows-at none to s s' u n v h = cc
follows-at (some f) to s s' u n v h = ground arith

begins-at :
    (from : Option TaskStatus) (to s' : TaskStatus) (n v : ℕ) → begins from to n ≡ at s' v → n ≡ v
unfolding begins
begins-at none TaskStatus.created s' zero v h = ground arith
begins-at none TaskStatus.created s' (suc n) v h = cc
begins-at _ _ _ _ _ h = cc

later_of :
    (id : String) (w : ℕ) (e : EventRow) (es : List EventRow) (s : TaskStatus) (v : ℕ) (r : Trace)
    → replay id es ≡ r
    → replay_event e r ≡ at s v
    → v < w
    → ((s' : TaskStatus) (u : ℕ) → replay id es ≡ at s' u → u < w → has_event id w es ≡ false)
    → (has_event id w es ≡ false) × (e.task_version ≡ v)
unfolding replay_event
later_of id w e es s v blank p h lt ih =
    (has_event_blank id w es p, begins-at e.from_status e.to_status s e.task_version v h)
later_of id w e es s v broken p h lt ih = cc
later_of id w e es s v (at s' u) p h lt ih =
    let (same, next) = follows-at e.from_status e.to_status s' s u e.task_version v h in
    (ih s' u p (omega arith), same)

-- A log at one version of a task has no later event of it.
pub has_event_later :
    (id : String) (s : TaskStatus) (v w : ℕ) (es : List EventRow)
    → replay id es ≡ at s v
    → v < w
    → has_event id w es ≡ false
unfolding replay has_event
has_event_later id s v w [] h lt = refl
has_event_later id s v w (e ∷ es) h lt = elim (Bool-cases (e.task_id == id)) [
  | inl mine ↦ ground (
    arith,
    later_of id w e es s v (replay id es) refl (rw mine at h) lt
        (λ s' u p q. has_event_later id s' u w es p q),
  )
  | inr other ↦ rw other (has_event_later id s v w es (rw other at h) lt)
]

-- The UPDATE of a row that was read at its version, and the INSERT of the next event of a task.
pub update_task_lem :
    (f : TaskRow → TaskRow) (id : String) (db : Db) (t : TaskRow)
    → Unique db.tasks
    → find_task id db.tasks ≡ some t
    → update_task id t.version f db ≡ ok (record db { tasks = set_task id t.version f db.tasks })
unfolding update_task
update_task_lem f id db t q h = rw (count_task_found id db.tasks t q h)

abbrev pub event_row : NewEvent → ℕ → EventRow
event_row e event_id = record {
  event_id = event_id;
  task_id = e.task_id;
  from_status = e.from_status;
  to_status = e.to_status;
  task_version = e.task_version;
  reason = e.reason;
  metadata_json = e.metadata_json;
  error_code = e.error_code;
  error_message = e.error_message;
  created_at = e.created_at;
}

abbrev pub with_event : NewEvent → Db → Db
with_event e db = record db {
  events = event_row e (suc db.last_event_id) ∷ db.events;
  last_event_id = suc db.last_event_id;
}

pub insert_event_lem :
    (e : NewEvent) (db : Db) (s : TaskStatus) (v : ℕ)
    → replay e.task_id db.events ≡ at s v
    → e.task_version ≡ suc v
    → insert_event e db ≡ ok (with_event e db)
unfolding insert_event
insert_event_lem e db s v h n =
    rw (has_event_later e.task_id s v e.task_version db.events h (omega arith))
