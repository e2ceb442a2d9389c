-- ===== src/Task/Transition.antt =====
-- What `transition` promises to its callers.
use novel_crawler.Prelude.{
  ℕ, String, true, false, List, Option, none, some, ◌≡◌, refl, sym, ap, ◌∙◌, ◌⊎◌, ◌↔◌, inl, inr,
  arith, eq_refl, ok, err, is_ok, Result-cases, Bool-cases, Option-cases, err≢ok,
}
use novel_crawler.Task.Status.{
  TaskStatus, allowed_transitions, is_resumable, is_abandoned, is_cleanup, same_status,
}
use novel_crawler.Task.Python.{Python}
use novel_crawler.Task.Checks.{Limits}
use novel_crawler.Task.Records.{TaskRecord, TaskError, task_not_found}
use novel_crawler.Task.Db.{
  TaskRow, NewEvent, LeaseRow, Db, Outcome, find_task, transaction, task_from_row,
}
use novel_crawler.Task.Repository.{
  Note, TransitionOptions, transition, validate_note, transition_guards, transition_row,
  transition_event, apply_transition, get_task, resumes,
}
use novel_crawler.Task.History.{Consistent}
use novel_crawler.Task.Tables.{find_task-set_task}
use novel_crawler.Task.Advance.{advanced}
use novel_crawler.Task.Steps.{apply_transition_lem}

-- A read of the row that a step has just changed.
pub get_task-advanced :
    (py : Python) (id : String) (db : Db) (f : TaskRow → TaskRow) (t : TaskRow) (e : NewEvent)
    (leases : List LeaseRow)
    → find_task id db.tasks ≡ some t
    → ((u : TaskRow) → (f u).task_id ≡ u.task_id)
    → get_task py id (advanced id db f t e leases) ≡ ok (task_from_row py (f t))
unfolding get_task
get_task-advanced py id db f t e leases found keeps =
    rw (find_task-set_task f keeps id id db.tasks t found, eq_refl)

-- The call was made: the row that it read, the note that it wrote, and its outcome.
pub record IsMade (py : Python) (id : String) (to : TaskStatus) (v : ℕ) (now : String) (db : Db)
    (out : Outcome TaskRecord) : Type 0 where
  pub row : TaskRow
  pub note : Note
  pub found : find_task id db.tasks ≡ some row
  pub pass : transition_guards row to v ≡ ok tt
  pub outcome : out ≡ (
    advanced id db (transition_row to note now) row (transition_event id row to note now) db.leases,
    ok (task_from_row py (transition_row to note now row)),
  )

module _ (py : Python) (limits : Limits) (db : Db) (good : Consistent db) (id : String)
    (to : TaskStatus) (v : ℕ) (options : TransitionOptions) (now : String) where
  pub IsMade-of :
      (t : TaskRow) (note : Note)
      → validate_note py limits options ≡ ok note
      → find_task id db.tasks ≡ some t
      → transition_guards t to v ≡ ok tt
      → IsMade py id to v now db (transition py limits id to v options now db)
  unfolding transition transaction
  IsMade-of t note valid found pass = record {
    row = t;
    note = note;
    found = found;
    pass = pass;
    outcome = rw (valid, apply_transition_lem id t to v note now py db good found pass);
  }

  -- A call that returns was made.
  pub transition-IsMade :
      (r : TaskRecord)
      → (transition py limits id to v options now db).1 ≡ ok r
      → IsMade py id to v now db (transition py limits id to v options now db)
  transition-IsMade r h = elim (Result-cases (validate_note py limits options)) [
    | inr (e, invalid) ↦ refused e (unfold transition transaction in rw invalid)
    | inl (note, valid) ↦ elim (Option-cases (find_task id db.tasks)) [
      | inl missing ↦
          refused task_not_found
            (unfold transition apply_transition transaction in rw (valid, missing))
      | inr (t, found) ↦ elim (Result-cases (transition_guards t to v)) [
        | inl (_, pass) ↦ IsMade-of t note valid found pass
        | inr (e, fail) ↦
            refused e (unfold transition apply_transition transaction in rw (valid, found, fail))
      ]
    ]
  ]
    where
      refused :
          (e : TaskError)
          → transition py limits id to v options now db ≡ (db, err e)
          → IsMade py id to v now db (transition py limits id to v options now db)
      refused e p = absurd (err≢ok (sym (ap (λ o. o.1) p) ∙ h))

-- What a task, its gate and its parked status let it enter.
pub record MayEnter (t : TaskRow) (to : TaskStatus) : Type 0 where
  pub edge : allowed_transitions t.status to ≡ true
  pub gate : (is_cleanup t.resume_gate ≡ false) ⊎ (is_abandoned to ≡ true)
  pub origin :
      (is_resumable t.status ≡ false) ⊎ (is_abandoned to ≡ true) ⊎ (t.resume_status ≡ some to)

pub same_status→eq : (a b : TaskStatus) → same_status a b ≡ true → a ≡ b
same_status→eq a b h = ground arith

resumes→eq : (r : Option TaskStatus) (to : TaskStatus) → resumes r to ≡ true → r ≡ some to
unfolding resumes
resumes→eq none to h = cc
resumes→eq (some o) to h = ap some (sym (same_status→eq to o h))

pub same_status_self : (a : TaskStatus) → same_status a a ≡ true
same_status_self TaskStatus.created = refl
same_status_self _ = refl

pub guards-MayEnter :
    (t : TaskRow) (to : TaskStatus) (v : ℕ)
    → transition_guards t to v ≡ ok tt
    → (t.version ≡ v) × MayEnter t to
unfolding transition_guards
guards-MayEnter t to v h = (
  ground arith,
  record {
    edge = ground arith;
    gate = elim (Bool-cases (is_cleanup t.resume_gate)) [
      | inl closed ↦ inr (ground arith)
      | inr free ↦ inl free
    ];
    origin = elim (Bool-cases (is_resumable t.status)) [
      | inr free ↦ inl free
      | inl parked ↦ elim (Bool-cases (is_abandoned to)) [
        | inl given_up ↦ inr (inl given_up)
        | inr kept ↦ inr (inr (resumes→eq t.resume_status to (ground arith)))
      ]
    ];
  },
)

pub MayEnter-guards :
    (t : TaskRow) (to : TaskStatus) (v : ℕ)
    → t.version ≡ v
    → MayEnter t to
    → transition_guards t to v ≡ ok tt
unfolding transition_guards resumes
MayEnter-guards t to v e m = ground (arith, same_status_self to)

module _ (py : Python) (limits : Limits) (db : Db) (good : Consistent db) (id : String)
    (to : TaskStatus) (v : ℕ) (options : TransitionOptions) (now : String) where
  -- On consistent tables, and with valid texts, `transition` returns exactly where the task is there
  -- at the expected version and may enter the status: the rowcount test and the UNIQUE constraint
  -- refuse nothing more.
  pub transition_accepts :
      (note : Note)
      → validate_note py limits options ≡ ok note
      → (is_ok (transition py limits id to v options now db).1 ≡ true)
        ↔ ((t : TaskRow) × (find_task id db.tasks ≡ some t) × (t.version ≡ v) × MayEnter t to)
  transition_accepts note valid = (forth, back)
    where
      forth :
          is_ok (transition py limits id to v options now db).1 ≡ true
          → (t : TaskRow) × (find_task id db.tasks ≡ some t) × (t.version ≡ v) × MayEnter t to
      forth h = elim (Result-cases (transition py limits id to v options now db).1) [
        | inr (e, raised) ↦ cc
        | inl (r, returned) ↦
            let made = transition-IsMade py limits db good id to v options now r returned in
            let (version, may) = guards-MayEnter made.row to v made.pass in
            (made.row, made.found, version, may)
      ]

      back :
          (t : TaskRow) × (find_task id db.tasks ≡ some t) × (t.version ≡ v) × MayEnter t to
          → is_ok (transition py limits id to v options now db).1 ≡ true
      back (t, found, version, may) = rw (
          (IsMade-of py limits db good id to v options now t note valid found
            (MayEnter-guards t to v version may)).outcome)

  -- What a `transition` returned is what `get_task` then reads.
  pub get_task-transition :
      (r : TaskRecord)
      → (transition py limits id to v options now db).1 ≡ ok r
      → get_task py id (transition py limits id to v options now db).0 ≡ ok r
  unfolding transition_row
  get_task-transition r h =
      let made = transition-IsMade py limits db good id to v options now r h in
      rw made.outcome (
        get_task-advanced py id db (transition_row to made.note now) made.row
          (transition_event id made.row to made.note now) db.leases made.found (λ u. refl))
      ∙ (sym (ap (λ o. o.1) made.outcome) ∙ h)
