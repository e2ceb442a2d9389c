-- ===== src/Task/Versions.antt =====
-- What the version of a task and its parked status guarantee over several calls.
use mathlib.Core.Path.{subst}
use novel_crawler.Prelude.{
  ℕ, suc, ◌≤◌, String, true, false, List, some, ◌≡◌, refl, sym, ap, ◌∙◌, ◌⊎◌, ◌↔◌, inl, inr, arith,
  eq_refl, ok, err, is_ok, some_inj, Bool-cases, ◌=?◌,
}
use novel_crawler.Task.Status.{
  TaskStatus, allowed_transitions, is_abandoned, is_cleanup, is_resumable,
}
use novel_crawler.Task.Python.{Python}
use novel_crawler.Task.Checks.{Limits}
use novel_crawler.Task.Records.{TaskRecord, task_version_conflict}
use novel_crawler.Task.Db.{TaskRow, Db, find_task, transaction}
use novel_crawler.Task.Repository.{
  Note, TransitionOptions, transition, validate_note, transition_guards, transition_row,
  apply_transition, next_resume_status, next_resume_gate,
}
use novel_crawler.Task.History.{Consistent}
use novel_crawler.Task.Tables.{find_task-set_task}
use novel_crawler.Task.Calls.{Call, run, perform}
use novel_crawler.Task.Runs.{perform-Consistent}
use novel_crawler.Task.Growth.{run-Later}
use novel_crawler.Task.Transition.{
  IsMade, transition-IsMade, MayEnter, guards-MayEnter, transition_accepts,
}

not_equal : (a v : ℕ) → suc v ≤ a → (a =? v) ≡ false
not_equal a v h = ground arith

stale_refused :
    (py : Python) (limits : Limits) (id : String) (to : TaskStatus) (v : ℕ)
    (options : TransitionOptions) (now : String) (db : Db) (t : TaskRow) (note : Note)
    → validate_note py limits options ≡ ok note
    → find_task id db.tasks ≡ some t
    → suc v ≤ t.version
    → (transition py limits id to v options now db).1 ≡ err task_version_conflict
unfolding transition apply_transition transition_guards transaction
stale_refused py limits id to v options now db t note valid found old =
    rw (valid, found, not_equal t.version v old)

-- The ways out of the parked status `to` of a task that was parked at the row `t`: giving it up, or
-- going back while the gate is open.
abbrev pub Exit : TaskStatus → TaskStatus → TaskRow → Type 0
Exit to to' t =
    (is_abandoned to' ≡ true) × (allowed_transitions to to' ≡ true)
    ⊎ (is_cleanup t.resume_gate ≡ false) × (to' ≡ t.status)

-- The row of a task that was just parked may enter the status that it left, if its gate is open, and
-- the statuses that give it up.
parked_row_exits :
    (t : TaskRow) (to to' : TaskStatus) (note : Note) (now : String)
    → is_resumable to ≡ true
    → allowed_transitions t.status to ≡ true
    → MayEnter (transition_row to note now t) to'
    → Exit to to' t
unfolding transition_row next_resume_status next_resume_gate
parked_row_exits t to to' note now parks edge may = elim (Bool-cases (is_abandoned to')) [
  | inl gone ↦ inl (gone, may.edge)
  | inr kept ↦ inr (ground (arith, may.gate, may.origin), ground (arith, may.gate, may.origin))
]

parked_row_enters :
    (t : TaskRow) (to to' : TaskStatus) (note : Note) (now : String)
    → is_resumable to ≡ true
    → allowed_transitions t.status to ≡ true
    → Exit to to' t
    → MayEnter (transition_row to note now t) to'
unfolding transition_row next_resume_status next_resume_gate allowed_transitions
parked_row_enters t to to' note now parks edge (inl (gone, allowed)) = record {
  edge = allowed;
  gate = inr gone;
  origin = inr (inl gone);
}
parked_row_enters t to to' note now parks edge (inr (free, back)) = record {
  edge = ground arith;
  gate = inl (ground arith);
  origin = inr (inr (ground arith));
}

module _ (py : Python) (limits : Limits) (id : String) (to : TaskStatus) (v : ℕ)
    (options : TransitionOptions) (now : String) where
  module _ (db : Db) (good : Consistent db) where
    after-Consistent : Consistent (transition py limits id to v options now db).0
    after-Consistent =
        unfold perform in perform-Consistent py limits (Call.transition id to v options now) db good

    -- The row behind a call that returned.
    after-found :
        (made : IsMade py id to v now db (transition py limits id to v options now db))
        → find_task id (transition py limits id to v options now db).0.tasks
          ≡ some (transition_row to made.note now made.row)
    unfolding transition_row
    after-found made = rw (
      made.outcome,
      find_task-set_task (transition_row to made.note now) (λ u. refl) id id db.tasks made.row
          made.found,
      eq_refl,
    )

    -- A version is good for one change: behind a `transition` that returned, and behind any further
    -- calls, another `transition` with valid texts that expects the same version raises a version
    -- conflict.
    pub transition_once :
        (r : TaskRecord) (cs : List Call) (to' : TaskStatus) (options' : TransitionOptions)
        (note' : Note) (now' : String)
        → (transition py limits id to v options now db).1 ≡ ok r
        → validate_note py limits options' ≡ ok note'
        → (transition py limits id to' v options' now'
            (run py limits cs (transition py limits id to v options now db).0)).1
          ≡ err task_version_conflict
    unfolding transition_row
    transition_once r cs to' options' note' now' h valid =
        let made = transition-IsMade py limits db good id to v options now r h in
        let db' = (transition py limits id to v options now db).0 in
        let (t, there, later) =
          run-Later py limits cs db' id (transition_row to made.note now made.row) after-Consistent
            (after-found made) in
        stale_refused py limits id to' v options' now' (run py limits cs db') t note' valid there
          (omega (arith, later.grows, (guards-MayEnter made.row to v made.pass).0))

    -- Parking a task keeps the way back: behind a `transition` to PAUSED or RECOVERABLE_FAILED that
    -- returned, the next `transition` returns exactly if it gives the task up along an edge of the
    -- table, or goes back to the status that the task left while its gate is open.
    pub parked_exits :
        (r : TaskRecord) (t : TaskRow) (to' : TaskStatus) (options' : TransitionOptions)
        (note' : Note) (now' : String)
        → is_resumable to ≡ true
        → find_task id db.tasks ≡ some t
        → (transition py limits id to v options now db).1 ≡ ok r
        → validate_note py limits options' ≡ ok note'
        → (is_ok
              (transition py limits id to'
                (suc v)
                options'
                now'
                (transition py limits id to v options now db).0).1
            ≡ true)
          ↔ (Exit to to' t)
    unfolding transition_row
    parked_exits r t to' options' note' now' parks found h valid =
        let made = transition-IsMade py limits db good id to v options now r h in
        let db' = (transition py limits id to v options now db).0 in
        let row' = transition_row to made.note now made.row in
        let accepts =
          transition_accepts py limits db' after-Consistent id to' (suc v) options' now' note'
            valid in
        let (version, may) = guards-MayEnter made.row to v made.pass in
        let same : made.row ≡ t = some_inj (sym made.found ∙ found) in
        (
          λ returned.
              let (t', found', version', may') = accepts.0 returned in
              let is_row : t' ≡ row' = some_inj (sym found' ∙ after-found made) in
              subst (λ (x : TaskRow). Exit to to' x) same
                (parked_row_exits made.row to to' made.note now parks may.edge
                  (subst (λ x. MayEnter x to') is_row may')),
          λ exit. accepts.1 (
            row',
            after-found made,
            ap suc version,
            parked_row_enters made.row to to' made.note now parks may.edge
                (subst (λ (x : TaskRow). Exit to to' x) (sym same) exit),
          ),
        )
