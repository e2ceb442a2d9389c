-- ===== src/Executor/Settled.antt =====
-- The three attempts of `_record_failure` against other writers.
use novel_crawler.Prelude.{
  ℕ, String, Bool, true, false, ◌||◌, List, [], ◌∷◌, ◌++◌, some, ◌≡◌, refl, sym, ap, ◌∙◌, ◌⊎◌, inl,
  inr, arith, Result, ok, err, Bool-cases, Result-cases, some_inj,
}
use novel_crawler.Task.Status.{
  TaskStatus, created, is_terminal_status, is_resumable, is_cleanup, same_status,
  allowed_transitions,
}
use novel_crawler.Task.Python.{Python}
use novel_crawler.Task.Checks.{Limits}
use novel_crawler.Task.Records.{TaskRecord, TaskError}
use novel_crawler.Task.Db.{Db, TaskRow, find_task, task_from_row, transaction}
use novel_crawler.Task.Repository.{
  Note, get_task, transition, validate_note, transition_guards, transition_row, transition_event,
  apply_transition,
}
use novel_crawler.Task.History.{Consistent}
use novel_crawler.Task.Advance.{advanced}
use novel_crawler.Task.Steps.{apply_transition_lem}
use novel_crawler.Executor.Entering.{find_task-advanced}
use novel_crawler.Task.Calls.{Call, run}
use novel_crawler.Task.Runs.{run-Consistent_from}
use novel_crawler.Task.Growth.{run-Later}
use novel_crawler.Executor.Requests.{is_version_conflict, is_invalid_transition}
use novel_crawler.Executor.Notes.{note_fails}
use novel_crawler.Executor.Failure.{
  failure_target, failure_options, Attempt, stop, retry, attempt_of, attempt_found, attempts,
  record_failure,
}

-- A task that no worker goes on with: it is over, parked, not begun, or behind a gate.
abbrev pub rests : TaskRow → Bool
rests t =
    (is_terminal_status t.status || is_resumable t.status)
    || (same_status t.status created || is_cleanup t.resume_gate)

guards_fail :
    (t : TaskRow) (to : TaskStatus) (v : ℕ) (e : TaskError)
    → transition_guards t to v ≡ err e
    → (is_version_conflict e || is_invalid_transition e) ≡ true
unfolding transition_guards
guards_fail t to v e h = ground arith

refused_rests :
    (is_final : Bool) (t : TaskRow) (e : TaskError)
    → transition_guards t (failure_target is_final) t.version ≡ err e
    → rests t ≡ true
unfolding transition_guards allowed_transitions
refused_rests is_final t e h = ground arith

target_rests : (is_final : Bool) (t : TaskRow) → t.status ≡ failure_target is_final → rests t ≡ true
target_rests true t h = rw h refl
target_rests false t h = rw h refl

module _ (py : Python) (limits : Limits) (id : String) (is_final : Bool) (code now : String)
    (note : Note) (valid : validate_note py limits (failure_options code) ≡ ok note) where
  abbrev call_of : ℕ → Call
  call_of v = Call.transition id (failure_target is_final) v (failure_options code) now

  abbrev called : ℕ → Db → Db × Result TaskError TaskRecord
  called v db = transition py limits id (failure_target is_final) v (failure_options code) now db

  called_refused :
      (v : ℕ) (db : Db) (t : TaskRow) (e : TaskError)
      → find_task id db.tasks ≡ some t
      → transition_guards t (failure_target is_final) v ≡ err e
      → called v db ≡ (db, err e)
  unfolding transition apply_transition transaction
  called_refused v db t e found fails = rw (valid, found, fails)

  called_made :
      (v : ℕ) (db : Db) (t : TaskRow)
      → Consistent db
      → find_task id db.tasks ≡ some t
      → transition_guards t (failure_target is_final) v ≡ ok tt
      → called v db ≡ (
        advanced id db
            (transition_row (failure_target is_final) note now)
            t
            (transition_event id t (failure_target is_final) note now)
            db.leases,
        ok (task_from_row py (transition_row (failure_target is_final) note now t)),
      )
  unfolding transition transaction
  called_made v db t good found pass =
      rw (
        valid,
        apply_transition_lem id t (failure_target is_final) v note now py db good found pass,
      )

  quiet_tables :
      (others : List Call) (db : Db) (u : TaskRow)
      → others ≡ []
      → find_task id (run py limits others db).tasks ≡ some u
      → find_task id db.tasks ≡ some u
  unfolding run
  quiet_tables others db u nobody there = rw nobody at there

  -- An attempt that ends the loop with the task at rest.
  record Settles (out : Db × Attempt) : Type 0 where
    row : TaskRow
    found : find_task id out.0.tasks ≡ some row
    rest : rests row ≡ true
    stops : out.1 ≡ stop (ok tt)

  -- An attempt that is made again; where nobody else wrote, the task was at rest.
  record Retries (others : List Call) (out : Db × Attempt) : Type 0 where
    row : TaskRow
    good : Consistent out.0
    found : find_task id out.0.tasks ≡ some row
    again : out.1 ≡ retry
    calm : others ≡ [] → rests row ≡ true

  module _ (others : List Call) (db : Db) (t : TaskRow) (good : Consistent db)
      (found : find_task id db.tasks ≡ some t) where
    abbrev attempt : Db × Attempt
    attempt = attempt_found py limits id is_final code now others db (get_task py id db)

    abbrev written : Db × Attempt
    written =
        let (db', outcome) = called t.version (run py limits others db) in (db', attempt_of outcome)

    written-cases : Settles written ⊎ Retries others written
    written-cases =
        let db1 = run py limits others db in
        let good1 = run-Consistent_from py limits others db good in
        let (u, there, later) = run-Later py limits others db id t good found in
        elim (Result-cases (transition_guards u (failure_target is_final) t.version)) [
          | inr (e, fails) ↦ inr (record {
            row = u;
            good = rw (called_refused t.version db1 u e there fails) good1;
            found = rw (called_refused t.version db1 u e there fails) there;
            again =
                rw
                  (
                    called_refused t.version db1 u e there fails,
                    guards_fail u (failure_target is_final) t.version e fails,
                  )
                  refl;
            calm = λ nobody.
                let same : t ≡ u = some_inj (sym found ∙ (quiet_tables others db u nobody there)) in
                rw (← same) (refused_rests is_final t e (rw (← same) at fails));
          })
          | inl (_, pass) ↦
              let made = called_made t.version db1 u good1 there pass in
              inl (record {
                row = transition_row (failure_target is_final) note now u;
                found =
                    rw made (find_task-advanced id (failure_target is_final) note now db1 u there);
                rest =
                    unfold transition_row in
                    target_rests is_final (transition_row (failure_target is_final) note now u)
                      refl;
                stops = rw made refl;
              })
        ]

    attempt-cases : Settles attempt ⊎ Retries others attempt
    unfolding attempt_found get_task task_from_row
    attempt-cases = elim (Bool-cases (is_terminal_status t.status || is_resumable t.status)) [
      | inr active ↦ rw (found, active) written-cases
      | inl idle ↦
          rw found
            (rw idle (inl (record { row = t; found = found; rest = rw idle refl; stops = refl })))
    ]

  -- The loop has ended, and the task is at rest.
  abbrev Done : Db × Result TaskError Unit → Type 0
  Done out =
      (out.1 ≡ ok tt) × ((t : TaskRow) × (find_task id out.0.tasks ≡ some t) × (rests t ≡ true))

  abbrev loop : List (List Call) → Db → Db × Result TaskError Unit
  loop rounds db = attempts py limits id is_final code now rounds db

  last-Done :
      (db : Db) (t : TaskRow)
      → Consistent db
      → find_task id db.tasks ≡ some t
      → Done (loop ([] ∷ []) db)
  unfolding attempts
  last-Done db t good found = elim (attempt-cases [] db t good found) [
    | inl settled ↦ rw (attempts, settled.stops) (refl, (settled.row, settled.found, settled.rest))
    | inr retries ↦
        rw (attempts, retries.again) (refl, (retries.row, retries.found, retries.calm refl))
  ]

  loop-Done :
      (rounds : List (List Call)) (db : Db) (t : TaskRow)
      → Consistent db
      → find_task id db.tasks ≡ some t
      → Done (loop (rounds ++ ([] ∷ [])) db)
  unfolding attempts
  loop-Done [] db t good found = last-Done db t good found
  loop-Done (others ∷ rounds) db t good found = elim (attempt-cases others db t good found) [
    | inl settled ↦ rw (attempts, settled.stops) (refl, (settled.row, settled.found, settled.rest))
    | inr retries ↦
        rw (attempts, retries.again) (loop-Done rounds _ retries.row retries.good retries.found)
  ]

module _ (py : Python) (limits : Limits) (id : String) (is_final : Bool) (code now : String) where
  abbrev failed : List Call → List Call → Db → Db × Result TaskError Unit
  failed first second db = record_failure py limits id is_final code now first second [] db

  -- The first attempt, where the task is over or parked.
  idle_attempt :
      (others : List Call) (db : Db) (t : TaskRow)
      → find_task id db.tasks ≡ some t
      → (is_terminal_status t.status || is_resumable t.status) ≡ true
      → attempt_found py limits id is_final code now others db (get_task py id db)
        ≡ (db, stop (ok tt))
  unfolding attempt_found get_task task_from_row
  idle_attempt others db t found idle = rw found (rw idle refl)

  -- The first attempt, where the note is refused.
  refused_attempt :
      (others : List Call) (db : Db) (t : TaskRow) (e : TaskError)
      → find_task id db.tasks ≡ some t
      → (is_terminal_status t.status || is_resumable t.status) ≡ false
      → validate_note py limits (failure_options code) ≡ err e
      → attempt_found py limits id is_final code now others db (get_task py id db)
        ≡ (run py limits others db, stop (err e))
  unfolding attempt_found get_task task_from_row transition transaction
  refused_attempt others db t e found active refused =
      rw found (rw (active, refused) (rw (note_fails py limits (failure_options code) e refused)))

  -- `_record_failure` of a task that the repository knows, whatever calls other writers make in its
  -- first two attempts, if they make none in the third. Where it returns, the task is then over or
  -- parked, or it cannot be failed: it has not begun, or waits behind a cleanup gate. It raises only
  -- where the repository refuses the note of the failure, such as its error code: it raises that error
  -- in its first attempt, and has written nothing.
  pub record_failure_settles :
      (first second : List Call) (db : Db) (t : TaskRow)
      → Consistent db
      → find_task id db.tasks ≡ some t
      → ((failed first second db).1 ≡ ok tt
          × ((t' : TaskRow) × (find_task id (failed first second db).0.tasks ≡ some t')
              × (rests t' ≡ true)))
        ⊎ ((e : TaskError) × (validate_note py limits (failure_options code) ≡ err e)
            × (failed first second db ≡ (run py limits first db, err e)))
  unfolding record_failure
  record_failure_settles first second db t good found =
      elim (Result-cases (validate_note py limits (failure_options code))) [
        | inl (note, valid) ↦ inl (
            loop-Done py limits id is_final code now note valid (first ∷ second ∷ []) db t good
              found)
        | inr (e, refused) ↦
            elim (Bool-cases (is_terminal_status t.status || is_resumable t.status)) [
              | inl idle ↦
                  let ends = idle_attempt first db t found idle in
                  let stays : failed first second db ≡ (db, ok tt) =
                    rw (attempts, ends) (ap (λ x. (x.0, ok tt)) ends) in
                  inl (rw stays (refl, (t, found, rw idle refl)))
              | inr active ↦ inr (
                e,
                refused,
                let ends = refused_attempt first db t e found active refused in
                    rw (attempts, ends) (ap (λ x. (x.0, err e)) ends),
              )
            ]
      ]
