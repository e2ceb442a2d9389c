-- ===== src/Executor/Claiming.antt =====
-- Claims of one task by workers, one after the other.
use novel_crawler.Prelude.{
  ℕ, String, true, List, Option, none, some, ◌≡◌, sym, ap, ◌∙◌, arith, Result, ok, err,
  Result-cases, Option-cases, inl, inr, some_inj,
}
use novel_crawler.Task.Status.{TaskStatus}
use novel_crawler.Task.Python.{Python}
use novel_crawler.Task.Checks.{Limits}
use novel_crawler.Task.Records.{TaskRecord, TaskError}
use novel_crawler.Task.Db.{Db, Outcome, task_from_row}
use novel_crawler.Task.Repository.{get_task, transition, transition_row}
use novel_crawler.Task.History.{Consistent}
use novel_crawler.Task.Transition.{transition-IsMade, get_task-transition}
use novel_crawler.Task.Calls.{Call, run}
use novel_crawler.Task.Runs.{run-Consistent_from}
use novel_crawler.Executor.Schedule.{is_interrupted}
use novel_crawler.Executor.Requests.{because, claim_target, claim_found, claim}

claim_target-is_interrupted :
    (s to : TaskStatus) → claim_target s ≡ some to → is_interrupted to ≡ true
claim_target-is_interrupted s to h = ground arith

claim_target_interrupted : (s : TaskStatus) → is_interrupted s ≡ true → claim_target s ≡ none
claim_target_interrupted s h = ground arith

ok_inj : {A : Type 0} {a b : A} → Path (Result TaskError A) (ok a) (ok b) → a ≡ b
ok_inj h = cc

unclaimed :
    {r : TaskRecord} → Path (Result TaskError (Option TaskRecord)) (ok none) (ok (some r)) → ⊥
unclaimed h = cc

raised :
    {e : TaskError} {r : TaskRecord}
    → Path (Result TaskError (Option TaskRecord)) (err e) (ok (some r))
    → ⊥
raised h = cc

module _ (py : Python) (limits : Limits) (id now : String) (others : List Call) (db : Db)
    (r : TaskRecord) where
  abbrev before_write : Db
  before_write = run py limits others db

  -- The `transition` behind a claim that returned a record.
  record IsClaim (out : Outcome (Option TaskRecord)) : Type 0 where
    to : TaskStatus
    version : ℕ
    active : is_interrupted to ≡ true
    returned :
        (transition py limits id to version (because "executor_claim") now before_write).1 ≡ ok r
    tables :
        out.0 ≡ (transition py limits id to version (because "executor_claim") now before_write).0

  claim_found-IsClaim :
      (found : Result TaskError TaskRecord)
      → (claim_found py limits id now others db found).1 ≡ ok (some r)
      → IsClaim (claim_found py limits id now others db found)
  unfolding claim_found
  claim_found-IsClaim (err e) h = absurd (raised h)
  claim_found-IsClaim (ok task) h = elim (Option-cases (claim_target task.status)) [
    | inl passed ↦ absurd (unclaimed (rw (claim_found, passed) at h))
    | inr (to, target) ↦
        elim (Result-cases
          (transition py limits id to task.version (because "executor_claim") now before_write).1) [
            | inr (e, fails) ↦ absurd (raised (rw (claim_found, target, fails) at h))
            | inl (claimed, works) ↦ record {
              to = to;
              version = task.version;
              active = claim_target-is_interrupted task.status to target;
              returned =
                  rw works (ap ok (some_inj (ok_inj (rw (claim_found, target, works) at h))));
              tables = rw (claim_found, target, works);
            }
          ]
  ]

claim_again :
    (py : Python) (limits : Limits) (id now : String) (others : List Call) (db : Db)
    (r : TaskRecord)
    → get_task py id db ≡ ok r
    → is_interrupted r.status ≡ true
    → claim py limits id now others db ≡ (db, ok none)
unfolding claim
claim_again py limits id now others db r found active =
    rw (found, claim_found, claim_target_interrupted r.status active)

-- A claim of a task in consistent tables that returned a record, whatever calls other writers made
-- between its read and its write, has the task in an active status, and the next claim of the task, at
-- any time and with any such calls, returns None and changes nothing.
pub claim_once :
    (py : Python) (limits : Limits) (id now now' : String) (others others' : List Call) (db : Db)
    (r : TaskRecord)
    → Consistent db
    → (claim py limits id now others db).1 ≡ ok (some r)
    → let db' = (claim py limits id now others db).0 in
      (is_interrupted r.status ≡ true) × (claim py limits id now' others' db' ≡ (db', ok none))
unfolding claim
claim_once py limits id now now' others others' db r good h =
    let made = claim_found-IsClaim py limits id now others db r (get_task py id db) h in
    let db1 = run py limits others db in
    let good1 = run-Consistent_from py limits others db good in
    let after : get_task py id (claim py limits id now others db).0 ≡ ok r = rw made.tables (
      get_task-transition py limits db1 good1 id made.to made.version (because "executor_claim") now
        r made.returned) in
    let entered =
      transition-IsMade py limits db1 good1 id made.to made.version (because "executor_claim") now r
        made.returned in
    let status : r.status ≡ made.to =
      unfold task_from_row transition_row in
      sym (ap (λ x. x.status) (ok_inj (sym (ap (λ o. o.1) entered.outcome) ∙ made.returned))) in
    let active : is_interrupted r.status ≡ true = rw status made.active in
    (
      active,
      claim_again py limits id now' others' (claim py limits id now others db).0 r after active,
    )
