-- ===== src/Task/Runs.antt =====
-- What holds over every run of the repository, whatever calls are made and whichever of them raise.
use mathlib.Core.Path.{subst}
use novel_crawler.Prelude.{ℕ, suc, String, List, [], ◌∷◌, none, some, ◌≡◌, refl, sym, arith, eq_iff}
use novel_crawler.Task.Python.{Python}
use novel_crawler.Task.Checks.{Limits}
use novel_crawler.Task.Db.{TaskRow, Db, empty, find_task}
use novel_crawler.Task.Repository.{created_row, created_event}
use novel_crawler.Task.History.{begins, replay_event, replay, trace_of, Parked, Unique, Consistent}
use novel_crawler.Task.Tables.{event_row}
use novel_crawler.Task.Advance.{advanced, Consistent-advanced}
use novel_crawler.Task.Effects.{Effect, unchanged, born, moved}
use novel_crawler.Task.Refinement.{perform-Effect}
use novel_crawler.Task.Calls.{Call, perform, run}

-- `Consistent` speaks of two tables only.
same_tables : (a b : Db) → b.tasks ≡ a.tasks → b.events ≡ a.events → Consistent a → Consistent b
same_tables a b p q good = record {
  unique = subst Unique (sym p) good.unique;
  traced = λ id. rw (p, q) (good.traced id);
  parked = λ id t h. good.parked id t (rw p at h);
}

module _ (db : Db) (id url json now : String) (n : ℕ) (good : Consistent db)
    (missing : find_task id db.tasks ≡ none) where
  born_db : Db
  born_db = record db {
    tasks = created_row id url json now ∷ db.tasks;
    events = event_row (created_event id now) n ∷ db.events;
  }

  born-traced : (j : String) → replay j born_db.events ≡ trace_of (find_task j born_db.tasks)
  unfolding born_db replay find_task replay_event begins
  born-traced j = ground (arith, eq_iff id j, good.traced j, missing)

  born-Parked : (j : String) (t : TaskRow) → find_task j born_db.tasks ≡ some t → Parked t
  unfolding born_db find_task
  born-Parked j t h = ground (arith, good.parked j t)

  born-Consistent : Consistent born_db
  unfolding born_db
  born-Consistent = record {
    unique = (missing, good.unique);
    traced = born-traced;
    parked = born-Parked;
  }

Effect-Consistent : (db db' : Db) → Consistent db → Effect db db' → Consistent db'
unfolding born_db
Effect-Consistent db db' good (unchanged p q) = same_tables db db' p q good
Effect-Consistent db db' good (born id url json now missing p q) =
    same_tables (born_db db id url json now (suc db.last_event_id) good missing) db' p q
      (born-Consistent db id url json now (suc db.last_event_id) good missing)
Effect-Consistent db db' good (moved id f t e found step p q) =
    same_tables (advanced id db f t e db.leases) db' p q
      (Consistent-advanced id db f t e db.leases good found step)

module _ (py : Python) (limits : Limits) where
  pub perform-Consistent :
      (c : Call) (db : Db) → Consistent db → Consistent (perform py limits c db)
  perform-Consistent c db good =
      Effect-Consistent db (perform py limits c db) good (perform-Effect py limits db good c)

  -- From consistent tables every run of calls leaves consistent tables: no two rows for one task, one
  -- event for each version of a task, every edge of the log one that the calls may record, and each
  -- row the outcome of its newest event.
  pub run-Consistent_from :
      (cs : List Call) (db : Db) → Consistent db → Consistent (run py limits cs db)
  unfolding run
  run-Consistent_from [] db good = good
  run-Consistent_from (c ∷ cs) db good =
      run-Consistent_from cs (perform py limits c db) (perform-Consistent c db good)

pub empty-Consistent : Consistent empty
unfolding replay find_task
empty-Consistent = record { unique = tt; traced = λ id. refl; parked = λ id t h. ground arith }
