-- ===== src/Executor/Handlers.antt =====
-- The instances of the theorems on handlers at the concrete tables of the tests.
use novel_crawler.Prelude.{[], ◌∷◌, Option, none, some}
use novel_crawler.Task.Status.{TaskStatus, probing, validating}
use novel_crawler.Task.Records.{TaskRecord}
use novel_crawler.Task.Db.{Db, empty, task_from_row}
use novel_crawler.Task.Witness.{plain, limits, tables, tables-Consistent, first, late}
use novel_crawler.Executor.Handling.{Handled, moves_to, Turn, run_claimed}
use novel_crawler.Executor.Turns.{KeepsUp, run_claimed-KeepsUp}

abbrev handler : TaskRecord → Handled
handler task = moves_to validating

abbrev handlers : TaskStatus → Option (TaskRecord → Handled)
handlers probing = some handler
handlers _ = none

abbrev quiet : Turn
quiet = record {
  before_check = [];
  during = [];
  before_read = [];
  before_write = [];
  before_handoff = [];
  first = [];
  second = [];
  third = [];
  now = late;
}

abbrev db : Db
db = record empty { tasks = first ∷ [] }

abbrev task : TaskRecord
task = task_from_row plain first

run_claimed-KeepsUp_example :
    KeepsUp plain limits handlers "t1"
      (run_claimed plain limits handlers "t1" (quiet ∷ []) task tables)
run_claimed-KeepsUp_example =
    run_claimed-KeepsUp plain limits handlers "t1" quiet [] task tables tables-Consistent
