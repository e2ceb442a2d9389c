-- ===== src/Task/Calls.antt =====
-- A run of the repository: the calls that write, one after the other under its lock.
use novel_crawler.Prelude.{ℕ, String, List, [], ◌∷◌, Option}
use novel_crawler.Task.Status.{TaskStatus}
use novel_crawler.Task.Values.{Fields}
use novel_crawler.Task.Python.{Python}
use novel_crawler.Task.Checks.{Limits}
use novel_crawler.Task.Db.{Db}
use novel_crawler.Task.Repository
use novel_crawler.Task.Repository.{TransitionOptions}

-- Each call with its arguments, the clock's reading `now` among them.
pub data Call : Type 0 where
  create_task : String → String → String → Option Fields → Call
  transition : String → TaskStatus → ℕ → TransitionOptions → String → Call
  require_cleanup : String → ℕ → Option String → String → Call
  complete_cleanup_gate : String → ℕ → String → Call
  recover_lost_interaction : String → ℕ → String → Option String → String → Call
  transition_to_waiting_with_lease : String → ℕ → String → ℕ → String → String → Call
  renew_interaction_lease : String → ℕ → String → ℕ → String → Call
  release_interaction_lease : String → String → ℕ → Call
  save_checkpoint : String → String → Fields → Option ℕ → String → Call
  delete_checkpoint : String → String → ℕ → Call

module _ (py : Python) (limits : Limits) where
  -- The tables behind a call, whether it returned or raised.
  unfoldable pub perform : Call → Db → Db
  perform (create_task id now url metadata) db =
      (Repository.create_task py limits id now url metadata db).0
  perform (transition id to v options now) db =
      (Repository.transition py limits id to v options now db).0
  perform (require_cleanup id v code now) db = (Repository.require_cleanup py id v code now db).0
  perform (complete_cleanup_gate id v now) db = (Repository.complete_cleanup_gate py id v now db).0
  perform (recover_lost_interaction id v code clock now) db =
      (Repository.recover_lost_interaction py id v code clock now db).0
  perform (transition_to_waiting_with_lease id v owner epoch expires now) db =
      (Repository.transition_to_waiting_with_lease py id v owner epoch expires now db).0
  perform (renew_interaction_lease id v owner epoch expires) db =
      (Repository.renew_interaction_lease py id v owner epoch expires db).0
  perform (release_interaction_lease id owner epoch) db =
      (Repository.release_interaction_lease py id owner epoch db).0
  perform (save_checkpoint id key payload expected now) db =
      (Repository.save_checkpoint py limits id key payload expected now db).0
  perform (delete_checkpoint id key expected) db =
      (Repository.delete_checkpoint id key expected db).0

  unfoldable pub run : List Call → Db → Db
  run [] db = db
  run (c ∷ cs) db = run cs (perform c db)
