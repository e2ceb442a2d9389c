-- ===== src/Task/Witness.antt =====
-- Tests of the task repository, and the instances of its theorems at concrete tables.
use novel_crawler.Prelude.{
  String, ◌==◌, true, false, ◌&&◌, List, [], ◌∷◌, ◌++◌, none, some, ◌≡◌, refl, ok, err, is_ok,
  codes, codes_lt, any, text_lt, ◌=?◌, ◌↔◌, leb,
}
use novel_crawler.Task.Status.{
  probing, validating, waiting_for_user, paused, recoverable_failed, cancelled, open_gate, cleanup,
  allowed_transitions,
}
use novel_crawler.Task.Values.{Value, Fields}
use novel_crawler.Task.Python.{Python}
use novel_crawler.Task.Checks.{
  Limits, is_checkpoint_key, validate_checkpoint_key, validate_source_url, validate_metadata,
  reject_sensitive_metadata, is_error_code, validate_error_code, validate_interaction_lease,
  validate_optional_text,
}
use novel_crawler.Task.Records.{
  TaskRecord, CheckpointRecord, checkpoint_not_found, task_version_conflict, cleanup_required,
}
use novel_crawler.Task.Db.{
  TaskRow, EventRow, Db, empty, find_task, update_task, insert_event, task_from_row, transaction,
}
use novel_crawler.Task.Repository
use novel_crawler.Task.Repository.{
  Note, TransitionOptions, transition, validate_note, get_task, insert_task, transition_guards,
  cleanup_resume_status, orphaned_rows, interaction_recovery_errors, recover_lost_interaction,
  owns_interaction_lease, release_interaction_lease, transition_to_waiting_with_lease,
  require_cleanup, complete_cleanup_gate, save_checkpoint, load_checkpoint, delete_checkpoint,
  find_checkpoint, store_checkpoint,
}
use novel_crawler.Task.Status.{TaskStatus, same_status}
use novel_crawler.Task.Records.{TaskError}
use novel_crawler.Task.History.{Consistent}
use novel_crawler.Task.Calls.{Call, run, perform}
use novel_crawler.Task.Effects.{Effect}
use novel_crawler.Task.Refinement.{perform-Effect}
use novel_crawler.Task.Runs.{run-Consistent_from, empty-Consistent}
use novel_crawler.Task.Growth.{Later, run-Later, run_log_grows}
use novel_crawler.Task.Transition.{MayEnter, transition_accepts, get_task-transition}
use novel_crawler.Task.Versions.{Exit, transition_once, parked_exits}
use novel_crawler.Task.Gate.{cleanup_round_trip, wait_passes_gate}
use novel_crawler.Task.Compare.{
  UniqueKeys, is_expected, save_checkpoint_exact, load-save, load-delete,
}
use novel_crawler.Task.Leases.{
  wait_gives_lease, release_ends_lease, recovers_orphans, live_lease_protects,
}

-- An interpreter that finds nothing sensitive and writes every value as the empty object.
abbrev pub plain : Python
plain = record {
  dumps = λ v. some "{}";
  loads = λ s. Value.object Fields.end;
  urlsplit = λ s.
      some (record { scheme = "https"; hostname = some "h"; username = none; password = none });
  authorization_header = λ s. false;
  credential_equals = λ s. false;
  credential_json = λ s. false;
  cookie_header = λ s. false;
  html_structure = λ s. false;
  profile_path_assignment = λ s. false;
  credential_colon_values = λ s. [];
  bearer_values = λ s. [];
  normalized = codes;
  casefold = λ s. s;
  is_title = λ s. false;
  is_digit = λ c. leb b'0' c && leb c b'9';
  is_alpha = λ c. leb b'a' c && leb c b'z';
  is_aware_timestamp = λ s. true;
}

abbrev pub limits : Limits
limits = record { max_metadata_bytes = 8192; max_error_length = 1000 }

abbrev pub silent : TransitionOptions
silent = record { reason = none; metadata = none; error_code = none; error_message = none }

abbrev pub blank_note : Note
blank_note = record { reason = none; metadata_json = "{}"; error_code = none; error_message = none }

silent_valid : validate_note plain limits silent ≡ ok blank_note
unfolding validate_note validate_optional_text validate_error_code validate_metadata
silent_valid = refl

abbrev pub early : String
early = "2026-01-01T00:00:00+00:00"

abbrev pub late : String
late = "2026-01-02T00:00:00+00:00"

abbrev owner : String
owner = "0123456789abcdef"

-- A task that is probed, and one whose probing failed and waits for its cleanup.
abbrev pub calls : List Call
calls =
    Call.create_task "t1" early "https://h/" none
    ∷ Call.transition "t1" probing 0 silent early
    ∷ Call.create_task "t2" early "https://h/" none
    ∷ Call.transition "t2" probing 0 silent early
    ∷ Call.require_cleanup "t2" 1 (some "browser_lost") early
    ∷ []

pub tables : Db
unfolding run perform Repository.create_task Repository.transition Repository.require_cleanup
    validate_source_url validate_metadata validate_note validate_error_code validate_optional_text
    insert_task insert_event update_task find_task transition_guards allowed_transitions transaction
tables = run plain limits calls empty

pub tables-Consistent : Consistent tables
unfolding tables
tables-Consistent = run-Consistent_from plain limits calls empty empty-Consistent

abbrev pub first : TaskRow
first = record {
  task_id = "t1";
  source_url = "https://h/";
  status = probing;
  version = 1;
  metadata_json = "{}";
  error_code = none;
  error_message = none;
  resume_status = none;
  resume_gate = open_gate;
  created_at = early;
  updated_at = early;
}

pub first_found : find_task "t1" tables.tasks ≡ some first
unfolding tables
first_found = refl

abbrev second : TaskRow
second = record {
  task_id = "t2";
  source_url = "https://h/";
  status = recoverable_failed;
  version = 2;
  metadata_json = "{}";
  error_code = some "browser_lost";
  error_message = none;
  resume_status = some probing;
  resume_gate = cleanup;
  created_at = early;
  updated_at = early;
}

second_found : find_task "t2" tables.tasks ≡ some second
unfolding tables
second_found = refl

abbrev to_validating : Db
to_validating = (transition plain limits "t1" validating 1 silent late tables).0

perform-Effect_example :
    Effect tables (perform plain limits (Call.transition "t1" paused 1 silent late) tables)
perform-Effect_example =
    perform-Effect plain limits tables tables-Consistent (Call.transition "t1" paused 1 silent late)

run-Consistent_from_example : Consistent (run plain limits calls empty)
run-Consistent_from_example = run-Consistent_from plain limits calls empty empty-Consistent

run-Later_example :
    (t' : TaskRow) × (find_task "t1" (run plain limits calls tables).tasks ≡ some t')
    × Later first t'
run-Later_example = run-Later plain limits calls tables "t1" first tables-Consistent first_found

run_log_grows_example :
    (new : List EventRow) × ((run plain limits calls tables).events ≡ new ++ tables.events)
run_log_grows_example = run_log_grows plain limits calls tables tables-Consistent

transition_accepts_example :
    (is_ok (transition plain limits "t1" validating 1 silent late tables).1 ≡ true) ↔ (
      (t : TaskRow) × (find_task "t1" tables.tasks ≡ some t)
      × (t.version ≡ 1)
      × MayEnter t validating)
transition_accepts_example =
    transition_accepts plain limits tables tables-Consistent "t1" validating 1 silent late
      blank_note silent_valid

abbrev validated : TaskRecord
validated =
    task_from_row plain (record first { status = validating; version = 2; updated_at = late })

validating_returns : (transition plain limits "t1" validating 1 silent late tables).1 ≡ ok validated
unfolding tables task_from_row
validating_returns = refl

get_task-transition_example :
    get_task plain "t1" (transition plain limits "t1" validating 1 silent late tables).0
    ≡ ok validated
get_task-transition_example =
    get_task-transition plain limits tables tables-Consistent "t1" validating 1 silent late
      validated validating_returns

transition_once_example :
    (transition plain limits "t1" cancelled 1 silent late
      (run plain limits calls (transition plain limits "t1" validating 1 silent late tables).0)).1
    ≡ err task_version_conflict
transition_once_example =
    transition_once plain limits "t1" validating 1 silent late tables tables-Consistent validated
      calls cancelled silent blank_note late validating_returns silent_valid

pausing_returns :
    (r : TaskRecord) × ((transition plain limits "t1" paused 1 silent late tables).1 ≡ ok r)
unfolding tables
pausing_returns = (_, refl)

parked_exits_example :
    (is_ok
        (transition plain limits "t1" probing 2 silent late
          (transition plain limits "t1" paused 1 silent late tables).0).1
      ≡ true)
    ↔ Exit paused probing first
parked_exits_example =
    parked_exits plain limits "t1" paused 1 silent late tables tables-Consistent pausing_returns.0
      first probing silent blank_note late refl first_found pausing_returns.1 silent_valid

cleanup_round_trip_example :
    let out =
      complete_cleanup_gate plain "t1" 2 late
        (require_cleanup plain "t1" 1 (some "browser_lost") early tables).0 in
    (r : TaskRecord) × (out.1 ≡ ok r)
    × (get_task plain "t1" out.0 ≡ ok r)
    × (probing ≡ waiting_for_user → r.status ≡ probing)
    × ((origin : TaskStatus) → probing ≡ paused → none ≡ some origin → r.status ≡ origin)
    × (same_status probing waiting_for_user ≡ false
        → same_status probing paused ≡ false
        → r.status ≡ probing)
    × (r.resume_gate ≡ open_gate)
    × (r.resume_status ≡ none)
cleanup_round_trip_example =
    cleanup_round_trip plain "t1" tables tables-Consistent first first_found "browser_lost" early
      late refl refl (unfold is_error_code in refl)

lease_valid : validate_interaction_lease plain owner 7 late ≡ ok tt
unfolding validate_interaction_lease
lease_valid = refl

wait_passes_gate_example :
    let out = transition_to_waiting_with_lease plain "t2" 2 owner 7 late early tables in
    (r : TaskRecord) × (stored : TaskRecord) × (out.1 ≡ ok r)
    × (cleanup_required r ≡ false)
    × (get_task plain "t2" out.0 ≡ ok stored)
    × (cleanup_required stored ≡ true)
    × (stored.status ≡ waiting_for_user)
    × ((e : TaskError) × (complete_cleanup_gate plain "t2" 3 late out.0 ≡ (out.0, err e)))
wait_passes_gate_example =
    wait_passes_gate plain "t2" tables tables-Consistent second second_found owner 7 late early 3
      late lease_valid refl refl

asked_valid : validate_interaction_lease plain owner 7 early ≡ ok tt
unfolding validate_interaction_lease
asked_valid = refl

wait_gives_lease_example :
    owns_interaction_lease plain "t1" owner 7 early
      (transition_to_waiting_with_lease plain "t1" 1 owner 7 late early tables).0
    ≡ ok ((owner == owner && 7 =? 7) && text_lt early late)
wait_gives_lease_example =
    wait_gives_lease plain "t1" tables first owner 7 late early owner 7 early tables-Consistent
      first_found (unfold allowed_transitions in refl) lease_valid asked_valid

old_valid : validate_interaction_lease plain owner 7 "2000-01-01T00:00:00+00:00" ≡ ok tt
unfolding validate_interaction_lease
old_valid = refl

release_ends_lease_example :
    owns_interaction_lease plain "t1" owner 7 early
      (release_interaction_lease plain "t1" owner 7 tables).0
    ≡ ok false
release_ends_lease_example =
    release_ends_lease plain "t1" tables owner 7 early old_valid asked_valid

-- The tables behind a wait of the first task.
abbrev waits : List Call
waits = Call.transition_to_waiting_with_lease "t1" 1 owner 7 late early ∷ []

waiting : Db
unfolding tables Repository.transition_to_waiting_with_lease validate_interaction_lease
waiting = run plain limits waits tables

waiting-Consistent : Consistent waiting
unfolding waiting
waiting-Consistent = run-Consistent_from plain limits waits tables tables-Consistent

abbrev held : TaskRow
held = record first { status = waiting_for_user; version = 2 }

held_found : find_task "t1" waiting.tasks ≡ some held
unfolding waiting
held_found = refl

recovers_orphans_example :
    is_ok (recover_lost_interaction plain "t1" 2 "interaction_expired" (some late) late waiting).1
    ≡ any (λ (u : TaskRow). u.task_id == "t1") (orphaned_rows late waiting.leases waiting.tasks)
recovers_orphans_example =
    recovers_orphans plain "t1" waiting waiting-Consistent held held_found "interaction_expired"
      late late refl refl

live_lease_protects_example :
    let db' = (transition_to_waiting_with_lease plain "t1" 1 owner 7 late early tables).0 in
    (e : TaskError) × (recover_lost_interaction plain "t1" 2 "interaction_expired"
        (some early)
        late
        db'
      ≡ (db', err e))
live_lease_protects_example =
    live_lease_protects plain "t1" tables tables-Consistent first first_found owner 7 late early 2
      "interaction_expired" early late (unfold allowed_transitions in refl) lease_valid refl
      (unfold text_lt codes_lt in refl)

abbrev page : Fields
page = Fields.field "page" (Value.number "3") Fields.end

plain_encodes : validate_metadata plain limits (some page) ≡ ok (Value.object Fields.end, "{}")
unfolding validate_metadata reject_sensitive_metadata
plain_encodes = refl

no_checkpoints : UniqueKeys tables.checkpoints
unfolding tables
no_checkpoints = tt

progress_named : is_checkpoint_key "progress" ≡ true
unfolding is_checkpoint_key
progress_named = refl

save_checkpoint_exact_example :
    is_ok (save_checkpoint plain limits "t1" "progress" page (some 4) late tables).1 ≡ false
unfolding is_expected tables find_checkpoint
save_checkpoint_exact_example =
    save_checkpoint_exact plain limits "t1" "progress" page (some 4) late tables no_checkpoints
      first (Value.object Fields.end) "{}" progress_named plain_encodes first_found

abbrev saved : Db
saved = (save_checkpoint plain limits "t1" "progress" page none late tables).0

abbrev progress : CheckpointRecord
progress = record {
  task_id = "t1";
  key = "progress";
  payload = Value.object Fields.end;
  version = 0;
  updated_at = late;
}

saving_returns :
    (save_checkpoint plain limits "t1" "progress" page none late tables).1 ≡ ok progress
unfolding save_checkpoint validate_checkpoint_key validate_metadata reject_sensitive_metadata tables
    find_task store_checkpoint transaction
saving_returns = refl

load-save_example : load_checkpoint plain "t1" "progress" saved ≡ ok progress
load-save_example =
    load-save plain limits "t1" "progress" page none late tables no_checkpoints progress
      saving_returns

saved_once : UniqueKeys saved.checkpoints
unfolding save_checkpoint validate_checkpoint_key validate_metadata reject_sensitive_metadata tables
    find_task store_checkpoint transaction
saved_once = (refl, tt)

deleting_returns : (delete_checkpoint "t1" "progress" 0 saved).1 ≡ ok tt
unfolding save_checkpoint validate_checkpoint_key validate_metadata reject_sensitive_metadata tables
    find_task store_checkpoint transaction delete_checkpoint
deleting_returns = refl

load-delete_example :
    load_checkpoint plain "t1" "progress" (delete_checkpoint "t1" "progress" 0 saved).0
    ≡ err checkpoint_not_found
load-delete_example = load-delete plain "t1" "progress" 0 saved saved_once deleting_returns
