-- ===== src/Task/Refinement.antt =====
-- Every writing method of the repository refines the specification `Effect`.
use novel_crawler.Prelude.{
  ℕ, String, ◌≡◌, refl, ap, ◌∙◌, inl, inr, Option, none, some, ok, Result-cases, Option-cases,
  Bool-cases, ◌=?◌, arith,
}
use novel_crawler.Task.Status.{waiting_for_user, same_status}
use novel_crawler.Task.Values.{Fields}
use novel_crawler.Task.Python.{Python}
use novel_crawler.Task.Checks.{
  Limits, validate_source_url, validate_metadata, validate_interaction_lease,
  validate_checkpoint_key,
}
use novel_crawler.Task.Db.{Db, CheckpointRow, find_task, transaction, insert_event}
use novel_crawler.Task.Repository
use novel_crawler.Task.Repository.{
  created_row, created_event, insert_task, apply_renew, store_checkpoint, count_checkpoint,
  next_checkpoint_version,
}
use novel_crawler.Task.History.{Consistent, replay, blank, trace_of}
use novel_crawler.Task.Tables.{has_event_blank}
use novel_crawler.Task.Effects.{
  Effect, unchanged, born, transition-Effect, require_cleanup-Effect, complete_cleanup_gate-Effect,
  recover_lost_interaction-Effect, transition_to_waiting-Effect,
}
use novel_crawler.Task.Calls.{Call, perform}

module _ (py : Python) (limits : Limits) (db : Db) (good : Consistent db) where
  unseen : (id : String) → find_task id db.tasks ≡ none → replay id db.events ≡ blank
  unseen id missing = good.traced id ∙ ap trace_of missing

  create_task-Effect :
      (id now url : String) (metadata : Option Fields)
      → Effect db (Repository.create_task py limits id now url metadata db).0
  create_task-Effect id now url metadata = elim (Result-cases (validate_source_url py url)) [
    | inr (e, invalid) ↦
        unfold Repository.create_task transaction in rw invalid (unchanged refl refl)
    | inl (u, valid) ↦ elim (Result-cases (validate_metadata py limits metadata)) [
      | inr (e, invalid) ↦
          unfold Repository.create_task transaction in rw (valid, invalid) (unchanged refl refl)
      | inl ((value, json), encoded) ↦ elim (Option-cases (find_task id db.tasks)) [
        | inr (t, found) ↦
            unfold Repository.create_task insert_task transaction in
            rw (valid, encoded, found) (unchanged refl refl)
        | inl missing ↦
            unfold Repository.create_task insert_task insert_event transaction in
            rw (valid, encoded, missing, has_event_blank id 0 db.events (unseen id missing))
              (born id u json now missing refl refl)
      ]
    ]
  ]

  apply_renew-Effect :
      (id : String) (v : ℕ) (owner : String) (epoch : ℕ) (expires : String)
      → Effect db (transaction db (apply_renew py id v owner epoch expires db)).0
  apply_renew-Effect id v owner epoch expires = elim (Option-cases (find_task id db.tasks)) [
    | inl missing ↦ unfold apply_renew transaction in rw missing (unchanged refl refl)
    | inr (t, found) ↦ elim (Bool-cases (t.version =? v)) [
      | inr stale ↦ unfold apply_renew transaction in rw (found, stale) (unchanged refl refl)
      | inl current ↦ elim (Bool-cases (same_status t.status waiting_for_user)) [
        | inr idle ↦
            unfold apply_renew transaction in rw (found, current, idle) (unchanged refl refl)
        | inl waits ↦
            unfold apply_renew transaction in rw (found, current, waits) (unchanged refl refl)
      ]
    ]
  ]

  renew_interaction_lease-Effect :
      (id : String) (v : ℕ) (owner : String) (epoch : ℕ) (expires : String)
      → Effect db (Repository.renew_interaction_lease py id v owner epoch expires db).0
  renew_interaction_lease-Effect id v owner epoch expires =
      elim (Result-cases (validate_interaction_lease py owner epoch expires)) [
        | inr (e, invalid) ↦
            unfold Repository.renew_interaction_lease transaction in
            rw invalid (unchanged refl refl)
        | inl (_, valid) ↦
            unfold Repository.renew_interaction_lease in
            rw valid (apply_renew-Effect id v owner epoch expires)
      ]

  release_interaction_lease-Effect :
      (id owner : String) (epoch : ℕ)
      → Effect db (Repository.release_interaction_lease py id owner epoch db).0
  release_interaction_lease-Effect id owner epoch =
      elim (Result-cases (validate_interaction_lease py owner epoch "2000-01-01T00:00:00+00:00")) [
        | inr (e, invalid) ↦
            unfold Repository.release_interaction_lease transaction in
            rw invalid (unchanged refl refl)
        | inl (_, valid) ↦
            unfold Repository.release_interaction_lease transaction in
            rw valid (unchanged refl refl)
      ]

  store_checkpoint-tables :
      (expected : Option ℕ) (row : CheckpointRow) (stored : Db)
      → store_checkpoint expected row db ≡ ok stored
      → (stored.tasks ≡ db.tasks) × (stored.events ≡ db.events)
  unfolding store_checkpoint
  store_checkpoint-tables none row stored h = ground arith
  store_checkpoint-tables (some n) row stored h = ground arith

  save_checkpoint-Effect :
      (id key : String) (payload : Fields) (expected : Option ℕ) (now : String)
      → Effect db (Repository.save_checkpoint py limits id key payload expected now db).0
  save_checkpoint-Effect id key payload expected now =
      elim (Result-cases (validate_checkpoint_key key)) [
        | inr (e, invalid) ↦
            unfold Repository.save_checkpoint transaction in rw invalid (unchanged refl refl)
        | inl (k, valid) ↦ elim (Result-cases (validate_metadata py limits (some payload))) [
          | inr (e, invalid) ↦
              unfold Repository.save_checkpoint transaction in
              rw (valid, invalid) (unchanged refl refl)
          | inl ((value, json), encoded) ↦ elim (Option-cases (find_task id db.tasks)) [
            | inl missing ↦
                unfold Repository.save_checkpoint transaction in
                rw (valid, encoded, missing) (unchanged refl refl)
            | inr (t, found) ↦
                let row : CheckpointRow = record {
                  task_id = id;
                  checkpoint_key = k;
                  payload_json = json;
                  version = next_checkpoint_version expected;
                  updated_at = now;
                } in
                elim (Result-cases (store_checkpoint expected row db)) [
                  | inr (e, conflict) ↦
                      unfold Repository.save_checkpoint transaction in
                      rw (valid, encoded, found, conflict) (unchanged refl refl)
                  | inl (stored, done) ↦
                      let same = store_checkpoint-tables expected row stored done in
                      unfold Repository.save_checkpoint transaction in
                      rw (valid, encoded, found, done) (unchanged same.0 same.1)
                ]
          ]
        ]
      ]

  delete_checkpoint-Effect :
      (id key : String) (v : ℕ) → Effect db (Repository.delete_checkpoint id key v db).0
  delete_checkpoint-Effect id key v = elim (Result-cases (validate_checkpoint_key key)) [
    | inr (e, invalid) ↦
        unfold Repository.delete_checkpoint transaction in rw invalid (unchanged refl refl)
    | inl (k, valid) ↦ elim (Bool-cases (count_checkpoint id k v db.checkpoints =? 1)) [
      | inr other ↦
          unfold Repository.delete_checkpoint transaction in rw (valid, other) (unchanged refl refl)
      | inl one ↦
          unfold Repository.delete_checkpoint transaction in rw (valid, one) (unchanged refl refl)
    ]
  ]

  -- From consistent tables every call does nothing to the tables of tasks and events, creates one
  -- task with its first event, or makes one step of one task with its event.
  pub perform-Effect : (c : Call) → Effect db (perform py limits c db)
  unfolding perform
  perform-Effect (Call.create_task id now url metadata) = create_task-Effect id now url metadata
  perform-Effect (Call.transition id to v options now) =
      transition-Effect py limits db good id to v options now
  perform-Effect (Call.require_cleanup id v code now) =
      require_cleanup-Effect py limits db good id v code now
  perform-Effect (Call.complete_cleanup_gate id v now) =
      complete_cleanup_gate-Effect py limits db good id v now
  perform-Effect (Call.recover_lost_interaction id v code clock now) =
      recover_lost_interaction-Effect py limits db good id v code clock now
  perform-Effect (Call.transition_to_waiting_with_lease id v owner epoch expires now) =
      transition_to_waiting-Effect py limits db good id v owner epoch expires now
  perform-Effect (Call.renew_interaction_lease id v owner epoch expires) =
      renew_interaction_lease-Effect id v owner epoch expires
  perform-Effect (Call.release_interaction_lease id owner epoch) =
      release_interaction_lease-Effect id owner epoch
  perform-Effect (Call.save_checkpoint id key payload expected now) =
      save_checkpoint-Effect id key payload expected now
  perform-Effect (Call.delete_checkpoint id key v) = delete_checkpoint-Effect id key v
