-- ===== src/Task/Compare.antt =====
-- The checkpoints: a save compares the version that it expects and sets the next one.
use novel_crawler.Prelude.{
  ℕ, String, Bool, true, false, List, [], ◌∷◌, Option, none, some, ◌≡◌, refl, sym, ap, ◌∙◌, arith,
  ok, err, is_ok, ◌=?◌, eq_iff, Result-cases, Option-cases, Bool-cases, inl, inr, err≢ok,
}
use novel_crawler.Task.Values.{Value, Fields}
use novel_crawler.Task.Python.{Python}
use novel_crawler.Task.Checks.{
  Limits, validate_checkpoint_key, is_checkpoint_key, validate_metadata,
}
use novel_crawler.Task.Records.{CheckpointRecord, checkpoint_not_found}
use novel_crawler.Task.Db.{CheckpointRow, Db, TaskRow, find_task, transaction, checkpoint_from_row}
use novel_crawler.Task.Repository.{
  is_at, find_checkpoint, set_checkpoint, count_checkpoint, remove_checkpoint, store_checkpoint,
  next_checkpoint_version, save_checkpoint, load_checkpoint, delete_checkpoint,
}

-- `PRIMARY KEY(task_id, checkpoint_key)`
abbrev pub UniqueKeys : List CheckpointRow → Type 0
UniqueKeys [] = Unit
UniqueKeys (c ∷ cs) = (find_checkpoint c.task_id c.checkpoint_key cs ≡ none) × UniqueKeys cs

-- Whether the stored row is the one that a save expects.
unfoldable pub is_expected : Option ℕ → Option CheckpointRow → Bool
is_expected none none = true
is_expected none (some c) = false
is_expected (some v) none = false
is_expected (some v) (some c) = c.version =? v

module _ (id key : String) where
  count_absent :
      (v : ℕ) (cs : List CheckpointRow)
      → find_checkpoint id key cs ≡ none
      → count_checkpoint id key v cs ≡ 0
  unfolding find_checkpoint count_checkpoint
  count_absent v [] h = refl
  count_absent v (c ∷ cs) h = ground (arith, count_absent v cs)

  count_found :
      (v : ℕ) (cs : List CheckpointRow)
      → UniqueKeys cs
      → (count_checkpoint id key v cs =? 1) ≡ is_expected (some v) (find_checkpoint id key cs)
  unfolding find_checkpoint count_checkpoint is_expected
  count_found v [] q = refl
  count_found v (c ∷ cs) q = ground (
    arith,
    eq_iff c.task_id id,
    eq_iff c.checkpoint_key key,
    count_absent v cs,
    count_found v cs q.1,
  )

  find-set_self :
      (v : ℕ) (row c : CheckpointRow) (cs : List CheckpointRow)
      → is_at id key row ≡ true
      → find_checkpoint id key cs ≡ some c
      → (c.version =? v) ≡ true
      → find_checkpoint id key (set_checkpoint id key v row cs) ≡ some row
  unfolding find_checkpoint set_checkpoint
  find-set_self v row c [] here h e = ground arith
  find-set_self v row c (d ∷ cs) here h e = ground (arith, find-set_self v row c cs here)

  remove_absent :
      (v : ℕ) (cs : List CheckpointRow)
      → find_checkpoint id key cs ≡ none
      → find_checkpoint id key (remove_checkpoint id key v cs) ≡ none
  unfolding find_checkpoint remove_checkpoint
  remove_absent v [] h = refl
  remove_absent v (c ∷ cs) h = ground (arith, remove_absent v cs)

  find-remove :
      (v : ℕ) (cs : List CheckpointRow)
      → UniqueKeys cs
      → is_expected (some v) (find_checkpoint id key cs) ≡ true
      → find_checkpoint id key (remove_checkpoint id key v cs) ≡ none
  unfolding find_checkpoint remove_checkpoint is_expected
  find-remove v [] q h = cc
  find-remove v (c ∷ cs) q h = ground (
    arith,
    eq_iff c.task_id id,
    eq_iff c.checkpoint_key key,
    remove_absent v cs,
    find-remove v cs q.1,
  )

validate_metadata-loads :
    (py : Python) (limits : Limits) (payload : Option Fields) (value : Value) (json : String)
    → validate_metadata py limits payload ≡ ok (value, json)
    → value ≡ py.loads json
unfolding validate_metadata
validate_metadata-loads py limits payload value json h = ground arith

module _ (id key : String) (db : Db) (q : UniqueKeys db.checkpoints) where
  -- The store of a row succeeds exactly if the row that is there is the expected one, and then the
  -- row is found under its key.
  store_exact :
      (expected : Option ℕ) (row : CheckpointRow)
      → row.task_id ≡ id
      → row.checkpoint_key ≡ key
      → is_ok (store_checkpoint expected row db)
        ≡ is_expected expected (find_checkpoint id key db.checkpoints)
  unfolding store_checkpoint is_expected
  store_exact none row i k = ground arith
  store_exact (some v) row i k = ground (arith, count_found id key v db.checkpoints q)

  stored_rows :
      (v : ℕ) (row : CheckpointRow) (stored : Db)
      → row.task_id ≡ id
      → row.checkpoint_key ≡ key
      → store_checkpoint (some v) row db ≡ ok stored
      → stored.checkpoints ≡ set_checkpoint id key v row db.checkpoints
  unfolding store_checkpoint
  stored_rows v row stored i k h = ground arith

  store_found :
      (expected : Option ℕ) (row : CheckpointRow) (stored : Db)
      → row.task_id ≡ id
      → row.checkpoint_key ≡ key
      → store_checkpoint expected row db ≡ ok stored
      → find_checkpoint id key stored.checkpoints ≡ some row
  store_found none row stored i k h =
      unfold store_checkpoint find_checkpoint is_at in
      ground (arith, eq_iff row.task_id id, eq_iff row.checkpoint_key key)
  store_found (some v) row stored i k h =
      let met = sym (store_exact (some v) row i k) ∙ ap is_ok h in
      elim (Option-cases (find_checkpoint id key db.checkpoints)) [
        | inl missing ↦ absurd (unmet (rw missing at met))
        | inr (c, found) ↦
            let at_version : (c.version =? v) ≡ true = unfold is_expected in rw found at met in
            rw (stored_rows v row stored i k h) (
              find-set_self id key v row c db.checkpoints
                (unfold is_at in
                  ground (arith, eq_iff row.task_id id, eq_iff row.checkpoint_key key))
                found at_version)
      ]
    where
      unmet : is_expected (some v) none ≡ true → ⊥
      unmet e = unfold is_expected in cc

module _ (py : Python) (limits : Limits) (id key : String) (payload : Fields) (expected : Option ℕ)
    (now : String) (db : Db) (q : UniqueKeys db.checkpoints) where
  -- On valid arguments and an existing task, `save_checkpoint` returns exactly if the stored version is
  -- the expected one: none where the checkpoint must be new.
  pub save_checkpoint_exact :
      (t : TaskRow) (value : Value) (json : String)
      → is_checkpoint_key key ≡ true
      → validate_metadata py limits (some payload) ≡ ok (value, json)
      → find_task id db.tasks ≡ some t
      → is_ok (save_checkpoint py limits id key payload expected now db).1
        ≡ is_expected expected (find_checkpoint id key db.checkpoints)
  unfolding save_checkpoint validate_checkpoint_key transaction
  save_checkpoint_exact t value json named encoded found =
      let row : CheckpointRow = record {
        task_id = id;
        checkpoint_key = key;
        payload_json = json;
        version = next_checkpoint_version expected;
        updated_at = now;
      } in
      rw (named, encoded, found, ← store_exact id key db q expected row refl refl)
        (elim (Result-cases (store_checkpoint expected row db)) [
          | inl (stored, done) ↦ rw done
          | inr (e, conflict) ↦ rw conflict
        ])

  -- What `save_checkpoint` returned is what `load_checkpoint` then reads.
  pub load-save :
      (r : CheckpointRecord)
      → (save_checkpoint py limits id key payload expected now db).1 ≡ ok r
      → load_checkpoint py id key (save_checkpoint py limits id key payload expected now db).0
        ≡ ok r
  unfolding save_checkpoint load_checkpoint transaction validate_checkpoint_key checkpoint_from_row
  load-save r h = elim (Bool-cases (is_checkpoint_key key)) [
    | inr invalid ↦ absurd (err≢ok (rw invalid at h))
    | inl named ↦ elim (Result-cases (validate_metadata py limits (some payload))) [
      | inr (e, invalid) ↦ absurd (err≢ok (rw (named, invalid) at h))
      | inl ((value, json), encoded) ↦ elim (Option-cases (find_task id db.tasks)) [
        | inl missing ↦ absurd (err≢ok (rw (named, encoded, missing) at h))
        | inr (t, found) ↦
            let row : CheckpointRow = record {
              task_id = id;
              checkpoint_key = key;
              payload_json = json;
              version = next_checkpoint_version expected;
              updated_at = now;
            } in
            elim (Result-cases (store_checkpoint expected row db)) [
              | inr (e, conflict) ↦ absurd (err≢ok (rw (named, encoded, found, conflict) at h))
              | inl (stored, done) ↦
                  rw
                    (
                      named,
                      encoded,
                      found,
                      done,
                      store_found id key db q expected row stored refl refl done,
                      ← validate_metadata-loads py limits (some payload) value json encoded,
                    )
                    (rw (named, encoded, found, done) at h)
            ]
      ]
    ]
  ]

-- Behind a `delete_checkpoint` that returned, the checkpoint is there no longer.
pub load-delete :
    (py : Python) (id key : String) (v : ℕ) (db : Db)
    → UniqueKeys db.checkpoints
    → (delete_checkpoint id key v db).1 ≡ ok tt
    → load_checkpoint py id key (delete_checkpoint id key v db).0 ≡ err checkpoint_not_found
unfolding delete_checkpoint load_checkpoint transaction validate_checkpoint_key
load-delete py id key v db q h = elim (Bool-cases (is_checkpoint_key key)) [
  | inr invalid ↦ absurd (err≢ok (rw invalid at h))
  | inl named ↦ elim (Bool-cases (count_checkpoint id key v db.checkpoints =? 1)) [
    | inr other ↦ absurd (err≢ok (rw (named, other) at h))
    | inl one ↦ rw (
      named,
      one,
      find-remove id key v db.checkpoints q (sym (count_found id key v db.checkpoints q) ∙ one),
    )
  ]
]
