-- ===== src/Task/Repository/Checkpoints.antt =====
-- The checkpoints of `TaskRepository`: payloads under a task and a key, written by compare-and-set.
use novel_crawler.Prelude.{
  ℕ, suc, String, ◌==◌, Bool, not, ◌&&◌, List, [], ◌∷◌, Option, none, some, map, ◌=?◌,
  if◌then◌else◌, is_some, text_le, Result, ok, err, ◌>>=◌, ◌>>◌, raise_if, or_raise,
}
use novel_crawler.Task.Values.{Fields}
use novel_crawler.Task.Records.{
  CheckpointRecord, TaskError, task_not_found, checkpoint_not_found, checkpoint_version_conflict,
}
use novel_crawler.Task.Python.{Python}
use novel_crawler.Task.Checks.{Limits, validate_checkpoint_key, validate_metadata}
use novel_crawler.Task.Db.{CheckpointRow, Db, Outcome, find_task, checkpoint_from_row, transaction}

-- `WHERE task_id=? AND checkpoint_key=?`
unfoldable pub is_at : String → String → CheckpointRow → Bool
is_at task_id key c = c.task_id == task_id && c.checkpoint_key == key

unfoldable pub find_checkpoint : String → String → List CheckpointRow → Option CheckpointRow
unfolding is_at
find_checkpoint task_id key [] = none
find_checkpoint task_id key (c ∷ cs) =
    if is_at task_id key c then some c else find_checkpoint task_id key cs

-- `UPDATE checkpoints SET payload_json=?, version=?, updated_at=? WHERE ... AND version=?`
unfoldable pub set_checkpoint :
    String → String → ℕ → CheckpointRow → List CheckpointRow → List CheckpointRow
unfolding is_at
set_checkpoint task_id key version row [] = []
set_checkpoint task_id key version row (c ∷ cs) =
    let rest = set_checkpoint task_id key version row cs in
    if is_at task_id key c && c.version =? version then row ∷ rest else c ∷ rest

-- `DELETE FROM checkpoints WHERE ... AND version=?`
unfoldable pub remove_checkpoint : String → String → ℕ → List CheckpointRow → List CheckpointRow
unfolding is_at
remove_checkpoint task_id key version [] = []
remove_checkpoint task_id key version (c ∷ cs) =
    let rest = remove_checkpoint task_id key version cs in
    if is_at task_id key c && c.version =? version then rest else c ∷ rest

-- The `rowcount` of either statement.
unfoldable pub count_checkpoint : String → String → ℕ → List CheckpointRow → ℕ
unfolding is_at
count_checkpoint task_id key version [] = 0
count_checkpoint task_id key version (c ∷ cs) =
    let rest = count_checkpoint task_id key version cs in
    if is_at task_id key c && c.version =? version then suc rest else rest

-- `ORDER BY checkpoint_key`
unfoldable pub insert_by_key : CheckpointRow → List CheckpointRow → List CheckpointRow
insert_by_key c [] = c ∷ []
insert_by_key c (d ∷ ds) =
    if text_le c.checkpoint_key d.checkpoint_key then c ∷ d ∷ ds else d ∷ insert_by_key c ds

unfoldable pub checkpoints_of : String → List CheckpointRow → List CheckpointRow
unfolding insert_by_key
checkpoints_of task_id [] = []
checkpoints_of task_id (c ∷ cs) =
    let rest = checkpoints_of task_id cs in
    if c.task_id == task_id then insert_by_key c rest else rest

-- The INSERT of a first version, or the UPDATE of the expected one.
unfoldable pub store_checkpoint : Option ℕ → CheckpointRow → Db → Result TaskError Db
unfolding find_checkpoint set_checkpoint count_checkpoint
store_checkpoint none row db =
    if is_some (find_checkpoint row.task_id row.checkpoint_key db.checkpoints)
    then err checkpoint_version_conflict
    else ok (record db { checkpoints = row ∷ db.checkpoints })
store_checkpoint (some expected) row db =
    if count_checkpoint row.task_id row.checkpoint_key expected db.checkpoints =? 1
    then ok (record db {
      checkpoints = set_checkpoint row.task_id row.checkpoint_key expected row db.checkpoints;
    })
    else err checkpoint_version_conflict

unfoldable pub next_checkpoint_version : Option ℕ → ℕ
next_checkpoint_version none = 0
next_checkpoint_version (some expected) = suc expected

module _ (py : Python) (limits : Limits) where
  unfoldable pub save_checkpoint :
      String → String → Fields → Option ℕ → String → Db → Outcome CheckpointRecord
  unfolding store_checkpoint next_checkpoint_version
  save_checkpoint task_id key payload expected_version now db = transaction db (do
    checked ← validate_checkpoint_key key
    encoded ← validate_metadata py limits (some payload)
    row ← or_raise (find_task task_id db.tasks) task_not_found
    stored ←
        store_checkpoint expected_version
          (record {
            task_id = task_id;
            checkpoint_key = checked;
            payload_json = encoded.1;
            version = next_checkpoint_version expected_version;
            updated_at = now;
          })
          db
    ok (
      stored,
      record {
        task_id = task_id;
        key = checked;
        version = next_checkpoint_version expected_version;
        updated_at = now;
        payload = encoded.0;
      },
    ))

module _ (py : Python) where
  unfoldable pub load_checkpoint : String → String → Db → Result TaskError CheckpointRecord
  unfolding find_checkpoint
  load_checkpoint task_id key db = do
    checked ← validate_checkpoint_key key
    row ← or_raise (find_checkpoint task_id checked db.checkpoints) checkpoint_not_found
    ok (checkpoint_from_row py row)

  unfoldable pub list_checkpoints : String → Db → Result TaskError (List CheckpointRecord)
  unfolding checkpoints_of
  list_checkpoints task_id db = do
    row ← or_raise (find_task task_id db.tasks) task_not_found
    ok (map (checkpoint_from_row py) (checkpoints_of task_id db.checkpoints))

unfoldable pub delete_checkpoint : String → String → ℕ → Db → Outcome Unit
unfolding find_checkpoint remove_checkpoint count_checkpoint
delete_checkpoint task_id key expected_version db = transaction db (do
  checked ← validate_checkpoint_key key
  raise_if (not (count_checkpoint task_id checked expected_version db.checkpoints =? 1)) (
      if is_some (find_checkpoint task_id checked db.checkpoints)
      then checkpoint_version_conflict
      else checkpoint_not_found)
  ok (
    record db { checkpoints = remove_checkpoint task_id checked expected_version db.checkpoints },
    tt,
  ))
