-- ===== src/Deletion/Jobs.antt =====
-- The table `deletion_jobs` of storage.py, and its statements.
use novel_crawler.Prelude.{
  ℕ, suc, String, Bool, true, false, ◌&&◌, List, [], ◌∷◌, Option, none, some, ◌=?◌, if◌then◌else◌,
}

-- `CHECK(state IN ('pending', 'blocked'))`
pub data JobState : Type 0 where
  pending blocked : JobState

pub record JobRow : Type 0 where
  pub id : ℕ
  pub manifest_json : String
  pub state : JobState
  pub attempt_count : ℕ
  pub error_code : Option String

abbrev pub is_pending : JobState → Bool
is_pending pending = true
is_pending blocked = false

-- `BookDeletionResult`: its state is 'completed', or that of the job.
pub data DeletionState : Type 0 where
  completed : DeletionState
  left : JobState → DeletionState

pub record BookDeletionResult : Type 0 where
  pub job_id : Option ℕ
  pub state : DeletionState
  pub error_code : Option String

-- `SELECT ... WHERE id=?`
unfoldable pub find_job : ℕ → List JobRow → Option JobRow
find_job id [] = none
find_job id (j ∷ js) = if j.id =? id then some j else find_job id js

-- `UPDATE deletion_jobs SET ... WHERE id=? AND ...`
unfoldable pub update_job : ℕ → (JobRow → Bool) → (JobRow → JobRow) → List JobRow → List JobRow
update_job id where_ f [] = []
update_job id where_ f (j ∷ js) =
    let rest = update_job id where_ f js in if j.id =? id && where_ j then f j ∷ rest else j ∷ rest

-- `DELETE FROM deletion_jobs WHERE id=? AND state='pending'`
unfoldable pub delete_job : ℕ → List JobRow → List JobRow
delete_job id [] = []
delete_job id (j ∷ js) =
    let rest = delete_job id js in if j.id =? id && is_pending j.state then rest else j ∷ rest

abbrev pub attempted : JobRow → JobRow
attempted j = record j { attempt_count = suc j.attempt_count }

abbrev pub with_state : JobState → Option String → JobRow → JobRow
with_state state error_code j = record j { state = state; error_code = error_code }

abbrev pub always : JobRow → Bool
always j = true

abbrev pub where_pending : JobRow → Bool
where_pending j = is_pending j.state
