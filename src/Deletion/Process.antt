-- ===== src/Deletion/Process.antt =====
-- `_process_deletion_job`, `_block_deletion_job` and `retry_deletion_job` of storage.py.
use novel_crawler.Prelude.{
  ℕ, String, ◌==◌, Bool, false, not, ◌||◌, List, [], ◌∷◌, Option, none, some, ltb, if◌then◌else◌,
  Result, ok, err, ◌>>=◌,
}
use novel_crawler.Deletion.Manifest.{
  Fault, os_error, other_error, value_error, Json, Manifest, decode_deletion_manifest,
}
use novel_crawler.Deletion.Disk.{
  Place, Root, contents, cache, Disk, join_manifest_path, validate_content_path,
  validate_tree_under, remove_tree_under, unlink_file,
}
use novel_crawler.Deletion.Jobs.{
  pending, blocked, JobRow, is_pending, BookDeletionResult, completed, left, find_job, update_job,
  delete_job, attempted, with_state, always, where_pending,
}

module _ {F : Type 0} where
  -- `for value in values:`, up to the first exception
  unfoldable pub for_each :
      (String → F → F × Result Fault Unit) → List String → F → F × Result Fault Unit
  for_each step [] f = (f, ok tt)
  for_each step (p ∷ ps) f =
      let (f', done) = step p f in elim done [ ok u ↦ for_each step ps f' | err e ↦ (f', err e) ]

  infixl 5 ◌then_files◌
  abbrev pub ◌then_files◌ :
      F × Result Fault Unit → (F → F × Result Fault Unit) → F × Result Fault Unit
  (f, ok u) then_files next = next f
  (f, err e) then_files next = (f, err e)

  module _ (json : Json) (disk : Disk F) where
    abbrev pub look : (String → F → Result Fault Unit) → String → F → F × Result Fault Unit
    look check p f = (f, check p f)

    -- `self._validate_content_path(content_root, self._join_manifest_path(content_root, value))`
    abbrev pub find_file : String → F → Result Fault Place
    find_file value f = do
      path ← join_manifest_path disk contents value
      validate_content_path disk path f

    abbrev pub check_file : String → F → Result Fault Unit
    check_file value f = do _ ← find_file value f; ok tt

    abbrev pub check_tree : Root → String → F → Result Fault Unit
    check_tree r value f = do
      tree ← join_manifest_path disk r value
      validate_tree_under disk r tree f

    abbrev pub unlink_found : F → Result Fault Place → F × Result Fault Unit
    unlink_found f (err e) = (f, err e)
    unlink_found f (ok path) = unlink_file disk path f

    abbrev pub check_and_unlink : String → F → F × Result Fault Unit
    check_and_unlink value f = unlink_found f (find_file value f)

    abbrev pub remove_joined : Root → F → Result Fault Place → F × Result Fault Unit
    remove_joined r f (err e) = (f, err e)
    remove_joined r f (ok tree) = remove_tree_under disk r tree f

    abbrev pub remove_tree : Root → String → F → F × Result Fault Unit
    remove_tree r value f = remove_joined r f (join_manifest_path disk r value)

    -- The checks, and then the removals. `_join_manifest_path` depends on the text alone, and refuses
    -- none that was decoded: it stands here where its result is used.
    unfoldable pub clean_up : Manifest → F → F × Result Fault Unit
    unfolding for_each
    clean_up m f =
        for_each (look check_file) m.content_files f
        then_files for_each (look (check_tree contents)) m.content_trees
        then_files for_each (look (check_tree cache)) m.cache_trees
        then_files for_each check_and_unlink m.content_files
        then_files for_each (remove_tree contents) m.content_trees
        then_files for_each (remove_tree cache) m.cache_trees

    abbrev pub clean_decoded : F → Result Fault Manifest → F × Result Fault Unit
    clean_decoded f (err e) = (f, err e)
    clean_decoded f (ok m) = clean_up m f

    -- `_block_deletion_job`
    unfoldable pub block_deletion_job : ℕ → String → List JobRow → List JobRow × BookDeletionResult
    unfolding update_job
    block_deletion_job job_id error_code jobs = (
      update_job job_id always (with_state blocked (some error_code)) jobs,
      record { job_id = some job_id; state = left blocked; error_code = some error_code },
    )

    -- The ends of the `try` of `_process_deletion_job`.
    unfoldable pub settle_job :
        ℕ → List JobRow → Result Fault Unit → List JobRow × BookDeletionResult
    unfolding block_deletion_job update_job delete_job
    settle_job job_id jobs (ok u) = (
      delete_job job_id jobs,
      record { job_id = some job_id; state = completed; error_code = none },
    )
    settle_job job_id jobs (err os_error) = (
      update_job job_id always (with_state pending (some "deletion_cleanup_retryable")) jobs,
      record {
        job_id = some job_id;
        state = left pending;
        error_code = some "deletion_cleanup_retryable";
      },
    )
    settle_job job_id jobs (err (value_error text)) =
        block_deletion_job job_id "deletion_safety_blocked" jobs
    settle_job job_id jobs (err other_error) =
        block_deletion_job job_id "deletion_cleanup_failed" jobs

    -- `SELECT manifest_json ... WHERE id=? AND state='pending'`
    abbrev pub if_pending : Option JobRow → Option JobRow
    if_pending none = none
    if_pending (some j) = if is_pending j.state then some j else none

    unfoldable pub process_row :
        ℕ → List JobRow → F → Option JobRow → List JobRow × F × BookDeletionResult
    unfolding clean_up settle_job decode_deletion_manifest
    process_row job_id jobs f none =
        (jobs, f, record { job_id = some job_id; state = completed; error_code = none })
    process_row job_id jobs f (some row) =
        let (f', cleaned) = clean_decoded f (decode_deletion_manifest json row.manifest_json) in
        let (jobs', result) = settle_job job_id jobs cleaned in (jobs', f', result)

    -- `_process_deletion_job`
    unfoldable pub process_deletion_job : ℕ → List JobRow → F → List JobRow × F × BookDeletionResult
    unfolding process_row find_job update_job
    process_deletion_job job_id jobs f =
        let jobs' = update_job job_id where_pending attempted jobs in
        process_row job_id jobs' f (if_pending (find_job job_id jobs'))

    abbrev pub text_is : Option String → String → Bool
    text_is none t = false
    text_is (some s) t = s == t

    -- `str(row["error_code"]) if row["error_code"] else None`
    abbrev pub or_none : Option String → Option String
    or_none none = none
    or_none (some s) = if s == "" then none else some s

    unfoldable pub retry_row :
        ℕ → Bool → List JobRow → F → Option JobRow → List JobRow × F × BookDeletionResult
    unfolding process_deletion_job update_job
    retry_row job_id force jobs f none =
        (jobs, f, record { job_id = some job_id; state = completed; error_code = none })
    retry_row job_id force jobs f (some row) =
        if is_pending row.state
        then process_deletion_job job_id jobs f
        else if not force || text_is (or_none row.error_code) "deletion_manifest_migration_blocked"
        then (
          jobs,
          f,
          record {
            job_id = some job_id;
            state = left blocked;
            error_code = or_none row.error_code;
          },
        )
        else process_deletion_job job_id (update_job job_id always (with_state pending none) jobs) f

    -- `retry_deletion_job`
    unfoldable pub retry_deletion_job :
        ℕ → Bool → List JobRow → F → List JobRow × F × Result Fault BookDeletionResult
    unfolding retry_row find_job
    retry_deletion_job job_id force jobs f =
        let (jobs', f', result) = retry_row job_id force jobs f (find_job job_id jobs) in
        if ltb 0 job_id
        then (jobs', f', ok result)
        else (jobs, f, err (value_error "deletion_job_id_invalid"))
