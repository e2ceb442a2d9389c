-- ===== src/Deletion/Reports.antt =====
-- What a deletion job reports, against its row and against the files.
use novel_crawler.Prelude.{
  ℕ, Bool, true, false, not, ◌||◌, List, Option, none, some, ltb, ◌≡◌, refl, Bool-cases, inl, inr,
  Result, ok, err, err≢ok, ok_inj,
}
use novel_crawler.Deletion.Manifest.{
  Fault, os_error, other_error, value_error, Json, decode_deletion_manifest,
}
use novel_crawler.Deletion.Disk.{Disk}
use novel_crawler.Deletion.Jobs.{
  JobState, pending, blocked, JobRow, is_pending, BookDeletionResult, completed, left, find_job,
  update_job, attempted, with_state, always, where_pending,
}
use novel_crawler.Deletion.Process.{
  clean_decoded, block_deletion_job, settle_job, process_row, process_deletion_job, text_is,
  or_none, retry_row, retry_deletion_job,
}
use novel_crawler.Deletion.Table.{Unique, find-update, Unique-update, find-delete}

not_pending : (s : JobState) → is_pending s ≡ false → s ≡ blocked
not_pending pending h = cc
not_pending blocked h = refl

module _ {F : Type 0} (json : Json) (disk : Disk F) (id : ℕ) where
  -- A result that tells the truth about the job.
  pub data Reports (jobs : List JobRow) : BookDeletionResult → Type 0 where
    gone :
        find_job id jobs ≡ none
        → Reports jobs (record { job_id = some id; state = completed; error_code = none })
    kept :
        (row : JobRow)
        → find_job id jobs ≡ some row
        → Reports jobs (record {
          job_id = some id;
          state = left row.state;
          error_code = or_none json disk row.error_code;
        })

  settle-Reports :
      (jobs : List JobRow) (row : JobRow) (r : Result Fault Unit)
      → Unique jobs
      → find_job id jobs ≡ some row
      → is_pending row.state ≡ true
      → Reports (settle_job json disk id jobs r).0 (settle_job json disk id jobs r).1
  unfolding settle_job block_deletion_job
  settle-Reports jobs row (ok u) q found open_ = gone (find-delete id jobs row q found open_)
  settle-Reports jobs row (err os_error) q found open_ = kept _ (
      find-update id always (with_state pending (some "deletion_cleanup_retryable")) (λ j. refl)
        jobs row found refl)
  settle-Reports jobs row (err (value_error text)) q found open_ = kept _ (
      find-update id always (with_state blocked (some "deletion_safety_blocked")) (λ j. refl) jobs
        row found refl)
  settle-Reports jobs row (err other_error) q found open_ = kept _ (
      find-update id always (with_state blocked (some "deletion_cleanup_failed")) (λ j. refl) jobs
        row found refl)

  abbrev pub Told : List JobRow × F × BookDeletionResult → Type 0
  Told out = Reports out.0 out.2

  pub process-Told :
      (jobs : List JobRow) (f : F) (row : JobRow)
      → Unique jobs
      → find_job id jobs ≡ some row
      → is_pending row.state ≡ true
      → Told (process_deletion_job json disk id jobs f)
  unfolding process_deletion_job process_row
  process-Told jobs f row q found open_ =
      let jobs' = update_job id where_pending attempted jobs in
      let there : find_job id jobs' ≡ some (attempted row) =
        find-update id where_pending attempted (λ j. refl) jobs row found open_ in
      let q' = Unique-update id where_pending attempted (λ j. refl) jobs q in
      rw there (
        rw open_ (
          settle-Reports jobs' (attempted row)
            (clean_decoded json disk f (decode_deletion_manifest json row.manifest_json)).1 q' there
            open_))

  retry_row-Told :
      (force : Bool) (jobs : List JobRow) (f : F) (o : Option JobRow)
      → Unique jobs
      → find_job id jobs ≡ o
      → Told (retry_row json disk id force jobs f o)
  unfolding retry_row
  retry_row-Told force jobs f none q found = gone found
  retry_row-Told force jobs f (some row) q found = elim (Bool-cases (is_pending row.state)) [
    | inl open_ ↦ rw open_ (process-Told jobs f row q found open_)
    | inr closed ↦
        elim (Bool-cases (
          not force
          || text_is json disk (or_none json disk row.error_code)
              "deletion_manifest_migration_blocked")) [
                | inl stays ↦
                    let told : Reports jobs (record {
                      job_id = some id;
                      state = left row.state;
                      error_code = or_none json disk row.error_code;
                    }) =
                      kept row found in
                    rw (closed, stays) (rw (not_pending row.state closed) at told)
                | inr forced ↦
                    let opened = update_job id always (with_state pending none) jobs in
                    rw (closed, forced)
                      (process-Told opened f (with_state pending none row)
                        (Unique-update id always (with_state pending none) (λ j. refl) jobs q)
                        (find-update id always (with_state pending none) (λ j. refl) jobs row found
                          refl)
                        refl)
              ]
  ]

  -- `retry_deletion_job` tells the truth about the job, on every branch: 'completed' where there is no
  -- row behind the call, and else the state and the error code of the row.
  pub retry-Reports :
      (force : Bool) (jobs : List JobRow) (f : F) (r : BookDeletionResult)
      → Unique jobs
      → (retry_deletion_job json disk id force jobs f).2 ≡ ok r
      → Reports (retry_deletion_job json disk id force jobs f).0 r
  unfolding retry_deletion_job
  retry-Reports force jobs f r q h = elim (Bool-cases (ltb 0 id)) [
    | inr bad ↦ absurd (err≢ok (rw bad at h))
    | inl good ↦
        let same : (retry_row json disk id force jobs f (find_job id jobs)).2 ≡ r =
          ok_inj (rw good at h) in
        rw good (rw (← same) (retry_row-Told force jobs f (find_job id jobs) q refl))
  ]
