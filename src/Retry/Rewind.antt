-- ===== src/Retry/Rewind.antt =====
-- When a retry is refused, and where the next page starts after one.
use edlink_rostering.Base.{
  ℕ, suc, String, ◌≡◌, refl, Bool, not, ◌&&◌, ◌||◌, Option, none, some, arith, find, eqb,
  if◌then◌else◌, ok, err, eq_refl,
}
use edlink_rostering.Entities.{Cursor}
use edlink_rostering.Database.{Db, SyncJob, find-upsert, upserted}
use edlink_rostering.SyncWorker.Reads.{is_cursor_of, is_success, read_cursor, cursor_of_row}
use edlink_rostering.Retry.{
  refused, RetryOutcome, load_sync_job, is_revert, check_retry, rewound_row, rewind_row,
  apply_retry, retry,
}

-- The job that an id names.
abbrev pub job_at : ℕ → Db → Option SyncJob
job_at id db = find (λ j. eqb j.id id) db.sync_jobs

abbrev pub may_retry : SyncJob → Bool → Bool
may_retry job forced = not (is_revert job) && (forced || not (is_success job))

-- The cursor from which a job started.
abbrev pub start_of : SyncJob → Cursor
start_of job = record {
  value = elim job.cursor_before [ none ↦ "" | some v ↦ v ];
  observed_at = none;
}

read_cursor-apply_retry :
    (job : SyncJob) (id : ℕ) (operator reason : String) (forced : Bool) (now : ℕ) (db : Db)
    → read_cursor (apply_retry job id operator reason forced now db).1 job.lea_id job.partner
      ≡ start_of job
unfolding read_cursor apply_retry
read_cursor-apply_retry job id operator reason forced now db =
    let p = is_cursor_of job.lea_id job.partner in
    let row = rewound_row job.lea_id job.partner job.cursor_before now in
    let f = rewind_row job.cursor_before now in
    rw
      (find-upsert p row f db.cursor_state (ground (arith, eq_refl job.lea_id, eq_refl job.partner))
        (λ r. refl))
      (elim (find p db.cursor_state)
        as (λ o. cursor_of_row (some (upserted row f o)) ≡ start_of job) [
          | none ↦ refl
          | some r ↦ refl
        ])

module _ (id : ℕ) (operator reason : String) (forced : Bool) (now : ℕ) (db : Db) {job : SyncJob}
    (found : job_at id db ≡ some job) where
  retry_loaded : retry id operator reason forced now db ≡ (
      if may_retry job forced
      then ok (apply_retry job id operator reason forced now db)
      else err refused)
  unfolding retry load_sync_job check_retry
  retry_loaded = rw found (ground arith)

  -- A retry of a job that exists is refused exactly if the job is a revert, or has succeeded and the
  -- operator does not force it. Otherwise the next page of the job's LEA and partner starts at the
  -- cursor from which the job started, and only the cursors and the log of retries have changed.
  pub retry_rewinds :
      (done : RetryOutcome × Db) × (retry id operator reason forced now db
        ≡ (if may_retry job forced then ok done else err refused))
      × (read_cursor done.1 job.lea_id job.partner ≡ start_of job)
      × (done.1 ≡ record db {
        cursor_state = done.1.cursor_state;
        retry_actions = done.1.retry_actions;
        fresh = suc db.fresh;
      })
  unfolding apply_retry
  retry_rewinds = (
    apply_retry job id operator reason forced now db,
    retry_loaded,
    read_cursor-apply_retry job id operator reason forced now db,
    refl,
  )
