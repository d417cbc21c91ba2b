-- ===== src/Retry/Examples.antt =====
-- A retry of a job that failed.
use edlink_rostering.Base.{Bool, ◌≡◌, refl, none, some, [], ◌∷◌, ok}
use edlink_rostering.Database.{Db, SyncJob, failed}
use edlink_rostering.SyncWorker.Reads.{read_cursor}
use edlink_rostering.Retry.{RetryOutcome, retry}
use edlink_rostering.Retry.Rewind.{retry_rewinds}
use edlink_rostering.Scenario.{empty_db}

abbrev failed_job : SyncJob
failed_job = record {
  id = 3;
  lea_id = "l1";
  partner = "edlink";
  status = failed;
  started_at = 50;
  completed_at = some 51;
  event_count = 0;
  error_count = 1;
  warning_count = 0;
  cursor_before = some "0007";
  cursor_after = none;
  error_summary = none;
}

abbrev failed_db : Db
failed_db = record empty_db { sync_jobs = failed_job ∷ []; fresh = 4 }

retry_rewinds_example :
    (done : RetryOutcome × Db) × (retry 3 "op" "stalled" Bool.false 60 failed_db ≡ ok done)
    × (read_cursor done.1 "l1" "edlink" ≡ record { value = "0007"; observed_at = none })
    × (done.1 ≡ record failed_db {
      cursor_state = done.1.cursor_state;
      retry_actions = done.1.retry_actions;
      fresh = 5;
    })
retry_rewinds_example = retry_rewinds 3 "op" "stalled" Bool.false 60 failed_db refl
