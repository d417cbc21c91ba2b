-- ===== src/Retry.antt =====
-- edlink_rostering/services/retry.py: an operator rewinds the cursor of an LEA to where a sync job
-- started. An operation is one transaction.
pub mod Rewind
pub mod Examples
use edlink_rostering.Base.{
  ℕ, suc, String, Bool, true, false, not, Option, none, some, List, [], ◌∷◌, ◌++◌, find, eqb,
  if◌then◌else◌, Result, ok, err, ◌>>=◌,
}
use edlink_rostering.Database.{
  Db, JobStatus, success, revert, SyncJob, CursorRow, RetryAction, upsert,
}
use edlink_rostering.SyncWorker.Reads.{is_cursor_of, is_success}

pub data RetryError : Type 0 where
  not_found refused : RetryError

pub record RetryOutcome : Type 0 where
  pub retry_id : ℕ
  pub sync_job_id : ℕ
  pub lea_id : String
  pub partner : String
  pub cursor_rewound_to : Option String
  pub forced : Bool

abbrev pub found_job : Option SyncJob → Result RetryError SyncJob
found_job none = err not_found
found_job (some job) = ok job

unfoldable pub load_sync_job : Db → ℕ → Result RetryError SyncJob
load_sync_job db sync_job_id = found_job (find (λ j. eqb j.id sync_job_id) db.sync_jobs)

abbrev pub is_revert : SyncJob → Bool
is_revert j = elim j.status [ revert ↦ true | _ ↦ false ]

-- The two guards of `retry` on the job that it loaded.
unfoldable pub check_retry : SyncJob → Bool → Result RetryError SyncJob
check_retry job forced =
    if is_revert job
    then err refused
    else if is_success job
    then (if forced then ok job else err refused)
    else ok job

-- The row that is inserted, and what `DO UPDATE SET` makes of the one that is there.
abbrev pub rewound_row : String → String → Option String → ℕ → CursorRow
rewound_row lea_id partner cursor_value now = record {
  lea_id = lea_id;
  partner = partner;
  last_event_id = cursor_value;
  last_event_at = none;
  last_poll_at = none;
  cold_start_required = false;
  updated_at = now;
}

abbrev pub rewind_row : Option String → ℕ → CursorRow → CursorRow
rewind_row cursor_value now r = record r {
  last_event_id = cursor_value;
  last_event_at = none;
  updated_at = now;
}

unfoldable pub rewind_cursor : String → String → Option String → ℕ → Db → Db
rewind_cursor lea_id partner cursor_value now db = record db {
  cursor_state =
      upsert (is_cursor_of lea_id partner) (rewound_row lea_id partner cursor_value now)
        (rewind_row cursor_value now) db.cursor_state;
}

unfoldable pub insert_retry_action : RetryAction → Db → Db
insert_retry_action action db = record db {
  retry_actions = db.retry_actions ++ action ∷ [];
  fresh = suc db.fresh;
}

-- The part of `retry` after its guards.
unfoldable pub apply_retry : SyncJob → ℕ → String → String → Bool → ℕ → Db → RetryOutcome × Db
unfolding rewind_cursor insert_retry_action
apply_retry job sync_job_id operator reason forced now db = (
  record {
    retry_id = db.fresh;
    sync_job_id = sync_job_id;
    lea_id = job.lea_id;
    partner = job.partner;
    cursor_rewound_to = job.cursor_before;
    forced = forced;
  },
  insert_retry_action
      (record {
        id = db.fresh;
        sync_job_id = sync_job_id;
        lea_id = job.lea_id;
        partner = job.partner;
        operator_identity = operator;
        reason = reason;
        retried_at = now;
        cursor_rewound_to = job.cursor_before;
        forced = forced;
      })
      (rewind_cursor job.lea_id job.partner job.cursor_before now db),
)

unfoldable pub retry : ℕ → String → String → Bool → ℕ → Db → Result RetryError (RetryOutcome × Db)
unfolding load_sync_job check_retry apply_retry
retry sync_job_id operator reason forced now db = do
  target ← load_sync_job db sync_job_id
  job ← check_retry target forced
  ok (apply_retry job sync_job_id operator reason forced now db)
