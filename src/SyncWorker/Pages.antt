-- ===== src/SyncWorker/Pages.antt =====
-- `_process_one_page` and `drain_lea` of edlink_rostering/services/sync_worker.py. A page is one
-- transaction: it either returns the database that it commits, or raises and changes nothing.
-- The connector is a function from a time, an LEA and a cursor to the page that it returns, and the
-- clock a function from the number of pages that the drain may still process. A drain returns what
-- the alerts are given of each page; IntegrationStatus evaluates them. Telemetry is left out.
use edlink_rostering.Base.{
  ℕ, zero, suc, ◌-◌, String, Bool, true, false, not, ◌||◌, Option, none, some, List, [], ◌∷◌, map,
  keep, length, take, if◌then◌else◌, Result, ok, err, ◌>>=◌,
}
use edlink_rostering.Entities.{Cursor, EventPage, Failure}
use edlink_rostering.Validation.Thresholds.{LeaState}
use edlink_rostering.Validation.Pipeline.{
  ValidationReport, is_error, error_count, warning_count, run_pipeline,
}
use edlink_rostering.Database.{Db, JobStatus, success, failed, ErrorSummary, page_errors}
use edlink_rostering.SyncWorker.Reads.{
  read_cursor, read_known_student_ids, read_live_student_count, read_recent_sync_history,
}
use edlink_rostering.SyncWorker.Writes.{
  Job, insert_sync_job_running, persist_validation_issues, mark_sync_job_failed,
  mark_sync_job_success, upsert_cursor_state, ensure_lea_exists,
}
use edlink_rostering.SyncWorker.Events.{Tally, no_events, process_events}

pub record PageOutcome : Type 0 where
  pub sync_job_id : ℕ
  pub lea_id : String
  pub status : JobStatus
  pub cursor_before : String
  pub cursor_after : String
  pub event_count : ℕ
  pub skipped_count : ℕ
  pub quarantined_count : ℕ
  pub error_count : ℕ
  pub warning_count : ℕ
  pub has_more : Bool

-- What a page commits, with the outcome, the report and the summary that the drain hands on.
pub record Committed : Type 0 where
  pub outcome : PageOutcome
  pub report : ValidationReport
  pub error_summary : Option ErrorSummary
  pub db : Db

pub record Connector : Type 0 where
  pub name : String
  pub fetch_changes : ℕ → String → Cursor → EventPage

-- `_summarize_blocking_errors`: the layer, code and event of the first three errors, and how many
-- errors follow them. The text joins these parts.
unfoldable pub summarize_blocking_errors : ValidationReport → ErrorSummary
summarize_blocking_errors report =
    let blocking = keep is_error report.issues in
    page_errors (map (λ i. (i.layer, i.code, i.event_id)) (take 3 blocking)) (length blocking - 3)

unfoldable pub lea_state_of : Db → String → String → LeaState
unfolding read_known_student_ids read_live_student_count read_recent_sync_history
lea_state_of db lea_id partner =
    let (event_history, deletion_history) = read_recent_sync_history db lea_id partner in
    record {
      lea_id = lea_id;
      known_student_ids = read_known_student_ids db lea_id;
      live_student_count = read_live_student_count db lea_id;
      recent_event_counts = event_history;
      recent_deletion_counts = deletion_history;
    }

abbrev pub new_job : Connector → String → ℕ → Db → Job
new_job connector lea_id now db = record {
  sync_job_id = db.fresh;
  lea_id = lea_id;
  partner = connector.name;
  now = now;
}

-- The running job and the issues of the report, which both kinds of page write.
unfoldable pub open_job : Job → Cursor → ValidationReport → Db → Db
unfolding insert_sync_job_running persist_validation_issues
open_job job cursor_before report db =
    persist_validation_issues job report.issues
      (insert_sync_job_running job cursor_before.value (record db { fresh = suc db.fresh }))

unfoldable pub fail_page : Job → Cursor → ValidationReport → Db → Committed
unfolding mark_sync_job_failed summarize_blocking_errors error_count warning_count
fail_page job cursor_before report db =
    let summary = summarize_blocking_errors report in
    record {
      outcome = record {
        sync_job_id = job.sync_job_id;
        lea_id = job.lea_id;
        status = failed;
        cursor_before = cursor_before.value;
        cursor_after = cursor_before.value;
        event_count = 0;
        skipped_count = 0;
        quarantined_count = 0;
        error_count = error_count report;
        warning_count = warning_count report;
        has_more = false;
      };
      report = report;
      error_summary = some summary;
      db = mark_sync_job_failed job (error_count report) (warning_count report) summary db;
    }

-- The end of a page whose events are written: the job succeeds and the cursor advances.
unfoldable pub close_page : Job → Cursor → EventPage → ValidationReport → Tally × Db → Committed
unfolding mark_sync_job_success upsert_cursor_state error_count warning_count
close_page job cursor_before page report (t, db) = record {
  outcome = record {
    sync_job_id = job.sync_job_id;
    lea_id = job.lea_id;
    status = success;
    cursor_before = cursor_before.value;
    cursor_after = page.next_cursor.value;
    event_count = t.applied;
    skipped_count = t.skipped;
    quarantined_count = t.quarantined;
    error_count = error_count report;
    warning_count = warning_count report;
    has_more = page.has_more;
  };
  report = report;
  error_summary = none;
  db = upsert_cursor_state job page.next_cursor (
      mark_sync_job_success job t.applied (error_count report) (warning_count report)
        page.next_cursor.value db);
}

unfoldable pub commit_page :
    Job → Cursor → EventPage → ValidationReport → Db → Result Failure Committed
unfolding ensure_lea_exists process_events close_page
commit_page job cursor_before page report db = do
  done ← process_events job report page.events (no_events, ensure_lea_exists job.lea_id db)
  ok (close_page job cursor_before page report done)

unfoldable pub process_one_page : Connector → String → ℕ → Db → Result Failure Committed
unfolding read_cursor lea_state_of open_job fail_page commit_page
process_one_page connector lea_id now db =
    let cursor_before = read_cursor db lea_id connector.name in
    let page = connector.fetch_changes now lea_id cursor_before in
    let job = new_job connector lea_id now db in
    do
      report ← run_pipeline page (lea_state_of db lea_id connector.name)
      let opened = open_job job cursor_before report db
      if report.page_blocked
          then ok (fail_page job cursor_before report opened)
          else commit_page job cursor_before page report opened

-- What `_process_one_page` returns, which the loop hands on to the alerts.
abbrev pub PageReport : Type 0
PageReport = PageOutcome × ValidationReport × Option ErrorSummary

-- What a drain leaves: the outcomes of the pages that it committed, what the alerts are given of
-- each, the database, and the failure that ended it, if one did.
pub record Drained : Type 0 where
  pub outcomes : List PageOutcome
  pub reports : List PageReport
  pub db : Db
  pub failure : Option Failure

abbrev pub page_report : Committed → PageReport
page_report c = (c.outcome, c.report, c.error_summary)

abbrev pub succeeded : PageOutcome → Bool
succeeded o = elim o.status [ success ↦ true | _ ↦ false ]

-- The body of the loop: a failure ends the drain, a page that failed or has no more is the last,
-- and `further` goes on from what any other page committed.
abbrev pub drain_page : (Db → Drained) → Db → Result Failure Committed → Drained
drain_page further db (err e) = record { outcomes = []; reports = []; db = db; failure = some e }
drain_page further db (ok c) =
    if not c.outcome.has_more || not (succeeded c.outcome)
    then record {
      outcomes = c.outcome ∷ [];
      reports = page_report c ∷ [];
      db = c.db;
      failure = none;
    }
    else record (further c.db) {
      outcomes = c.outcome ∷ (further c.db).outcomes;
      reports = page_report c ∷ (further c.db).reports;
    }

-- `for _ in range(max_pages)` with its `break`.
unfoldable pub drain_pages : Connector → String → (ℕ → ℕ) → ℕ → Db → Drained
drain_pages connector lea_id clock zero db = record {
  outcomes = [];
  reports = [];
  db = db;
  failure = none;
}
drain_pages connector lea_id clock (suc n) db =
    drain_page (drain_pages connector lea_id clock n) db
      (process_one_page connector lea_id (clock n) db)

-- `drain_lea`. `degraded` is `record.is_degraded` of the status poller, where a worker has one and
-- it finds a record.
unfoldable pub drain_lea : Connector → Option Bool → (ℕ → ℕ) → ℕ → String → Db → Drained
drain_lea connector (some true) clock max_pages lea_id db = record {
  outcomes = [];
  reports = [];
  db = db;
  failure = none;
}
drain_lea connector _ clock max_pages lea_id db = drain_pages connector lea_id clock max_pages db
