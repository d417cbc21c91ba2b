-- ===== src/SyncWorker/Blocked.antt =====
-- A page whose response fails Layer 1: what the page commits, and that it ends the drain.
use edlink_rostering.Base.{
  ℕ, suc, String, ◌≡◌, refl, ◌≢◌, Bool, true, false, Option, none, some, List, [], ◌∷◌, ◌++◌, arith,
  count, eqb, eqb_refl, inl, inr, Bool-cases, ok,
}
use edlink_rostering.Entities.{EventPage}
use edlink_rostering.Validation.Pipeline.{
  ValidationReport, report_of, failed_integrity, integrity_issue, run_pipeline,
}
use edlink_rostering.Database.{Db, SyncJob, failed, page_errors, update_where}
use edlink_rostering.SyncWorker.Reads.{read_cursor}
use edlink_rostering.SyncWorker.Pages.{
  PageOutcome, Committed, Connector, fail_page, open_job, page_report, drain_pages,
  process_one_page, drain_lea,
}
use edlink_rostering.SyncWorker.Commits.{page_at, job_at, cursor_at, opened_at}

is_job : ℕ → SyncJob → Bool
is_job id j = eqb j.id id

-- The one row of `sync_jobs` that a blocked page leaves.
abbrev pub failed_job : ℕ → String → Connector → ℕ → String → SyncJob
failed_job id lea_id connector now cursor = record {
  id = id;
  lea_id = lea_id;
  partner = connector.name;
  status = failed;
  started_at = now;
  completed_at = some now;
  event_count = 0;
  error_count = 1;
  warning_count = 0;
  cursor_before = some cursor;
  cursor_after = none;
  error_summary = some (page_errors ((1, "HTTP_INTEGRITY_FAILED", none) ∷ []) 0);
}

-- The tables after a blocked page: one failed job, one validation result, and a used id.
abbrev pub audited : Connector → String → ℕ → Db → Db
audited connector lea_id now db = record db {
  sync_jobs =
      db.sync_jobs
      ++ failed_job db.fresh lea_id connector now (read_cursor db lea_id connector.name).value ∷ [];
  validation_results =
      db.validation_results
      ++ (record {
        sync_job_id = db.fresh;
        issue = integrity_issue (page_at connector lea_id now db).layer_1_check;
        created_at = now;
      })
        ∷ [];
  fresh = suc db.fresh;
}

-- An UPDATE by an id that only the last row has.
update_last :
    (id : ℕ) (f : SyncJob → SyncJob) (jobs : List SyncJob) (new : SyncJob)
    → count (λ j. eqb j.id id) jobs ≡ 0
    → eqb new.id id ≡ true
    → update_where (λ j. eqb j.id id) f (jobs ++ new ∷ []) ≡ jobs ++ f new ∷ []
update_last id f [] new unused is = rw is refl
update_last id f (j ∷ jobs) new unused is = elim (Bool-cases (eqb j.id id)) [
  | inl here ↦ ground (arith, unused)
  | inr other ↦ rw (other, update_last id f jobs new (ground (arith, unused)) is) refl
]

-- The report on a page whose response fails Layer 1.
abbrev pub failed_report : EventPage → ValidationReport
failed_report page = report_of false page.events (failed_integrity page.layer_1_check)

abbrev pub failed_outcome : Connector → String → Db → PageOutcome
failed_outcome connector lea_id db =
    let cursor = (read_cursor db lea_id connector.name).value in
    record {
      sync_job_id = db.fresh;
      lea_id = lea_id;
      status = failed;
      cursor_before = cursor;
      cursor_after = cursor;
      event_count = 0;
      skipped_count = 0;
      quarantined_count = 0;
      error_count = 1;
      warning_count = 0;
      has_more = false;
    }

abbrev pub blocked : Connector → String → ℕ → Db → Committed
blocked connector lea_id now db = record {
  outcome = failed_outcome connector lea_id db;
  report = failed_report (page_at connector lea_id now db);
  error_summary = some (page_errors ((1, "HTTP_INTEGRITY_FAILED", none) ∷ []) 0);
  db = audited connector lea_id now db;
}

module _ (connector : Connector) (lea_id : String) (now : ℕ) (db : Db)
    (unused : count (λ j. eqb j.id db.fresh) db.sync_jobs ≡ 0)
    (bad : (page_at connector lea_id now db).layer_1_check.passed ≡ false) where
  -- The page's own row is inserted as running and then marked as failed.
  jobs_after :
      (fail_page
        (job_at connector lea_id now db)
        (cursor_at connector lea_id now db)
        (failed_report (page_at connector lea_id now db))
        (opened_at connector lea_id now db
          (failed_report (page_at connector lea_id now db)))).db.sync_jobs
      ≡ (audited connector lea_id now db).sync_jobs
  unfolding fail_page open_job integrity_issue report_of failed_integrity
  jobs_after = update_last db.fresh _ db.sync_jobs _ unused (eqb_refl db.fresh)

  blocked_page : process_one_page connector lea_id now db ≡ ok (blocked connector lea_id now db)
  unfolding process_one_page run_pipeline integrity_issue
  blocked_page = rw bad (λ i. ok (record (blocked connector lea_id now db) {
    db = record (audited connector lea_id now db) { sync_jobs = jobs_after i };
  }))

  -- A drain of an LEA whose integration is not degraded, with at least one page allowed, and whose
  -- first response fails the integrity check of Layer 1. The id of the new job is no job's yet.
  -- The drain then ends after that page and returns without an exception. It reports one outcome,
  -- failed, without events and with the cursor that was stored. Of the tables, `sync_jobs` has one
  -- row more, failed, with the error in its summary, and `validation_results` one row more, the
  -- issue of Layer 1; the other tables are those before.
  pub blocked_drain_is_audited :
      (degraded : Option Bool) (clock : ℕ → ℕ) (pages : ℕ)
      → degraded ≢ some true
      → clock pages ≡ now
      → drain_lea connector degraded clock (suc pages) lea_id db ≡ record {
        outcomes = failed_outcome connector lea_id db ∷ [];
        reports = page_report (blocked connector lea_id now db) ∷ [];
        db = audited connector lea_id now db;
        failure = none;
      }
  unfolding drain_lea drain_pages
  blocked_drain_is_audited none clock pages fine at = rw (at, blocked_page) refl
  blocked_drain_is_audited (some false) clock pages fine at = rw (at, blocked_page) refl
  blocked_drain_is_audited (some true) clock pages fine at = elim (fine refl) [ ]
