-- ===== src/SyncWorker/Commits.antt =====
-- What a page commits: nothing but its audit rows if it is blocked, and else its events, its counts
-- and the cursor.
use edlink_rostering.Base.{
  ℕ, ◌+◌, String, ◌≡◌, refl, sym, ap, ◌⊎◌, inl, inr, true, false, arith, length, Memᴰ, Bool-cases,
  if◌then◌else◌, ok, >>=-eq-ok,
}
use edlink_rostering.Entities.{NormalizedEvent, Cursor, EventPage}
use edlink_rostering.Validation.Pipeline.{
  ValidationReport, run_pipeline, error_count, warning_count,
}
use edlink_rostering.Validation.Reports.{page_blocked-run_pipeline}
use edlink_rostering.Database.{Db, success, failed}
use edlink_rostering.SyncWorker.Reads.{read_cursor}
use edlink_rostering.SyncWorker.Writes.{Job, ensure_lea_exists, mark_sync_job_success}
use edlink_rostering.SyncWorker.Cursors.{same_cursor, read_cursor-upsert_cursor_state}
use edlink_rostering.SyncWorker.Events.{Tally, no_events, process_events}
use edlink_rostering.SyncWorker.Rounds.{process_events_counts}
use edlink_rostering.SyncWorker.Live.{SingleLive, OwnLea, process_events-SingleLive}
use edlink_rostering.SyncWorker.Pages.{
  Committed, Connector, lea_state_of, new_job, open_job, fail_page, close_page, commit_page,
  process_one_page,
}

-- What the run of a page is made of.
module _ (connector : Connector) (lea_id : String) (now : ℕ) (db : Db) where
  abbrev pub cursor_at : Cursor
  cursor_at = read_cursor db lea_id connector.name

  abbrev pub page_at : EventPage
  page_at = connector.fetch_changes now lea_id cursor_at

  abbrev pub job_at : Job
  job_at = new_job connector lea_id now db

  abbrev pub opened_at : ValidationReport → Db
  opened_at report = open_job job_at cursor_at report db

  -- Either the page is blocked and fails, or its events are processed and it succeeds.
  abbrev pub Ran : Committed → Type 0
  Ran c =
      (report : ValidationReport) × (run_pipeline page_at (lea_state_of db lea_id connector.name)
        ≡ ok report)
      × (((report.page_blocked ≡ true) × (c ≡ fail_page job_at cursor_at report (opened_at report)))
          ⊎ ((report.page_blocked ≡ false)
              × (done : Tally × Db) × (process_events job_at report page_at.events
                    (no_events, ensure_lea_exists lea_id (opened_at report))
                  ≡ ok done)
              × (c ≡ close_page job_at cursor_at page_at report done)))

  pub Ran-by : {c : Committed} → process_one_page connector lea_id now db ≡ ok c → Ran c
  unfolding process_one_page commit_page
  Ran-by {c} h =
      let run = run_pipeline page_at (lea_state_of db lea_id connector.name) in
      let r =
        >>=-eq-ok run
          (λ report.
            if report.page_blocked
            then ok (fail_page job_at cursor_at report (opened_at report))
            else commit_page job_at cursor_at page_at report (opened_at report))
          h in
      elim (Bool-cases r.0.page_blocked) [
        | inl blocked ↦ (r.0, r.1, inl (blocked, cc (rw blocked at (r.2))))
        | inr free ↦
            let e =
              >>=-eq-ok
                (process_events job_at r.0 page_at.events
                  (no_events, ensure_lea_exists lea_id (opened_at r.0)))
                (λ done. ok (close_page job_at cursor_at page_at r.0 done)) (rw free at (r.2)) in
            (r.0, r.1, inr (free, e.0, e.1, cc (e.2)))
      ]

-- The tables that a page writes besides the audit: what a failed page leaves as it was.
pub record Untouched (db db' : Db) : Type 0 where
  pub leas : db'.leas ≡ db.leas
  pub students : db'.students ≡ db.students
  pub enrollments : db'.enrollments ≡ db.enrollments
  pub snapshots : db'.snapshots ≡ db.snapshots
  pub quarantine : db'.quarantine ≡ db.quarantine
  pub cursor_state : db'.cursor_state ≡ db.cursor_state

Untouched-fail_page :
    (job : Job) (cursor : Cursor) (report : ValidationReport) (db : Db)
    → Untouched db (fail_page job cursor report (open_job job cursor report db)).db
unfolding fail_page open_job
Untouched-fail_page job cursor report db = record {
  leas = refl;
  students = refl;
  enrollments = refl;
  snapshots = refl;
  quarantine = refl;
  cursor_state = refl;
}

SingleLive-same : (db db' : Db) → db'.snapshots ≡ db.snapshots → SingleLive db → SingleLive db'
SingleLive-same db db' e single t l j = rw e (single t l j)

SingleLive-start :
    (job : Job) (lea_id : String) (cursor : Cursor) (report : ValidationReport) (db : Db)
    → SingleLive db
    → SingleLive (ensure_lea_exists lea_id (open_job job cursor report db))
unfolding open_job ensure_lea_exists
SingleLive-start job lea_id cursor report db single = single

SingleLive-close_page :
    (job : Job) (cursor : Cursor) (page : EventPage) (report : ValidationReport) (done : Tally × Db)
    → SingleLive done.1
    → SingleLive (close_page job cursor page report done).db
unfolding close_page
SingleLive-close_page job cursor page report (t, db) single = single

module _ (connector : Connector) (lea_id : String) (now : ℕ) (db : Db) {c : Committed}
    (h : process_one_page connector lea_id now db ≡ ok c) where
  -- A page fails exactly when its HTTP response failed the integrity check of Layer 1.
  pub status-process_one_page :
      c.outcome.status
      ≡ (if (page_at connector lea_id now db).layer_1_check.passed then success else failed)
  unfolding fail_page close_page
  status-process_one_page =
      let (report, ran, end) = Ran-by connector lea_id now db h in
      let blocks =
        page_blocked-run_pipeline (page_at connector lea_id now db)
          (lea_state_of db lea_id connector.name) ran in
      elim end [
        | inl (blocked, e) ↦
            let p : (page_at connector lea_id now db).layer_1_check.passed ≡ false = ground arith in
            rw (e, p)
        | inr (free, _, _, e) ↦
            let p : (page_at connector lea_id now db).layer_1_check.passed ≡ true = ground arith in
            rw (e, p)
      ]

  -- A page that succeeds counts each of its events once, as applied, skipped or quarantined.
  pub successful_page_counts :
      c.outcome.status ≡ success
      → c.outcome.event_count + c.outcome.skipped_count + c.outcome.quarantined_count
        ≡ length (page_at connector lea_id now db).events
  unfolding fail_page close_page
  successful_page_counts s =
      let (report, ran, end) = Ran-by connector lea_id now db h in
      elim end [
        | inl (_, e) ↦ cc (s, e)
        | inr (_, done, processed, e) ↦ rw e (
            omega (
              arith,
              process_events_counts (job_at connector lea_id now db) report
                  (page_at connector lea_id now db).events no_events
                  (ensure_lea_exists lea_id (opened_at connector lea_id now db report)) processed,
            ))
      ]

  -- The cursor that the next page reads is that of the page's response if the page succeeded, and
  -- the one before if it failed.
  pub read_cursor-process_one_page : read_cursor c.db lea_id connector.name ≡ (
      if (page_at connector lea_id now db).layer_1_check.passed
      then (page_at connector lea_id now db).next_cursor
      else read_cursor db lea_id connector.name)
  unfolding close_page fail_page
  read_cursor-process_one_page =
      let page = page_at connector lea_id now db in
      let job = job_at connector lea_id now db in
      let (report, ran, end) = Ran-by connector lea_id now db h in
      let blocks = page_blocked-run_pipeline page (lea_state_of db lea_id connector.name) ran in
      elim end [
        | inl (blocked, e) ↦
            let p : page.layer_1_check.passed ≡ false = ground arith in
            let same = Untouched-fail_page job (cursor_at connector lea_id now db) report db in
            rw (e, p) (same_cursor db _ lea_id connector.name same.cursor_state)
        | inr (free, done, _, e) ↦
            let p : page.layer_1_check.passed ≡ true = ground arith in
            rw (e, p)
              (read_cursor-upsert_cursor_state job page.next_cursor (
                mark_sync_job_success job done.0.applied (error_count report) (warning_count report)
                  page.next_cursor.value done.1))
      ]

  -- If every event about an LEA itself is about the polled one, a page keeps at most one snapshot
  -- of a natural key live.
  pub process_one_page-SingleLive :
      ((e : NormalizedEvent) → Memᴰ e (page_at connector lea_id now db).events → OwnLea lea_id e)
      → SingleLive db
      → SingleLive c.db
  process_one_page-SingleLive own single =
      let job = job_at connector lea_id now db in
      let page = page_at connector lea_id now db in
      let cursor = cursor_at connector lea_id now db in
      let (report, ran, end) = Ran-by connector lea_id now db h in
      elim end [
        | inl (_, e) ↦
            let same = Untouched-fail_page job cursor report db in
            rw e (
              SingleLive-same db (fail_page job cursor report (open_job job cursor report db)).db
                same.snapshots single)
        | inr (_, done, processed, e) ↦
            let start = SingleLive-start job lea_id cursor report db single in
            rw e (
              SingleLive-close_page job cursor page report done (
                process_events-SingleLive job report page.events no_events
                  (ensure_lea_exists lea_id (opened_at connector lea_id now db report)) own
                  processed start))
      ]

  -- The cursors that a page reports are the one it read and the one that the next page will read.
  pub cursors-process_one_page :
      (c.outcome.cursor_before ≡ (read_cursor db lea_id connector.name).value)
      × (c.outcome.cursor_after ≡ (read_cursor c.db lea_id connector.name).value)
  unfolding close_page fail_page
  cursors-process_one_page =
      let page = page_at connector lea_id now db in
      let job = job_at connector lea_id now db in
      let (report, ran, end) = Ran-by connector lea_id now db h in
      elim end [
        | inl (blocked, e) ↦
            let same = Untouched-fail_page job (cursor_at connector lea_id now db) report db in
            rw e (
              refl,
              sym (ap (λ x. x.value) (same_cursor db _ lea_id connector.name same.cursor_state)),
            )
        | inr (free, done, _, e) ↦ rw e (
          refl,
          sym (
              ap (λ x. x.value)
                (read_cursor-upsert_cursor_state job page.next_cursor (
                  mark_sync_job_success job done.0.applied (error_count report)
                    (warning_count report) page.next_cursor.value done.1))),
        )
      ]
