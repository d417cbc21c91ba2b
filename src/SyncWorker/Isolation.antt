-- ===== src/SyncWorker/Isolation.antt =====
-- A drain of one LEA leaves the snapshots, the quarantine and the cursors of every other LEA alone.
use edlink_rostering.Base.{
  Option, ℕ, String, ◌≡◌, refl, ap, inl, inr, ◌∙◌, Bool, false, List, arith, ok, Memᴰ, ◌==◌, eq_iff,
}
use edlink_rostering.Entities.{NormalizedEvent, Cursor, EventPage}
use edlink_rostering.Validation.Pipeline.{ValidationReport, error_count, warning_count}
use edlink_rostering.Database.{Db, find-upsert_ne}
use edlink_rostering.SyncWorker.Reads.{read_cursor, is_cursor_of, cursor_of_row}
use edlink_rostering.SyncWorker.Writes.{
  Job, ensure_lea_exists, upsert_cursor_state, cursor_row, advance_row, mark_sync_job_success,
}
use edlink_rostering.SyncWorker.Events.{Tally, no_events}
use edlink_rostering.SyncWorker.Live.{OwnLea}
use edlink_rostering.SyncWorker.Pages.{
  Committed, Connector, open_job, fail_page, close_page, process_one_page,
}
use edlink_rostering.SyncWorker.Commits.{Ran-by, page_at, job_at, cursor_at, opened_at}
use edlink_rostering.Entities.{Failure}
use edlink_rostering.SyncWorker.Pages.{PageOutcome, drain_lea}
use edlink_rostering.SyncWorker.Drains.{Drains, drain_lea-Drains}
use edlink_rostering.SyncWorker.Tenants.{
  SameTenant, SameTenant-trans, SameTenant-process_events, read_cursor-same,
}

SameTenant-refl : (l : String) (db : Db) → SameTenant l db db
SameTenant-refl l db = record { snapshots = λ t. refl; quarantine = refl; cursors = λ p. refl }

SameTenant-start :
    (job : Job) (lea_id : String) (cursor : Cursor) (report : ValidationReport) (db d : Db)
    (l : String)
    → SameTenant l (ensure_lea_exists lea_id (open_job job cursor report db)) d
    → SameTenant l db d
unfolding open_job ensure_lea_exists read_cursor
SameTenant-start job lea_id cursor report db d l same = record {
  snapshots = same.snapshots;
  quarantine = same.quarantine;
  cursors = same.cursors;
}

SameTenant-fail_page :
    (job : Job) (cursor : Cursor) (report : ValidationReport) (db : Db) (l : String)
    → SameTenant l db (fail_page job cursor report (open_job job cursor report db)).db
unfolding fail_page open_job read_cursor
SameTenant-fail_page job cursor report db l = record {
  snapshots = λ t. refl;
  quarantine = refl;
  cursors = λ p. refl;
}

read_cursor-upsert_other :
    (job : Job) (cursor : Cursor) (db : Db) (l partner : String)
    → (l == job.lea_id) ≡ false
    → read_cursor (upsert_cursor_state job cursor db) l partner ≡ read_cursor db l partner
unfolding read_cursor upsert_cursor_state
read_cursor-upsert_other job cursor db l partner other = ap cursor_of_row (
    find-upsert_ne (is_cursor_of job.lea_id job.partner) (is_cursor_of l partner)
      (cursor_row job cursor) (advance_row job cursor) db.cursor_state
      (ground (arith, eq_iff job.lea_id l, eq_iff l job.lea_id))
      (λ r at.
        ground (arith, at, eq_iff r.lea_id l, eq_iff r.lea_id job.lea_id, eq_iff l job.lea_id))
      (λ r at.
        ground (arith, at, eq_iff r.lea_id l, eq_iff r.lea_id job.lea_id, eq_iff l job.lea_id)))

SameTenant-close_page :
    (job : Job) (cursor : Cursor) (page : EventPage) (report : ValidationReport) (db : Db)
    (done : Tally × Db) (l : String)
    → (l == job.lea_id) ≡ false
    → SameTenant l db done.1
    → SameTenant l db (close_page job cursor page report done).db
unfolding close_page
SameTenant-close_page job cursor page report db (t, d) l other same =
    let marked =
      mark_sync_job_success job t.applied (error_count report) (warning_count report)
        page.next_cursor.value d in
    record {
      snapshots = same.snapshots;
      quarantine = same.quarantine;
      cursors = λ p.
          read_cursor-upsert_other job page.next_cursor marked l p other
          ∙ (read_cursor-same d marked l p refl ∙ same.cursors p);
    }

-- A page of one LEA, about no LEA but this one, leaves what any other LEA sees of its snapshots, its
-- quarantine and its cursors as it was, whether the page succeeds or fails.
pub process_one_page-SameTenant :
    (connector : Connector) (lea_id : String) (now : ℕ) (db : Db) {c : Committed} (l : String)
    → (l == lea_id) ≡ false
    → ((e : NormalizedEvent) → Memᴰ e (page_at connector lea_id now db).events → OwnLea lea_id e)
    → process_one_page connector lea_id now db ≡ ok c
    → SameTenant l db c.db
process_one_page-SameTenant connector lea_id now db l other own h =
    let job = job_at connector lea_id now db in
    let page = page_at connector lea_id now db in
    let cursor = cursor_at connector lea_id now db in
    let (report, ran, end) = Ran-by connector lea_id now db h in
    elim end [
      | inl (_, e) ↦ rw e (SameTenant-fail_page job cursor report db l)
      | inr (_, done, processed, e) ↦ rw e (
          SameTenant-close_page job cursor page report db done l other (
            SameTenant-start job lea_id cursor report db done.1 l (
              SameTenant-process_events job report page.events no_events
                (ensure_lea_exists lea_id (opened_at connector lea_id now db report)) l other own
                processed)))
    ]

SameTenant-of :
    {connector : Connector} {lea_id : String} {db db' : Db} {outcomes : List PageOutcome}
    {failure : Option Failure} (l : String)
    → (l == lea_id) ≡ false
    → ((now : ℕ) (cursor : Cursor) (e : NormalizedEvent)
        → Memᴰ e (connector.fetch_changes now lea_id cursor).events
        → OwnLea lea_id e)
    → Drains connector lea_id db outcomes db' failure
    → SameTenant l db db'
SameTenant-of l other own (Drains.spent db) = SameTenant-refl l db
SameTenant-of l other own (Drains.raised db now e h) = SameTenant-refl l db
SameTenant-of {connector} {lea_id} l other own (Drains.stopped db now c h last) =
    process_one_page-SameTenant connector lea_id now db l other (own now _) h
SameTenant-of {connector} {lea_id} l other own
      (Drains.continued db db' now c rest failure h more later) =
    SameTenant-trans l db c.db db'
      (process_one_page-SameTenant connector lea_id now db l other (own now _) h)
      (SameTenant-of l other own later)

-- If every event about an LEA itself that the connector can return is about the polled one, a drain
-- leaves what any other LEA sees of its snapshots, its quarantine and its cursors as it was,
-- however the drain ends.
pub drain_lea-SameTenant :
    (connector : Connector) (degraded : Option Bool) (clock : ℕ → ℕ) (max_pages : ℕ)
    (lea_id : String) (db : Db) (l : String)
    → (l == lea_id) ≡ false
    → ((now : ℕ) (cursor : Cursor) (e : NormalizedEvent)
        → Memᴰ e (connector.fetch_changes now lea_id cursor).events
        → OwnLea lea_id e)
    → SameTenant l db (drain_lea connector degraded clock max_pages lea_id db).db
drain_lea-SameTenant connector degraded clock max_pages lea_id db l other own =
    SameTenant-of l other own (drain_lea-Drains connector degraded clock max_pages lea_id db)
