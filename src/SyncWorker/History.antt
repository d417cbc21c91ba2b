-- ===== src/SyncWorker/History.antt =====
-- Snapshots are a history: a drain adds rows and closes live ones, and changes nothing else of them.
use edlink_rostering.Base.{
  ℕ, String, ◌≡◌, refl, inl, inr, Bool, true, Option, List, [], ◌∷◌, arith, Bool-cases, ok,
}
use edlink_rostering.Entities.{NormalizedEvent, same_type, Cursor, EventPage, Failure, entity_id}
use edlink_rostering.Validation.Pipeline.{ValidationReport}
use edlink_rostering.Validation.Thresholds.{is_deletion}
use edlink_rostering.Database.{Db, Snapshot, is_live, update_where}
use edlink_rostering.Database.History.{
  LaterRow, LaterRow-refl, LaterTable, LaterTable-refl, LaterTable-append, Later, Later-same,
  Later-trans,
}
use edlink_rostering.SyncWorker.Reads.{is_live_at}
use edlink_rostering.SyncWorker.Writes.{Job, write_quarantine_row, ensure_lea_exists, new_snapshot}
use edlink_rostering.SyncWorker.Events.{Tally, no_events, write_event, process_events}
use edlink_rostering.SyncWorker.Rounds.{process_events_keeps}
use edlink_rostering.SyncWorker.Live.{supersede, snapshots-write_event}
use edlink_rostering.SyncWorker.HighWater.{same_type_eq}
use edlink_rostering.SyncWorker.Pages.{
  Committed, Connector, PageOutcome, open_job, fail_page, close_page, process_one_page, drain_lea,
}
use edlink_rostering.SyncWorker.Commits.{Ran-by, page_at, job_at, cursor_at, opened_at}
use edlink_rostering.SyncWorker.Drains.{Drains, drain_lea-Drains}

LaterRow-supersede : (job : Job) (s : Snapshot) → is_live s ≡ true → LaterRow s (supersede job s)
LaterRow-supersede job s live = record {
  snapshot_id = refl;
  natural_key = refl;
  lea_id = refl;
  generation_id = refl;
  deleted_upstream = refl;
  source_event_id = refl;
  source_event_at = refl;
  created_at = refl;
  payload = refl;
  closed = λ h. cc (h, live);
}

LaterTable-update_where :
    (job : Job) (k : String) (rows : List Snapshot)
    → LaterTable rows (update_where (is_live_at job.lea_id k) (supersede job) rows)
LaterTable-update_where job k [] = tt
LaterTable-update_where job k (s ∷ rows) = elim (Bool-cases (is_live_at job.lea_id k s)) [
  | inl at ↦
      let live : is_live s ≡ true = ground arith in
      rw at (LaterRow-supersede job s live, LaterTable-update_where job k rows)
  | inr other ↦ rw other (LaterRow-refl s, LaterTable-update_where job k rows)
]

Later-write_event :
    (job : Job) (event : NormalizedEvent) (db : Db) {db' : Db}
    → write_event job event db ≡ ok db'
    → Later db db'
Later-write_event job event db h t = elim (Bool-cases (same_type t event.entity_type)) [
  | inl same ↦
      let rows = db.snapshots event.entity_type in
      let k = entity_id event.entity in
      rw (snapshots-write_event job event db h t, same, same_type_eq t event.entity_type same)
        (LaterTable-append rows (update_where (is_live_at job.lea_id k) (supersede job) rows)
          (new_snapshot job event (is_deletion event) db.fresh ∷ [])
          (LaterTable-update_where job k rows))
  | inr other ↦
      rw (snapshots-write_event job event db h t, other) (LaterTable-refl (db.snapshots t))
]

Later-process_events :
    (job : Job) (report : ValidationReport) (events : List NormalizedEvent) (t : Tally) (db : Db)
    {done : Tally × Db}
    → process_events job report events (t, db) ≡ ok done
    → Later db done.1
unfolding write_quarantine_row
Later-process_events job report events t db h =
    process_events_keeps job report (Later db) events t db
      (λ e m d d' w p. Later-trans db d d' p (Later-write_event job e d w))
      (λ e d p.
        Later-trans db d (write_quarantine_row job e d) p
          (Later-same d (write_quarantine_row job e d) refl))
      h (Later-same db db refl)

Later-start :
    (job : Job) (lea_id : String) (cursor : Cursor) (report : ValidationReport) (db d : Db)
    → Later (ensure_lea_exists lea_id (open_job job cursor report db)) d
    → Later db d
unfolding open_job ensure_lea_exists
Later-start job lea_id cursor report db d later = later

Later-fail_page :
    (job : Job) (cursor : Cursor) (report : ValidationReport) (db : Db)
    → Later db (fail_page job cursor report (open_job job cursor report db)).db
unfolding fail_page open_job
Later-fail_page job cursor report db t = LaterTable-refl (db.snapshots t)

Later-close_page :
    (job : Job) (cursor : Cursor) (page : EventPage) (report : ValidationReport) (db : Db)
    (done : Tally × Db)
    → Later db done.1
    → Later db (close_page job cursor page report done).db
unfolding close_page
Later-close_page job cursor page report db (t, d) later = later

Later-process_one_page :
    (connector : Connector) (lea_id : String) (now : ℕ) (db : Db) {c : Committed}
    → process_one_page connector lea_id now db ≡ ok c
    → Later db c.db
Later-process_one_page connector lea_id now db h =
    let job = job_at connector lea_id now db in
    let page = page_at connector lea_id now db in
    let cursor = cursor_at connector lea_id now db in
    let (report, ran, end) = Ran-by connector lea_id now db h in
    elim end [
      | inl (_, e) ↦ rw e (Later-fail_page job cursor report db)
      | inr (_, done, processed, e) ↦ rw e (
          Later-close_page job cursor page report db done (
            Later-start job lea_id cursor report db done.1 (
              Later-process_events job report page.events no_events
                (ensure_lea_exists lea_id (opened_at connector lea_id now db report)) processed)))
    ]

Later-of :
    {connector : Connector} {lea_id : String} {db db' : Db} {outcomes : List PageOutcome}
    {failure : Option Failure}
    → Drains connector lea_id db outcomes db' failure
    → Later db db'
Later-of (Drains.spent db) = Later-same db db refl
Later-of (Drains.raised db now e h) = Later-same db db refl
Later-of {connector} {lea_id} (Drains.stopped db now c h last) =
    Later-process_one_page connector lea_id now db h
Later-of {connector} {lea_id} (Drains.continued db db' now c rest failure h more later) =
    Later-trans db c.db db' (Later-process_one_page connector lea_id now db h) (Later-of later)

-- A drain keeps every snapshot of every table, in its place and with its content. It may only close
-- a row that is live, and adds its new rows at the end.
pub drain_lea-Later :
    (connector : Connector) (degraded : Option Bool) (clock : ℕ → ℕ) (max_pages : ℕ)
    (lea_id : String) (db : Db)
    → Later db (drain_lea connector degraded clock max_pages lea_id db).db
drain_lea-Later connector degraded clock max_pages lea_id db =
    Later-of (drain_lea-Drains connector degraded clock max_pages lea_id db)
