-- ===== src/SyncWorker/Events.antt =====
-- `_apply_event` of edlink_rostering/services/sync_worker.py, and the loop over a page's events.
use edlink_rostering.Base.{
  ℕ, suc, String, Bool, true, false, Option, none, some, List, [], ◌∷◌, mem, if◌then◌else◌, Result,
  ok, ◌>>=◌,
}
use edlink_rostering.Base.Text.{str_leb}
use edlink_rostering.Entities.{NormalizedEvent, entity_id, Failure}
use edlink_rostering.Validation.Pipeline.{ValidationReport}
use edlink_rostering.Validation.Thresholds.{is_deletion}
use edlink_rostering.Database.{Db}
use edlink_rostering.SyncWorker.Reads.{latest_live_source_event_id}
use edlink_rostering.SyncWorker.Writes.{
  Job, write_quarantine_row, mark_prior_snapshot_superseded, insert_snapshot, upsert_canonical,
}

-- `latest is not None and event.source_event_id <= latest`
abbrev pub is_stale : String → Option String → Bool
is_stale id none = false
is_stale id (some latest) = str_leb id latest

-- The three writes of an event that is not stale.
unfoldable pub write_event : Job → NormalizedEvent → Db → Result Failure Db
unfolding mark_prior_snapshot_superseded insert_snapshot
write_event job event db =
    upsert_canonical event.entity_type event.entity (is_deletion event) job.now (
      insert_snapshot job event (is_deletion event)
        (mark_prior_snapshot_superseded job event.entity_type (entity_id event.entity) db))

-- `false` if the event is deduplicated.
unfoldable pub apply_event : Job → NormalizedEvent → Db → Result Failure (Bool × Db)
unfolding write_event latest_live_source_event_id
apply_event job event db =
    if is_stale event.source_event_id
      (latest_live_source_event_id db job.lea_id event.entity_type (entity_id event.entity))
    then ok (false, db)
    else do db' ← write_event job event db; ok (true, db')

-- The counters of the loop.
pub record Tally : Type 0 where
  pub applied : ℕ
  pub skipped : ℕ
  pub quarantined : ℕ

abbrev pub no_events : Tally
no_events = record { applied = 0; skipped = 0; quarantined = 0 }

abbrev pub tally_changed : Bool → Tally → Tally
tally_changed true t = record t { applied = suc t.applied }
tally_changed false t = record t { skipped = suc t.skipped }

-- One round of the loop.
unfoldable pub process_event :
    Job → ValidationReport → NormalizedEvent → Tally × Db → Result Failure (Tally × Db)
unfolding apply_event write_quarantine_row
process_event job report event (t, db) =
    if mem event.event_id report.quarantined_event_ids
    then ok (record t { quarantined = suc t.quarantined }, write_quarantine_row job event db)
    else if mem event.event_id report.ok_event_ids
    then (do r ← apply_event job event db; ok (tally_changed r.0 t, r.1))
    else ok (record t { skipped = suc t.skipped }, db)

unfoldable pub process_events :
    Job → ValidationReport → List NormalizedEvent → Tally × Db → Result Failure (Tally × Db)
process_events job report [] state = ok state
process_events job report (event ∷ rest) state = do
  state' ← process_event job report event state
  process_events job report rest state'
