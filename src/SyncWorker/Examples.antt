-- ===== src/SyncWorker/Examples.antt =====
-- The theorems about the sync worker on a small page.
use edlink_rostering.Base.{
  ◌+◌, ◌≤◌, ◌≡◌, refl, false, none, some, List, [], ◌∷◌, arith, length, Memᴰ, ok,
}
use edlink_rostering.Entities.{student, NormalizedEvent}
use edlink_rostering.Validation.Pipeline.{ValidationReport, run_layer, run_pipeline}
use edlink_rostering.Validation.Schema.{check_schema}
use edlink_rostering.Validation.Parse.{check_parse}
use edlink_rostering.Validation.Referential.{
  check_referential, orphan_ref, student_ref, route, add_known,
}
use edlink_rostering.Validation.Thresholds.{check_thresholds}
use edlink_rostering.Database.{Db, success, failed}
use edlink_rostering.SyncWorker.Reads.{read_cursor}
use edlink_rostering.SyncWorker.Writes.{Job, ensure_lea_exists, upsert_canonical}
use edlink_rostering.SyncWorker.Events.{
  Tally, no_events, process_event, process_events, write_event,
}
use edlink_rostering.SyncWorker.Live.{SingleLive, OwnLea}
use edlink_rostering.SyncWorker.HighWater.{mark, mark-write_event}
use edlink_rostering.SyncWorker.Replay.{all_skipped, replay_changes_nothing}
use edlink_rostering.SyncWorker.Pages.{
  PageOutcome, Committed, Connector, process_one_page, drain_lea, page_report,
}
use edlink_rostering.SyncWorker.Commits.{
  status-process_one_page, successful_page_counts, read_cursor-process_one_page,
}
use edlink_rostering.SyncWorker.Drains.{
  Chained, GoesOn, drain_lea-stops, drain_lea-Chained, drain_lea-SingleLive,
}
use edlink_rostering.Database.History.{Later}
use edlink_rostering.SyncWorker.Blocked.{failed_outcome, audited, blocked, blocked_drain_is_audited}
use edlink_rostering.SyncWorker.History.{drain_lea-Later}
use edlink_rostering.SyncWorker.Tenants.{SameTenant}
use edlink_rostering.SyncWorker.Isolation.{drain_lea-SameTenant}
use edlink_rostering.Scenario.{ada_created, ada_enrolled, small_page, bad_page, empty_db, one_page}

abbrev small : Connector
small = one_page small_page

abbrev bad : Connector
bad = one_page bad_page

no_outcome : PageOutcome
no_outcome = record {
  sync_job_id = 0;
  lea_id = "";
  status = failed;
  cursor_before = "";
  cursor_after = "";
  event_count = 0;
  skipped_count = 0;
  quarantined_count = 0;
  error_count = 0;
  warning_count = 0;
  has_more = false;
}

nothing : Committed
nothing = record {
  outcome = no_outcome;
  report = record {
    issues = [];
    ok_event_ids = [];
    quarantined_event_ids = [];
    page_blocked = false;
  };
  error_summary = none;
  db = empty_db;
}

-- What the page of a connector commits for the LEA "l1".
abbrev commit_of : Connector → Db → Committed
commit_of connector db = elim (process_one_page connector "l1" 100 db) [ ok c ↦ c | _ ↦ nothing ]

small_commits : process_one_page small "l1" 100 empty_db ≡ ok (commit_of small empty_db)
unfolding process_one_page run_pipeline check_referential run_layer check_schema check_parse
    orphan_ref student_ref route add_known check_thresholds process_event upsert_canonical
small_commits = refl

bad_commits : process_one_page bad "l1" 100 empty_db ≡ ok (commit_of bad empty_db)
unfolding process_one_page run_pipeline
bad_commits = refl

status-process_one_page_example : (commit_of bad empty_db).outcome.status ≡ failed
status-process_one_page_example = status-process_one_page bad "l1" 100 empty_db bad_commits

blocked_drain_is_audited_example : drain_lea bad none (λ n. n) 5 "l1" empty_db ≡ record {
  outcomes = failed_outcome bad "l1" empty_db ∷ [];
  reports = page_report (blocked bad "l1" 4 empty_db) ∷ [];
  db = audited bad "l1" 4 empty_db;
  failure = none;
}
blocked_drain_is_audited_example =
    blocked_drain_is_audited bad "l1" 4 empty_db refl refl none (λ n. n) 4 (λ e. cc) refl

small_succeeds : (commit_of small empty_db).outcome.status ≡ success
small_succeeds = status-process_one_page small "l1" 100 empty_db small_commits

successful_page_counts_example :
    (commit_of small empty_db).outcome.event_count
      + (commit_of small empty_db).outcome.skipped_count
      + (commit_of small empty_db).outcome.quarantined_count
    ≡ 3
successful_page_counts_example =
    successful_page_counts small "l1" 100 empty_db small_commits small_succeeds

read_cursor-process_one_page_example :
    read_cursor (commit_of small empty_db).db "l1" "edlink" ≡ small_page.next_cursor
read_cursor-process_one_page_example =
    read_cursor-process_one_page small "l1" 100 empty_db small_commits

no_snapshots : SingleLive empty_db
no_snapshots t lea_id natural_key = omega arith

-- No event of the page is about an LEA.
own_events : (e : NormalizedEvent) → Memᴰ e small_page.events → OwnLea "l1" e
own_events e (Memᴰ.head here) is_lea = ground (arith, here)
own_events e (Memᴰ.tail (Memᴰ.head here)) is_lea = ground (arith, here)
own_events e (Memᴰ.tail (Memᴰ.tail (Memᴰ.head here))) is_lea = ground (arith, here)
own_events e (Memᴰ.tail (Memᴰ.tail (Memᴰ.tail m))) is_lea = elim m [ ]

drain_lea-stops_example :
    (length (drain_lea small none (λ n. n) 5 "l1" empty_db).outcomes ≤ 5)
    × GoesOn (drain_lea small none (λ n. n) 5 "l1" empty_db).outcomes
drain_lea-stops_example = drain_lea-stops small none (λ n. n) 5 "l1" empty_db

drain_lea-Chained_example :
    Chained ""
      (drain_lea small none (λ n. n) 5 "l1" empty_db).outcomes
      (read_cursor (drain_lea small none (λ n. n) 5 "l1" empty_db).db "l1" "edlink").value
unfolding read_cursor
drain_lea-Chained_example = drain_lea-Chained small none (λ n. n) 5 "l1" empty_db

drain_lea-SingleLive_example : SingleLive (drain_lea small none (λ n. n) 5 "l1" empty_db).db
drain_lea-SingleLive_example =
    drain_lea-SingleLive small none (λ n. n) 5 "l1" empty_db (λ now cursor. own_events) no_snapshots

abbrev two_events : List NormalizedEvent
two_events = ada_created ∷ ada_enrolled ∷ []

abbrev two_cleared : ValidationReport
two_cleared = record {
  issues = [];
  ok_event_ids = "0001" ∷ "0002" ∷ [];
  quarantined_event_ids = [];
  page_blocked = false;
}

abbrev first_job : Job
first_job = record { sync_job_id = 50; lea_id = "l1"; partner = "edlink"; now = 100 }

abbrev second_job : Job
second_job = record { sync_job_id = 60; lea_id = "l1"; partner = "edlink"; now = 200 }

abbrev start_db : Db
start_db = ensure_lea_exists "l1" empty_db

abbrev two_done : Tally × Db
two_done = elim (process_events first_job two_cleared two_events (no_events, start_db)) [
  | ok done ↦ done
  | _ ↦ (no_events, start_db)
]

two_processed : process_events first_job two_cleared two_events (no_events, start_db) ≡ ok two_done
unfolding process_events process_event ensure_lea_exists upsert_canonical
two_processed = refl

two_own : (e : NormalizedEvent) → Memᴰ e two_events → OwnLea "l1" e
two_own e (Memᴰ.head here) is_lea = ground (arith, here)
two_own e (Memᴰ.tail (Memᴰ.head here)) is_lea = ground (arith, here)
two_own e (Memᴰ.tail (Memᴰ.tail m)) is_lea = elim m [ ]

replay_changes_nothing_example :
    process_events second_job two_cleared two_events (no_events, two_done.1)
    ≡ ok (all_skipped no_events two_events, two_done.1)
replay_changes_nothing_example =
    replay_changes_nothing first_job second_job two_cleared two_cleared two_events no_events
      no_events start_db refl two_own (λ e m. refl) (λ e m fine. (refl, fine)) two_processed

abbrev ada_written : Db
ada_written = elim (write_event first_job ada_created start_db) [ ok db ↦ db | _ ↦ start_db ]

ada_is_written : write_event first_job ada_created start_db ≡ ok ada_written
unfolding write_event upsert_canonical ensure_lea_exists
ada_is_written = refl

mark-write_event_example : mark "l1" ada_written student "s1" ≡ some "0001"
mark-write_event_example =
    mark-write_event first_job ada_created start_db student "s1"
      (two_own ada_created (Memᴰ.head refl)) ada_is_written

drain_lea-Later_example : Later empty_db (drain_lea small none (λ n. n) 5 "l1" empty_db).db
drain_lea-Later_example = drain_lea-Later small none (λ n. n) 5 "l1" empty_db

drain_lea-SameTenant_example :
    SameTenant "l2" empty_db (drain_lea small none (λ n. n) 5 "l1" empty_db).db
drain_lea-SameTenant_example =
    drain_lea-SameTenant small none (λ n. n) 5 "l1" empty_db "l2" refl (λ now cursor. own_events)
