-- ===== src/SyncWorker/Reads.antt =====
-- The read helpers of edlink_rostering/services/sync_worker.py.
use edlink_rostering.Base.{
  ℕ, ◌+◌, String, Bool, true, false, ◌&&◌, Option, none, some, List, [], ◌∷◌, map, keep, count,
  find, take, leb, eqb, ◌==◌, if◌then◌else◌,
}
use edlink_rostering.Base.Text.{str_leb}
use edlink_rostering.Entities.{EntityType, lea, student, enrollment, Cursor}
use edlink_rostering.Database.{Db, CursorRow, Snapshot, SyncJob, StudentRow, success, is_live}

abbrev pub is_cursor_of : String → String → CursorRow → Bool
is_cursor_of lea_id partner r = r.lea_id == lea_id && r.partner == partner

abbrev pub cursor_of_row : Option CursorRow → Cursor
cursor_of_row none = record { value = ""; observed_at = none }
cursor_of_row (some r) = record {
  value = elim r.last_event_id [ none ↦ "" | some v ↦ v ];
  observed_at = r.last_event_at;
}

unfoldable pub read_cursor : Db → String → String → Cursor
read_cursor db lea_id partner = cursor_of_row (find (is_cursor_of lea_id partner) db.cursor_state)

-- Soft-deleted students are among them.
unfoldable pub read_known_student_ids : Db → String → List String
read_known_student_ids db lea_id =
    map (λ r. r.student.id) (keep (λ r. r.student.lea_id == lea_id) db.students)

abbrev pub is_live_student : String → StudentRow → Bool
is_live_student lea_id r =
    r.student.lea_id == lea_id && elim r.deleted_at [ none ↦ true | some _ ↦ false ]

unfoldable pub read_live_student_count : Db → String → ℕ
read_live_student_count db lea_id = count (is_live_student lea_id) db.students

abbrev pub is_success : SyncJob → Bool
is_success j = elim j.status [ success ↦ true | _ ↦ false ]

-- `ORDER BY started_at DESC`
insert_job : SyncJob → List SyncJob → List SyncJob
insert_job j [] = j ∷ []
insert_job j (k ∷ ks) = if leb k.started_at j.started_at then j ∷ k ∷ ks else k ∷ insert_job j ks

newest_first : List SyncJob → List SyncJob
unfolding insert_job
newest_first [] = []
newest_first (j ∷ js) = insert_job j (newest_first js)

abbrev is_deletion_of : ℕ → Snapshot → Bool
is_deletion_of job_id s = eqb s.generation_id job_id && s.deleted_upstream

-- The rows that a job wrote with `deleted_upstream`, over the three snapshot tables.
deletions_of : Db → ℕ → ℕ
deletions_of db job_id =
    count (is_deletion_of job_id) (db.snapshots student)
    + count (is_deletion_of job_id) (db.snapshots enrollment)
    + count (is_deletion_of job_id) (db.snapshots lea)

-- The numbers of events and of deletions of the last 30 successful jobs.
unfoldable pub read_recent_sync_history : Db → String → String → List ℕ × List ℕ
unfolding newest_first deletions_of
read_recent_sync_history db lea_id partner =
    let jobs = take 30 (
      newest_first
        (keep (λ j. j.lea_id == lea_id && (j.partner == partner && is_success j)) db.sync_jobs)) in
    (map (λ j. j.event_count) jobs, map (λ j. deletions_of db j.id) jobs)

-- The live snapshots of one natural key.
abbrev pub is_live_at : String → String → Snapshot → Bool
is_live_at lea_id natural_key s = s.natural_key == natural_key && (s.lea_id == lea_id && is_live s)

abbrev pub later_id : String → Option String → String
later_id s none = s
later_id s (some t) = if str_leb s t then t else s

-- `ORDER BY source_event_id DESC NULLS LAST LIMIT 1`
unfoldable pub highest : List Snapshot → Option String
highest [] = none
highest (s ∷ rest) = elim s.source_event_id [
  | none ↦ highest rest
  | some id ↦ some (later_id id (highest rest))
]

-- `_latest_live_source_event_id`: the high-water mark of a natural key.
unfoldable pub latest_live_source_event_id : Db → String → EntityType → String → Option String
unfolding highest
latest_live_source_event_id db lea_id entity_type natural_key =
    highest (keep (is_live_at lea_id natural_key) (db.snapshots entity_type))
