-- ===== src/SyncWorker/Writes.antt =====
-- The write helpers of edlink_rostering/services/sync_worker.py.
use edlink_rostering.Base.{
  ℕ, suc, String, Bool, false, Option, none, some, List, [], ◌∷◌, ◌++◌, map, eqb, ◌==◌,
  if◌then◌else◌, Result, ok, err,
}
use Prim.Native.String.{◌++◌ as concat}
use edlink_rostering.Entities.{
  EntityType, lea, student, enrollment, LeaType, traditional_district, charter_lea, charter_cmo,
  boces, state_agency, DateField, day, naive, aware, not_a_date, CanonicalEntity, of_lea,
  of_student, of_enrollment, NormalizedEvent, Cursor, entity_id, Failure, assertion_error,
}
use edlink_rostering.Validation.Issues.{ValidationIssue}
use edlink_rostering.Database.{
  Db, Json, null, text, iso_date, iso_naive, iso_aware, texts, Payload, Snapshot, running, success,
  failed, ErrorSummary, CursorRow, update_where, upsert, set_snapshots, upsert_lea, upsert_student,
  upsert_enrollment,
}
use edlink_rostering.SyncWorker.Reads.{is_cursor_of, is_live_at}

-- What the writes of one page share.
pub record Job : Type 0 where
  pub sync_job_id : ℕ
  pub lea_id : String
  pub partner : String
  pub now : ℕ

unfoldable pub insert_sync_job_running : Job → String → Db → Db
insert_sync_job_running job cursor_before db = record db {
  sync_jobs =
      db.sync_jobs
      ++ (record {
        id = job.sync_job_id;
        lea_id = job.lea_id;
        partner = job.partner;
        status = running;
        started_at = job.now;
        completed_at = none;
        event_count = 0;
        error_count = 0;
        warning_count = 0;
        cursor_before = some cursor_before;
        cursor_after = none;
        error_summary = none;
      })
        ∷ [];
}

unfoldable pub persist_validation_issues : Job → List ValidationIssue → Db → Db
persist_validation_issues job issues db = record db {
  validation_results =
      db.validation_results
      ++ map (λ i. record { sync_job_id = job.sync_job_id; issue = i; created_at = job.now })
          issues;
}

unfoldable pub mark_sync_job_failed : Job → ℕ → ℕ → ErrorSummary → Db → Db
mark_sync_job_failed job errors warnings summary db = record db {
  sync_jobs =
      update_where (λ j. eqb j.id job.sync_job_id)
        (λ j. record j {
          status = failed;
          completed_at = some job.now;
          error_count = errors;
          warning_count = warnings;
          error_summary = some summary;
        })
        db.sync_jobs;
}

unfoldable pub mark_sync_job_success : Job → ℕ → ℕ → ℕ → String → Db → Db
mark_sync_job_success job events errors warnings cursor_after db = record db {
  sync_jobs =
      update_where (λ j. eqb j.id job.sync_job_id)
        (λ j. record j {
          status = success;
          completed_at = some job.now;
          event_count = events;
          error_count = errors;
          warning_count = warnings;
          cursor_after = some cursor_after;
        })
        db.sync_jobs;
}

-- `cursor.value or None`
abbrev pub non_empty : String → Option String
non_empty s = if s == "" then none else some s

-- The row that is inserted, and what `DO UPDATE SET` makes of the one that is there.
abbrev pub cursor_row : Job → Cursor → CursorRow
cursor_row job cursor = record {
  lea_id = job.lea_id;
  partner = job.partner;
  last_event_id = non_empty cursor.value;
  last_event_at = cursor.observed_at;
  last_poll_at = some job.now;
  cold_start_required = false;
  updated_at = job.now;
}

abbrev pub advance_row : Job → Cursor → CursorRow → CursorRow
advance_row job cursor r = record r {
  last_event_id = non_empty cursor.value;
  last_event_at = cursor.observed_at;
  last_poll_at = some job.now;
  updated_at = job.now;
}

unfoldable pub upsert_cursor_state : Job → Cursor → Db → Db
upsert_cursor_state job cursor db = record db {
  cursor_state =
      upsert (is_cursor_of job.lea_id job.partner) (cursor_row job cursor) (advance_row job cursor)
        db.cursor_state;
}

abbrev pub lea_type_value : LeaType → String
lea_type_value traditional_district = "traditional_district"
lea_type_value charter_lea = "charter_lea"
lea_type_value charter_cmo = "charter_cmo"
lea_type_value boces = "boces"
lea_type_value state_agency = "state_agency"

abbrev pub optional_json : Option String → Json
optional_json none = null
optional_json (some s) = text s

-- Layer 3 keeps what is no date away from the writes.
abbrev pub date_json : DateField → Json
date_json (day d) = iso_date d
date_json (naive t) = iso_naive t
date_json (aware t) = iso_aware t
date_json not_a_date = null

abbrev pub optional_date_json : Option DateField → Json
optional_date_json none = null
optional_date_json (some d) = date_json d

-- `_entity_payload`: `asdict` of the entity, with dates and enums as texts.
unfoldable pub entity_payload : CanonicalEntity → Payload
entity_payload (of_lea l) =
    ("id", text l.id)
    ∷ ("name", text l.name)
    ∷ ("lea_type", text (lea_type_value l.lea_type))
    ∷ ("state", text l.state)
    ∷ ("nces_lea_id", optional_json l.nces_lea_id)
    ∷ []
entity_payload (of_student s) =
    ("id", text s.id)
    ∷ ("lea_id", text s.lea_id)
    ∷ ("given_name", text s.given_name)
    ∷ ("family_name", text s.family_name)
    ∷ ("grade", optional_json s.grade)
    ∷ ("preferred_first_name", optional_json s.preferred_first_name)
    ∷ ("primary_school_id", optional_json s.primary_school_id)
    ∷ ("external_ids", texts s.external_ids)
    ∷ []
entity_payload (of_enrollment r) =
    ("id", text r.id)
    ∷ ("lea_id", text r.lea_id)
    ∷ ("student_id", text r.student_id)
    ∷ ("class_id", text r.class_id)
    ∷ ("begin_date", date_json r.begin_date)
    ∷ ("end_date", optional_date_json r.end_date)
    ∷ []

unfoldable pub write_quarantine_row : Job → NormalizedEvent → Db → Db
unfolding entity_payload
write_quarantine_row job event db = record db {
  quarantine =
      db.quarantine
      ++ (record {
        id = db.fresh;
        sync_job_id = job.sync_job_id;
        lea_id = job.lea_id;
        entity_type = event.entity_type;
        entity_id = entity_id event.entity;
        reason = "Layer 4: referential dependency unresolved";
        raw_payload =
            entity_payload event.entity ++ ("source_event_id", text event.source_event_id) ∷ [];
        created_at = job.now;
        resolved_at = none;
        resolution_status = none;
        resolution_operator = none;
      })
        ∷ [];
  fresh = suc db.fresh;
}

-- `INSERT INTO leas ... ON CONFLICT (id) DO NOTHING`
unfoldable pub ensure_lea_exists : String → Db → Db
ensure_lea_exists lea_id db = record db {
  leas =
      upsert (λ r. r.lea.id == lea_id)
        (record {
          lea = record {
            id = lea_id;
            name = concat "LEA " lea_id;
            lea_type = traditional_district;
            state = "XX";
            nces_lea_id = none;
          };
          deleted_at = none;
        })
        (λ r. r) db.leas;
}

unfoldable pub mark_prior_snapshot_superseded : Job → EntityType → String → Db → Db
mark_prior_snapshot_superseded job entity_type natural_key db =
    set_snapshots entity_type
      (update_where (is_live_at job.lea_id natural_key)
        (λ s. record s {
          superseded_by_generation_id = some job.sync_job_id;
          superseded_at = some job.now;
        })
        (db.snapshots entity_type))
      db

-- The tenant column of a snapshot: an LEA's is its natural key.
abbrev pub snapshot_lea : EntityType → Job → String → String
snapshot_lea lea job natural_key = natural_key
snapshot_lea _ job natural_key = job.lea_id

abbrev pub new_snapshot : Job → NormalizedEvent → Bool → ℕ → Snapshot
new_snapshot job event deleted_upstream id = record {
  snapshot_id = id;
  natural_key = entity_id event.entity;
  lea_id = snapshot_lea event.entity_type job (entity_id event.entity);
  generation_id = job.sync_job_id;
  superseded_by_generation_id = none;
  superseded_at = none;
  deleted_upstream = deleted_upstream;
  source_event_id = some event.source_event_id;
  source_event_at = some event.occurred_at;
  created_at = job.now;
  payload = entity_payload event.entity;
}

unfoldable pub insert_snapshot : Job → NormalizedEvent → Bool → Db → Db
insert_snapshot job event deleted_upstream db =
    record (set_snapshots event.entity_type
      (db.snapshots event.entity_type ++ new_snapshot job event deleted_upstream db.fresh ∷ [])
      db) { fresh = suc db.fresh }

abbrev pub deleted_at_of : Bool → ℕ → Option ℕ
deleted_at_of deleted_upstream now = if deleted_upstream then some now else none

-- `_upsert_canonical` with the three upserts; each asserts the class of the entity.
unfoldable pub upsert_canonical : EntityType → CanonicalEntity → Bool → ℕ → Db → Result Failure Db
unfolding upsert_lea upsert_student upsert_enrollment
upsert_canonical student (of_student s) deleted_upstream now db =
    upsert_student (record { student = s; deleted_at = deleted_at_of deleted_upstream now }) db
upsert_canonical enrollment (of_enrollment r) deleted_upstream now db =
    upsert_enrollment (record { enrollment = r; deleted_at = deleted_at_of deleted_upstream now })
      db
upsert_canonical lea (of_lea l) deleted_upstream now db =
    ok (upsert_lea (record { lea = l; deleted_at = deleted_at_of deleted_upstream now }) db)
upsert_canonical _ _ deleted_upstream now db = err assertion_error
