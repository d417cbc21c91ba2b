-- ===== src/Database.antt =====
-- The tables: edlink_rostering/infrastructure/db/models.py and alembic/versions. A table is the list
-- of its rows, oldest first. A UUID, drawn by `uuid.uuid4()` or by `gen_random_uuid()`, is a number
-- from the counter `fresh`. Texts are ordered by code points, as under the C collation.
mod Queries
pub mod History
pub use Queries.*
use edlink_rostering.Base.{
  ℕ, suc, ◌+◌, String, Bool, true, false, not, ◌&&◌, ◌||◌, Option, none, some, List, [], ◌∷◌, ◌++◌,
  any, ◌==◌, if◌then◌else◌, Result, ok, err,
}
use edlink_rostering.Entities.{
  EntityType, lea, student, enrollment, same_type, Lea, Student, Enrollment, Failure,
  integrity_error,
}
use edlink_rostering.Validation.Issues.{ValidationIssue}

pub record LeaRow : Type 0 where
  pub lea : Lea
  pub deleted_at : Option ℕ

pub record StudentRow : Type 0 where
  pub student : Student
  pub deleted_at : Option ℕ

pub record EnrollmentRow : Type 0 where
  pub enrollment : Enrollment
  pub deleted_at : Option ℕ

-- The values of a JSON payload. `iso_date` is the text of a day,
-- `iso_naive` and `iso_aware` are those of a `datetime`, and `texts` an object of texts.
pub data Json : Type 0 where
  null : Json
  text : String → Json
  iso_date iso_naive iso_aware : ℕ → Json
  texts : List (String × String) → Json

-- A JSON object, by its keys.
abbrev pub Payload : Type 0
Payload = List (String × Json)

-- The row of a snapshot table. In `lea_snapshots` the natural key is the column `lea_id`.
pub record Snapshot : Type 0 where
  pub snapshot_id : ℕ
  pub natural_key : String
  pub lea_id : String
  pub generation_id : ℕ
  pub superseded_by_generation_id : Option ℕ
  pub superseded_at : Option ℕ
  pub deleted_upstream : Bool
  pub source_event_id : Option String
  pub source_event_at : Option ℕ
  pub created_at : ℕ
  pub payload : Payload

pub data JobStatus : Type 0 where
  running success failed revert quarantine_release : JobStatus

-- The text of `error_summary`, by its parts: the issues that a failed page names and the number of
-- the others, or the row that an operator's action was about.
pub data ErrorSummary : Type 0 where
  page_errors : List (ℕ × String × Option String) → ℕ → ErrorSummary
  revert_of : ℕ → ErrorSummary
  release_of : ℕ → ErrorSummary

pub record SyncJob : Type 0 where
  pub id : ℕ
  pub lea_id : String
  pub partner : String
  pub status : JobStatus
  pub started_at : ℕ
  pub completed_at : Option ℕ
  pub event_count : ℕ
  pub error_count : ℕ
  pub warning_count : ℕ
  pub cursor_before : Option String
  pub cursor_after : Option String
  pub error_summary : Option ErrorSummary

pub record ValidationResult : Type 0 where
  pub sync_job_id : ℕ
  pub issue : ValidationIssue
  pub created_at : ℕ

pub data Resolution : Type 0 where
  released rejected : Resolution

pub record Quarantined : Type 0 where
  pub id : ℕ
  pub sync_job_id : ℕ
  pub lea_id : String
  pub entity_type : EntityType
  pub entity_id : String
  pub reason : String
  pub raw_payload : Payload
  pub created_at : ℕ
  pub resolved_at : Option ℕ
  pub resolution_status : Option Resolution
  pub resolution_operator : Option String

-- The table of alembic/versions/2026_05_21_0003_snapshot_immutability_and_retry.py.
pub record RetryAction : Type 0 where
  pub id : ℕ
  pub sync_job_id : ℕ
  pub lea_id : String
  pub partner : String
  pub operator_identity : String
  pub reason : String
  pub retried_at : ℕ
  pub cursor_rewound_to : Option String
  pub forced : Bool

pub record CursorRow : Type 0 where
  pub lea_id : String
  pub partner : String
  pub last_event_id : Option String
  pub last_event_at : Option ℕ
  pub last_poll_at : Option ℕ
  pub cold_start_required : Bool
  pub updated_at : ℕ

pub record Db : Type 0 where
  pub leas : List LeaRow
  pub students : List StudentRow
  pub enrollments : List EnrollmentRow
  pub snapshots : EntityType → List Snapshot
  pub sync_jobs : List SyncJob
  pub validation_results : List ValidationResult
  pub quarantine : List Quarantined
  pub cursor_state : List CursorRow
  pub retry_actions : List RetryAction
  pub fresh : ℕ

-- One snapshot table is replaced, the two others stay.
abbrev pub set_snapshots : EntityType → List Snapshot → Db → Db
set_snapshots t rows db = record db {
  snapshots = λ u. if same_type u t then rows else db.snapshots u;
}

abbrev pub is_live : Snapshot → Bool
is_live s = elim s.superseded_by_generation_id [ none ↦ true | some _ ↦ false ]

abbrev pub has_lea : Db → String → Bool
has_lea db id = any (λ r. r.lea.id == id) db.leas

-- A row of `students` with this tenant and this id: what `fk_enrollments_lea_student` refers to.
abbrev pub has_student : Db → String → String → Bool
has_student db lea_id id = any (λ r. r.student.id == id && r.student.lea_id == lea_id) db.students

-- Is a row of `enrollments` left without its student, if the student leaves this tenant?
abbrev pub is_referenced : Db → String → String → Bool
is_referenced db lea_id id =
    any (λ r. r.enrollment.student_id == id && r.enrollment.lea_id == lea_id) db.enrollments

-- The rows of a student that the new tenant would take away from enrollments that refer to them.
abbrev pub moves_referenced : Db → Student → Bool
moves_referenced db s =
    any
      (λ r.
        r.student.id == s.id
        && not (r.student.lea_id == s.lea_id)
        && is_referenced db r.student.lea_id s.id)
      db.students

-- `INSERT INTO leas ... ON CONFLICT (id) DO UPDATE`
unfoldable pub upsert_lea : LeaRow → Db → Db
upsert_lea row db = record db { leas = upsert (λ r. r.lea.id == row.lea.id) row (λ r. row) db.leas }

-- `INSERT INTO students ... ON CONFLICT (id) DO UPDATE`, with the foreign keys of the table and of
-- the enrollments that refer to it.
unfoldable pub upsert_student : StudentRow → Db → Result Failure Db
upsert_student row db =
    if not (has_lea db row.student.lea_id) || moves_referenced db row.student
    then err integrity_error
    else ok (record db {
      students = upsert (λ r. r.student.id == row.student.id) row (λ r. row) db.students;
    })

-- `INSERT INTO enrollments ... ON CONFLICT (id) DO UPDATE`, with the foreign keys of the table.
unfoldable pub upsert_enrollment : EnrollmentRow → Db → Result Failure Db
upsert_enrollment row db =
    let e = row.enrollment in
    if has_lea db e.lea_id && has_student db e.lea_id e.student_id
    then ok (record db {
      enrollments =
          upsert (λ r. r.enrollment.id == row.enrollment.id) row (λ r. row) db.enrollments;
    })
    else err integrity_error
