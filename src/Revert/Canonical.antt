-- ===== src/Revert/Canonical.antt =====
-- What a revert does to the canonical tables: a row is deleted softly, or rewound to a payload.
use edlink_rostering.Base.{
  ℕ, String, not, ◌&&◌, ◌||◌, Option, none, some, List, [], ◌∷◌, any, ◌==◌, if◌then◌else◌, Result,
  ok, err, ◌>>=◌,
}
use edlink_rostering.Entities.{
  EntityType, lea, student, enrollment, LeaType, traditional_district, charter_lea, charter_cmo,
  boces, state_agency, Lea, Student, Enrollment, DateField, day, Failure, integrity_error,
}
use edlink_rostering.Database.{
  Db, Json, null, text, iso_date, texts, Payload, LeaRow, StudentRow, EnrollmentRow, update_where,
  has_lea, has_student, moves_referenced,
}

-- The exceptions of the service, and what the database or the date parser raises.
pub data RevertError : Type 0 where
  sync_job_not_found refused value_error : RevertError
  raised : Failure → RevertError

unfoldable pub soft_delete_canonical : EntityType → String → ℕ → Db → Db
soft_delete_canonical student key now db = record db {
  students =
      update_where (λ r. r.student.id == key) (λ r. record r { deleted_at = some now }) db.students;
}
soft_delete_canonical enrollment key now db = record db {
  enrollments =
      update_where (λ r. r.enrollment.id == key) (λ r. record r { deleted_at = some now })
        db.enrollments;
}
soft_delete_canonical lea key now db = record db {
  leas = update_where (λ r. r.lea.id == key) (λ r. record r { deleted_at = some now }) db.leas;
}

-- `payload.get(key, fallback)`: the worker writes a text, a null or an object.
abbrev pub get_or : Json → Payload → String → Json
get_or fallback [] key = fallback
get_or fallback ((k, v) ∷ payload) key =
    let later = get_or fallback payload key in if k == key then v else later

abbrev pub as_text : Json → Option String
as_text (text s) = some s
as_text _ = none

abbrev pub as_texts : Json → List (String × String)
as_texts (texts xs) = xs
as_texts _ = []

-- `_parse_iso_date`, on the JSON that the worker writes.
abbrev pub as_date : Json → Result RevertError (Option DateField)
as_date null = ok none
as_date (iso_date d) = ok (some (day d))
as_date _ = err value_error

-- A column that may not be null.
abbrev pub not_null {ℓ} : {A : Type ℓ} → Option A → Result RevertError A
not_null none = err (raised integrity_error)
not_null (some a) = ok a

-- The type of an LEA by its text. The column takes any text; the worker writes these.
abbrev pub as_lea_type : String → Result RevertError LeaType
as_lea_type s =
    if s == "traditional_district"
    then ok traditional_district
    else if s == "charter_lea"
    then ok charter_lea
    else if s == "charter_cmo"
    then ok charter_cmo
    else if s == "boces"
    then ok boces
    else if s == "state_agency"
    then ok state_agency
    else err value_error

abbrev pub student_of : String → String → Payload → Result RevertError Student
student_of key lea_id payload = do
  home ← not_null (as_text (get_or (text lea_id) payload "lea_id"))
  given ← not_null (as_text (get_or (text "") payload "given_name"))
  family ← not_null (as_text (get_or (text "") payload "family_name"))
  ok (record {
    id = key;
    lea_id = home;
    given_name = given;
    family_name = family;
    grade = as_text (get_or null payload "grade");
    preferred_first_name = as_text (get_or null payload "preferred_first_name");
    primary_school_id = as_text (get_or null payload "primary_school_id");
    external_ids = as_texts (get_or null payload "external_ids");
  })

abbrev pub enrollment_of :
    String → String → Payload → Option DateField → Option DateField → Result RevertError Enrollment
enrollment_of key lea_id payload begin end = do
  home ← not_null (as_text (get_or (text lea_id) payload "lea_id"))
  student_id ← not_null (as_text (get_or null payload "student_id"))
  class_id ← not_null (as_text (get_or null payload "class_id"))
  begin_date ← not_null begin
  ok (record {
    id = key;
    lea_id = home;
    student_id = student_id;
    class_id = class_id;
    begin_date = begin_date;
    end_date = end;
  })

abbrev pub lea_of : String → Payload → Result RevertError Lea
lea_of key payload = do
  name ← not_null (as_text (get_or (text "") payload "name"))
  type_text ← not_null (as_text (get_or (text "traditional_district") payload "lea_type"))
  lea_type ← as_lea_type type_text
  state ← not_null (as_text (get_or (text "XX") payload "state"))
  ok (record {
    id = key;
    name = name;
    lea_type = lea_type;
    state = state;
    nces_lea_id = as_text (get_or null payload "nces_lea_id");
  })

-- The three UPDATE statements, with the foreign keys.
abbrev pub update_student : StudentRow → Db → Result RevertError Db
update_student row db =
    if not (has_lea db row.student.lea_id) || moves_referenced db row.student
    then err (raised integrity_error)
    else ok (record db {
      students = update_where (λ r. r.student.id == row.student.id) (λ r. row) db.students;
    })

abbrev pub update_enrollment : EnrollmentRow → Db → Result RevertError Db
update_enrollment row db =
    if has_lea db row.enrollment.lea_id
      && has_student db row.enrollment.lea_id row.enrollment.student_id
    then ok (record db {
      enrollments =
          update_where (λ r. r.enrollment.id == row.enrollment.id) (λ r. row) db.enrollments;
    })
    else err (raised integrity_error)

abbrev pub update_lea : LeaRow → Db → Result RevertError Db
update_lea row db =
    ok (record db { leas = update_where (λ r. r.lea.id == row.lea.id) (λ r. row) db.leas })

-- An UPDATE that meets no row does nothing, so that no column can be null.
abbrev pub restore_student : String → String → Payload → Option ℕ → Db → Result RevertError Db
restore_student key lea_id payload deleted_at db =
    if any (λ r. r.student.id == key) db.students
    then student_of key lea_id payload
      >>= (λ s. update_student (record { student = s; deleted_at = deleted_at }) db)
    else ok db

abbrev pub restore_enrollment : String → String → Payload → Option ℕ → Db → Result RevertError Db
restore_enrollment key lea_id payload deleted_at db = do
  begin ← as_date (get_or null payload "begin_date")
  end ← as_date (get_or null payload "end_date")
  if any (λ r. r.enrollment.id == key) db.enrollments
      then enrollment_of key lea_id payload begin end
        >>= (λ e. update_enrollment (record { enrollment = e; deleted_at = deleted_at }) db)
      else ok db

abbrev pub restore_lea : String → Payload → Option ℕ → Db → Result RevertError Db
restore_lea key payload deleted_at db =
    if any (λ r. r.lea.id == key) db.leas
    then lea_of key payload >>= (λ l. update_lea (record { lea = l; deleted_at = deleted_at }) db)
    else ok db

unfoldable pub restore_canonical_from_payload :
    EntityType → String → String → Payload → Option ℕ → Db → Result RevertError Db
restore_canonical_from_payload student key lea_id payload deleted_at db =
    restore_student key lea_id payload deleted_at db
restore_canonical_from_payload enrollment key lea_id payload deleted_at db =
    restore_enrollment key lea_id payload deleted_at db
restore_canonical_from_payload lea key lea_id payload deleted_at db =
    restore_lea key payload deleted_at db
