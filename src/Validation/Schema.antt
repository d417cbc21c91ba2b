-- ===== src/Validation/Schema.antt =====
-- edlink_rostering/services/validation/layer_2_schema.py. A generator is the list of what it yields.
use edlink_rostering.Base.{
  String, ◌≡◌, ◌≢◌, ◌↔◌, not, some, List, [], ◌∷◌, ◌++◌, arith, ◌==◌, eq_iff,
}
use edlink_rostering.Entities.{
  EntityType, lea, student, enrollment, Student, Enrollment, CanonicalEntity, of_lea, of_student,
  of_enrollment, NormalizedEvent, type_name,
}
use edlink_rostering.Validation.Issues.{Value, text, error, ValidationIssue, issue, yield_if}

abbrev schema_error : String → List (String × Value) → NormalizedEvent → ValidationIssue
schema_error code detail event = issue 2 code error detail (some event.event_id)

unfoldable pub check_student : NormalizedEvent → Student → List ValidationIssue
check_student event s =
    yield_if (s.id == "") (schema_error "STUDENT_MISSING_ID" [] event)
    ++ yield_if (s.given_name == "")
        (schema_error "STUDENT_MISSING_GIVEN_NAME" (("student_id", text s.id) ∷ []) event)
    ++ yield_if (s.family_name == "")
        (schema_error "STUDENT_MISSING_FAMILY_NAME" (("student_id", text s.id) ∷ []) event)
    ++ yield_if (not (s.lea_id == event.lea_id)) (
        schema_error "STUDENT_LEA_ID_MISMATCH"
          (("student_id", text s.id)
            ∷ ("entity_lea_id", text s.lea_id)
            ∷ ("envelope_lea_id", text event.lea_id)
            ∷ [])
          event)

unfoldable pub check_enrollment : NormalizedEvent → Enrollment → List ValidationIssue
check_enrollment event r =
    yield_if (r.id == "") (schema_error "ENROLLMENT_MISSING_ID" [] event)
    ++ yield_if (r.student_id == "")
        (schema_error "ENROLLMENT_MISSING_STUDENT_ID" (("enrollment_id", text r.id) ∷ []) event)
    ++ yield_if (r.class_id == "")
        (schema_error "ENROLLMENT_MISSING_CLASS_ID" (("enrollment_id", text r.id) ∷ []) event)
    ++ yield_if (not (r.lea_id == event.lea_id)) (
        schema_error "ENROLLMENT_LEA_ID_MISMATCH"
          (("enrollment_id", text r.id)
            ∷ ("entity_lea_id", text r.lea_id)
            ∷ ("envelope_lea_id", text event.lea_id)
            ∷ [])
          event)

-- The two tests at the end of `check_schema`.
unfoldable pub check_envelope : NormalizedEvent → List ValidationIssue
check_envelope event =
    yield_if (event.lea_id == "") (schema_error "MISSING_LEA_ID" [] event)
    ++ yield_if (event.source_event_id == "") (schema_error "MISSING_SOURCE_EVENT_ID" [] event)

abbrev mismatch : String → CanonicalEntity → NormalizedEvent → ValidationIssue
mismatch expected e event =
    schema_error "ENTITY_TYPE_MISMATCH"
      (("expected", text expected) ∷ ("actual", text (type_name e)) ∷ []) event

-- The branches of `check_schema`. A mismatch returns early, except at an LEA.
unfoldable pub schema_of : EntityType → CanonicalEntity → NormalizedEvent → List ValidationIssue
unfolding check_student check_enrollment check_envelope
schema_of student (of_student s) event = check_student event s ++ check_envelope event
schema_of student e event = mismatch "Student" e event ∷ []
schema_of enrollment (of_enrollment r) event = check_enrollment event r ++ check_envelope event
schema_of enrollment e event = mismatch "Enrollment" e event ∷ []
schema_of lea (of_lea l) event = check_envelope event
schema_of lea e event = mismatch "Lea" e event ∷ check_envelope event

unfoldable pub check_schema : NormalizedEvent → List ValidationIssue
unfolding schema_of
check_schema event = schema_of event.entity_type event.entity event

-- What the layer asks of an event, field by field.
abbrev pub EntityMeetsSchema : EntityType → CanonicalEntity → String → Type 0
EntityMeetsSchema student (of_student s) lea_id =
    (s.id ≢ "") × (s.given_name ≢ "") × (s.family_name ≢ "") × (s.lea_id ≡ lea_id)
EntityMeetsSchema enrollment (of_enrollment r) lea_id =
    (r.id ≢ "") × (r.student_id ≢ "") × (r.class_id ≢ "") × (r.lea_id ≡ lea_id)
EntityMeetsSchema lea (of_lea l) lea_id = Unit
EntityMeetsSchema _ _ _ = ⊥

pub record MeetsSchema (event : NormalizedEvent) : Type 0 where
  pub entity : EntityMeetsSchema event.entity_type event.entity event.lea_id
  pub lea_id : event.lea_id ≢ ""
  pub source_event_id : event.source_event_id ≢ ""

check_student-eq-nil_iff :
    (event : NormalizedEvent) (s : Student)
    → (check_student event s ≡ []) ↔ EntityMeetsSchema student (of_student s) event.lea_id
unfolding check_student
check_student-eq-nil_iff event s = ground (
  arith,
  eq_iff s.id "",
  eq_iff s.given_name "",
  eq_iff s.family_name "",
  eq_iff s.lea_id event.lea_id,
)

check_enrollment-eq-nil_iff :
    (event : NormalizedEvent) (r : Enrollment)
    → (check_enrollment event r ≡ []) ↔ EntityMeetsSchema enrollment (of_enrollment r) event.lea_id
unfolding check_enrollment
check_enrollment-eq-nil_iff event r = ground (
  arith,
  eq_iff r.id "",
  eq_iff r.student_id "",
  eq_iff r.class_id "",
  eq_iff r.lea_id event.lea_id,
)

check_envelope-eq-nil_iff :
    (event : NormalizedEvent)
    → (check_envelope event ≡ []) ↔ ((event.lea_id ≢ "") × (event.source_event_id ≢ ""))
unfolding check_envelope
check_envelope-eq-nil_iff event =
    ground (arith, eq_iff event.lea_id "", eq_iff event.source_event_id "")

schema_of-eq-nil_iff :
    (t : EntityType) (e : CanonicalEntity) (event : NormalizedEvent)
    → (schema_of t e event ≡ [])
      ↔ (EntityMeetsSchema t e event.lea_id × (event.lea_id ≢ "") × (event.source_event_id ≢ ""))
unfolding schema_of
schema_of-eq-nil_iff student (of_student s) event =
    ground (arith, check_student-eq-nil_iff event s, check_envelope-eq-nil_iff event)
schema_of-eq-nil_iff enrollment (of_enrollment r) event =
    ground (arith, check_enrollment-eq-nil_iff event r, check_envelope-eq-nil_iff event)
schema_of-eq-nil_iff lea (of_lea l) event = ground (arith, check_envelope-eq-nil_iff event)
schema_of-eq-nil_iff t e event = ground arith

-- Layer 2 yields no issue for an event exactly when the entity is of the claimed type, the required
-- fields of a student or an enrollment are not empty, its LEA is that of the envelope, and the
-- envelope has an LEA and a source event id.
pub check_schema-eq-nil_iff :
    (event : NormalizedEvent) → (check_schema event ≡ []) ↔ MeetsSchema event
unfolding check_schema
check_schema-eq-nil_iff event =
    let both = schema_of-eq-nil_iff event.entity_type event.entity event in
    (
      λ h. let m = both.0 h in record { entity = m.0; lea_id = m.1; source_event_id = m.2 },
      λ m. both.1 (m.entity, m.lea_id, m.source_event_id),
    )
