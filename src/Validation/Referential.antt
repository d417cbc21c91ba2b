-- ===== src/Validation/Referential.antt =====
-- edlink_rostering/services/validation/layer_4_referential.py. Sets of texts are lists of them.
use edlink_rostering.Base.{
  String, Option, none, some, List, [], ◌∷◌, mem, if◌then◌else◌, Result, ok, err, ◌>>=◌,
}
use edlink_rostering.Entities.{
  EntityType, student, enrollment, CanonicalEntity, of_enrollment, NormalizedEvent, entity_id,
  Failure, attribute_error,
}
use edlink_rostering.Validation.Issues.{text, quarantine, ValidationIssue, issue}

-- `getattr(event.entity, "student_id")`: only an `Enrollment` has the attribute.
unfoldable pub student_ref : CanonicalEntity → Result Failure String
student_ref (of_enrollment r) = ok r.student_id
student_ref _ = err attribute_error

-- `known_students` after an event of the loop.
unfoldable pub add_known : EntityType → CanonicalEntity → List String → List String
add_known student e known = entity_id e ∷ known
add_known _ e known = known

-- The student id that an event refers to and that is not known; `none` where there is no such id.
unfoldable pub orphan_ref :
    EntityType → CanonicalEntity → List String → Result Failure (Option String)
orphan_ref enrollment e known = do
  ref ← student_ref e
  ok (if mem ref known then none else some ref)
orphan_ref _ e known = ok none

unfoldable pub orphan_issue : NormalizedEvent → String → ValidationIssue
orphan_issue event ref =
    issue 4 "ENROLLMENT_ORPHAN_STUDENT" quarantine
      (("enrollment_id", text (entity_id event.entity))
        ∷ ("student_id", text ref)
        ∷ ("lea_id", text event.lea_id)
        ∷ [])
      (some event.event_id)

-- The issues, and the event ids to quarantine.
abbrev pub Routed : Type 0
Routed = List ValidationIssue × List String

unfoldable pub route : NormalizedEvent → Option String → Routed → Routed
unfolding orphan_issue
route event none (issues, ids) = (issues, ids)
route event (some ref) (issues, ids) = (orphan_issue event ref ∷ issues, event.event_id ∷ ids)

-- The loop of `check_referential` over the events in page order, from the students known so far.
unfoldable pub check_referential : List NormalizedEvent → List String → Result Failure Routed
check_referential [] known = ok ([], [])
check_referential (event ∷ rest) known =
    let later = check_referential rest (add_known event.entity_type event.entity known) in
    do
      orphan ← orphan_ref event.entity_type event.entity known
      routed ← later
      ok (route event orphan routed)
