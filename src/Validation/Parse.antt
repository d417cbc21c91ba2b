-- ===== src/Validation/Parse.antt =====
-- edlink_rostering/services/validation/layer_3_parse.py
use edlink_rostering.Base.{
  ◌≤◌, String, ◌≡◌, ◌↔◌, refl, ap, ℕ, Bool, true, false, eqb, if◌then◌else◌, Result, ok, err, not,
  Option, none, some, List, [], ◌∷◌, arith, mem, Bool-cases, inl, inr,
}
use edlink_rostering.Entities.{
  EntityType, lea, student, enrollment, DateField, day, naive, aware, not_a_date, is_date,
  is_before, Failure, type_error, Student, Enrollment, CanonicalEntity, of_lea, of_student,
  of_enrollment, NormalizedEvent,
}
use edlink_rostering.Validation.Issues.{
  Value, null, text, iso_date, iso_naive, iso_aware, error, warning, ValidationIssue, issue,
  yield_if,
}

-- `_ONEROSTER_GRADES`
abbrev pub oneroster_grades : List String
oneroster_grades =
    "IT" ∷ "PR" ∷ "PK" ∷ "TK" ∷ "KG" ∷ "01" ∷ "02" ∷ "03" ∷ "04" ∷ "05" ∷ "06" ∷ "07" ∷ "08" ∷ "09"
    ∷ "10" ∷ "11" ∷ "12" ∷ "13" ∷ "PS" ∷ "UG" ∷ "Other" ∷ []

unfoldable pub is_oneroster : String → Bool
is_oneroster g = mem g oneroster_grades

unfoldable pub grade_issue : NormalizedEvent → Student → String → ValidationIssue
grade_issue event s g =
    issue 3 "STUDENT_GRADE_NOT_ONEROSTER" warning
      (("student_id", text s.id)
        ∷ ("grade", text g)
        ∷ ("expected", text "OneRoster 1.2 grade enum")
        ∷ [])
      (some event.event_id)

-- `student.grade is not None and student.grade not in _ONEROSTER_GRADES`
unfoldable pub grade_issues : Option String → NormalizedEvent → Student → List ValidationIssue
unfolding is_oneroster grade_issue
grade_issues none event s = []
grade_issues (some g) event s = yield_if (not (is_oneroster g)) (grade_issue event s g)

unfoldable pub check_student_parse : NormalizedEvent → Student → List ValidationIssue
unfolding grade_issues
check_student_parse event s = grade_issues s.grade event s

abbrev date_error : String → List (String × Value) → NormalizedEvent → ValidationIssue
date_error code detail event = issue 3 code error detail (some event.event_id)

abbrev pub iso_value : DateField → Value
iso_value (day d) = iso_date d
iso_value (naive t) = iso_naive t
iso_value (aware t) = iso_aware t
iso_value not_a_date = null

-- The tests of `_check_enrollment_parse` on the two dates, in its order. The comparison raises
-- where the dates have no order.
abbrev pub order_issues :
    Option Bool
    → DateField
    → DateField
    → NormalizedEvent
    → String
    → Result Failure (List ValidationIssue)
order_issues none b e event id = err type_error
order_issues (some before) b e event id = ok (
    yield_if before (
      date_error "ENROLLMENT_END_BEFORE_BEGIN"
        (("enrollment_id", text id) ∷ ("begin_date", iso_value b) ∷ ("end_date", iso_value e) ∷ [])
        event))

abbrev pub end_issues :
    DateField → Option DateField → NormalizedEvent → String → Result Failure (List ValidationIssue)
end_issues b none event id = ok []
end_issues b (some e) event id =
    if is_date e
    then order_issues (is_before e b) b e event id
    else ok (date_error "ENROLLMENT_END_DATE_NOT_DATE" (("enrollment_id", text id) ∷ []) event ∷ [])

unfoldable pub date_issues :
    DateField → Option DateField → NormalizedEvent → String → Result Failure (List ValidationIssue)
date_issues b e event id =
    if is_date b
    then end_issues b e event id
    else ok
        (date_error "ENROLLMENT_BEGIN_DATE_NOT_DATE" (("enrollment_id", text id) ∷ []) event ∷ [])

unfoldable pub check_enrollment_parse :
    NormalizedEvent → Enrollment → Result Failure (List ValidationIssue)
unfolding date_issues
check_enrollment_parse event r = date_issues r.begin_date r.end_date event r.id

unfoldable pub parse_of :
    EntityType → CanonicalEntity → NormalizedEvent → Result Failure (List ValidationIssue)
unfolding check_student_parse check_enrollment_parse
parse_of student (of_student s) event = ok (check_student_parse event s)
parse_of enrollment (of_enrollment r) event = check_enrollment_parse event r
parse_of _ _ event = ok []

unfoldable pub check_parse : NormalizedEvent → Result Failure (List ValidationIssue)
unfolding parse_of
check_parse event = parse_of event.entity_type event.entity event

abbrev pub GradeIsKnown : Option String → Type 0
GradeIsKnown none = Unit
GradeIsKnown (some g) = mem g oneroster_grades ≡ true

-- Both dates are dates, of one kind, and the end is not before the beginning.
abbrev pub DatesAreOrdered : DateField → Option DateField → Type 0
DatesAreOrdered not_a_date none = ⊥
DatesAreOrdered _ none = Unit
DatesAreOrdered (day b) (some (day e)) = b ≤ e
DatesAreOrdered (naive b) (some (naive e)) = b ≤ e
DatesAreOrdered (aware b) (some (aware e)) = b ≤ e
DatesAreOrdered _ _ = ⊥

abbrev pub kind : DateField → ℕ
kind (day d) = 0
kind (naive t) = 1
kind (aware t) = 2
kind not_a_date = 3

-- An enrollment with two dates of different kinds.
abbrev pub Mixed : DateField → Option DateField → Type 0
Mixed b none = ⊥
Mixed b (some e) = (is_date b ≡ true) × (is_date e ≡ true) × (eqb (kind b) (kind e) ≡ false)

abbrev pub MixesDates : CanonicalEntity → Type 0
MixesDates (of_enrollment r) = Mixed r.begin_date r.end_date
MixesDates _ = ⊥

abbrev pub raises : Result Failure (List ValidationIssue) → Bool
raises (ok issues) = false
raises (err e) = true

abbrev pub EntityParses : EntityType → CanonicalEntity → Type 0
EntityParses student (of_student s) = GradeIsKnown s.grade
EntityParses enrollment (of_enrollment r) = DatesAreOrdered r.begin_date r.end_date
EntityParses _ _ = Unit

yield_unless-eq-nil_iff : (b : Bool) (i : ValidationIssue) → (yield_if (not b) i ≡ []) ↔ (b ≡ true)
yield_unless-eq-nil_iff b i = ground arith

grade_parses :
    (g : Option String) (event : NormalizedEvent) (s : Student)
    → (grade_issues g event s ≡ []) ↔ GradeIsKnown g
unfolding grade_issues
grade_parses none event s = ground arith
grade_parses (some g) event s =
    yield_unless-eq-nil_iff (mem g oneroster_grades) (grade_issue event s g)

dates_parse :
    (b : DateField) (e : Option DateField) (event : NormalizedEvent) (id : String)
    → (date_issues b e event id ≡ ok []) ↔ DatesAreOrdered b e
unfolding date_issues
dates_parse not_a_date none event id = ground arith
dates_parse not_a_date (some e) event id = ground arith
dates_parse (day b) none event id = ground arith
dates_parse (naive b) none event id = ground arith
dates_parse (aware b) none event id = ground arith
dates_parse (day b) (some (day e)) event id = ground arith
dates_parse (naive b) (some (naive e)) event id = ground arith
dates_parse (aware b) (some (aware e)) event id = ground arith
dates_parse b e event id = ground arith

parse_of-eq-nil_iff :
    (t : EntityType) (e : CanonicalEntity) (event : NormalizedEvent)
    → (parse_of t e event ≡ ok []) ↔ EntityParses t e
unfolding parse_of check_student_parse
parse_of-eq-nil_iff student (of_student s) event =
    let (there, back) = grade_parses s.grade event s in (λ h. there cc, λ h. ap ok (back h))
parse_of-eq-nil_iff enrollment (of_enrollment r) event =
    dates_parse r.begin_date r.end_date event r.id
parse_of-eq-nil_iff t e event = ground arith

-- Layer 3 returns for an event, with no issue, exactly when a student's grade, if it has one, is a
-- OneRoster grade, and the dates of an enrollment are dates, both of them days, or naive, or aware
-- datetimes, and do not end before they begin.
pub check_parse-eq-nil_iff :
    (event : NormalizedEvent)
    → (check_parse event ≡ ok []) ↔ EntityParses event.entity_type event.entity
unfolding check_parse
check_parse-eq-nil_iff event = parse_of-eq-nil_iff event.entity_type event.entity event

date_issues_mix :
    (b : DateField) (e : Option DateField) (event : NormalizedEvent) (id : String)
    → raises (date_issues b e event id) ≡ true
    → Mixed b e
unfolding date_issues
date_issues_mix b none event id h = elim (Bool-cases (is_date b)) [
  | inl is ↦ cc (rw is at h)
  | inr is_not ↦ cc (rw is_not at h)
]
date_issues_mix not_a_date (some e) event id h = cc
date_issues_mix (day b) (some (naive e)) event id h = (refl, refl, refl)
date_issues_mix (day b) (some (aware e)) event id h = (refl, refl, refl)
date_issues_mix (naive b) (some (day e)) event id h = (refl, refl, refl)
date_issues_mix (naive b) (some (aware e)) event id h = (refl, refl, refl)
date_issues_mix (aware b) (some (day e)) event id h = (refl, refl, refl)
date_issues_mix (aware b) (some (naive e)) event id h = (refl, refl, refl)
date_issues_mix b (some e) event id h = cc

parse_of_mix :
    (t : EntityType) (e : CanonicalEntity) (event : NormalizedEvent)
    → raises (parse_of t e event) ≡ true
    → MixesDates e
unfolding parse_of
parse_of_mix enrollment (of_enrollment r) event h =
    date_issues_mix r.begin_date r.end_date event r.id h
parse_of_mix enrollment (of_student s) event h = cc
parse_of_mix enrollment (of_lea l) event h = cc
parse_of_mix student (of_student s) event h = cc
parse_of_mix student (of_enrollment r) event h = cc
parse_of_mix student (of_lea l) event h = cc
parse_of_mix lea (of_student s) event h = cc
parse_of_mix lea (of_enrollment r) event h = cc
parse_of_mix lea (of_lea l) event h = cc

-- Layer 3 raises only on an enrollment whose dates are of two kinds.
pub check_parse_mix :
    (event : NormalizedEvent) → raises (check_parse event) ≡ true → MixesDates event.entity
unfolding check_parse
check_parse_mix event h = parse_of_mix event.entity_type event.entity event h
