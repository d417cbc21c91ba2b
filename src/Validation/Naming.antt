-- ===== src/Validation/Naming.antt =====
-- Which event an issue names: those of Layers 2 and 3 name the event that was checked, so an event
-- that is rejected has an issue, and none of them blocks the page.
use edlink_rostering.Base.{
  String, ◌≡◌, refl, Bool, true, false, ◌||◌, not, Option, none, some, List, [], ◌∷◌, ◌++◌, arith,
  inl, inr, mem, any, any-append, Bool-cases, Option-cases, ◌==◌, eq_iff,
}
use edlink_rostering.Entities.{
  EntityType, lea, student, enrollment, CanonicalEntity, of_lea, of_student, of_enrollment,
  NormalizedEvent, DateField, is_date, is_before, Student, Enrollment,
}
use edlink_rostering.Validation.Issues.{ValidationIssue, yield_if}
use edlink_rostering.Validation.Schema.{
  check_schema, schema_of, check_student, check_enrollment, check_envelope,
}
use edlink_rostering.Validation.Parse.{
  check_parse, parse_of, grade_issues, date_issues, is_oneroster, grade_issue,
}
use edlink_rostering.Validation.Pipeline.{
  issues_of, Layer, run_layer, reject, layer_2, layer_3, is_page_error,
}

-- The issue is about the event with this id.
abbrev pub names : String → ValidationIssue → Bool
names id i = elim i.event_id [ none ↦ false | some j ↦ j == id ]

abbrev pub AllNamed : String → List ValidationIssue → Type 0
AllNamed id [] = Unit
AllNamed id (i ∷ is) = (i.event_id ≡ some id) × AllNamed id is

AllNamed-append :
    (id : String) (is js : List ValidationIssue)
    → AllNamed id is
    → AllNamed id js
    → AllNamed id (is ++ js)
AllNamed-append id [] js h k = k
AllNamed-append id (i ∷ is) js h k = (h.0, AllNamed-append id is js h.1 k)

AllNamed-yield_if :
    (id : String) (b : Bool) (i : ValidationIssue)
    → i.event_id ≡ some id
    → AllNamed id (yield_if b i)
AllNamed-yield_if id true i h = (h, tt)
AllNamed-yield_if id false i h = tt

module _ (event : NormalizedEvent) where
  check_student-AllNamed : (s : Student) → AllNamed event.event_id (check_student event s)
  unfolding check_student
  check_student-AllNamed s = ground arith

  check_enrollment-AllNamed : (r : Enrollment) → AllNamed event.event_id (check_enrollment event r)
  unfolding check_enrollment
  check_enrollment-AllNamed r = ground arith

  check_envelope-AllNamed : AllNamed event.event_id (check_envelope event)
  unfolding check_envelope
  check_envelope-AllNamed = ground arith

  schema_of-AllNamed :
      (t : EntityType) (e : CanonicalEntity) → AllNamed event.event_id (schema_of t e event)
  unfolding schema_of
  schema_of-AllNamed student (of_student s) =
      AllNamed-append event.event_id (check_student event s) (check_envelope event)
        (check_student-AllNamed s) check_envelope-AllNamed
  schema_of-AllNamed enrollment (of_enrollment r) =
      AllNamed-append event.event_id (check_enrollment event r) (check_envelope event)
        (check_enrollment-AllNamed r) check_envelope-AllNamed
  schema_of-AllNamed lea (of_lea l) = check_envelope-AllNamed
  schema_of-AllNamed student e = (refl, tt)
  schema_of-AllNamed enrollment e = (refl, tt)
  schema_of-AllNamed lea e = (refl, check_envelope-AllNamed)

  pub check_schema-AllNamed : AllNamed event.event_id (check_schema event)
  unfolding check_schema
  check_schema-AllNamed = schema_of-AllNamed event.entity_type event.entity

  grade_issues-AllNamed :
      (g : Option String) (s : Student) → AllNamed event.event_id (grade_issues g event s)
  unfolding grade_issues
  grade_issues-AllNamed none s = tt
  grade_issues-AllNamed (some g) s =
      AllNamed-yield_if event.event_id (not (is_oneroster g)) (grade_issue event s g)
        (unfold grade_issue in refl)

  date_issues-AllNamed :
      (b : DateField) (e : Option DateField) (id : String)
      → AllNamed event.event_id (issues_of (date_issues b e event id))
  unfolding date_issues
  date_issues-AllNamed b none id = elim (Bool-cases (is_date b)) [
    | inl is ↦ rw is tt
    | inr is_not ↦ rw is_not (refl, tt)
  ]
  date_issues-AllNamed b (some e) id = elim (Bool-cases (is_date b)) [
    | inr is_not ↦ rw is_not (refl, tt)
    | inl is ↦ elim (Bool-cases (is_date e)) [
      | inr end_is_not ↦ rw (is, end_is_not) (refl, tt)
      | inl end_is ↦ elim (Option-cases (is_before e b)) [
        | inl raised ↦ rw (is, end_is, raised) tt
        | inr (before, ordered) ↦
            rw (is, end_is, ordered) (AllNamed-yield_if event.event_id before _ refl)
      ]
    ]
  ]

  parse_of-AllNamed :
      (t : EntityType) (e : CanonicalEntity)
      → AllNamed event.event_id (issues_of (parse_of t e event))
  unfolding parse_of
  parse_of-AllNamed student (of_student s) = grade_issues-AllNamed s.grade s
  parse_of-AllNamed enrollment (of_enrollment r) = date_issues-AllNamed r.begin_date r.end_date r.id
  parse_of-AllNamed _ _ = tt

  pub check_parse-AllNamed : AllNamed event.event_id (issues_of (check_parse event))
  unfolding check_parse
  check_parse-AllNamed = parse_of-AllNamed event.entity_type event.entity

-- A check whose issues name the event that it is given.
abbrev pub NamesItsEvent : Layer → Type 0
NamesItsEvent check =
    (event : NormalizedEvent) (rejected : List String)
    → AllNamed event.event_id (check event rejected)

pub layer_2-NamesItsEvent : NamesItsEvent layer_2
layer_2-NamesItsEvent event rejected = check_schema-AllNamed event

pub layer_3-NamesItsEvent : NamesItsEvent layer_3
layer_3-NamesItsEvent event rejected = elim (Bool-cases (mem event.event_id rejected)) [
  | inl already ↦ rw already tt
  | inr new ↦ rw new (check_parse-AllNamed event)
]

not-page_error_of_AllNamed :
    (id : String) (is : List ValidationIssue) → AllNamed id is → any is_page_error is ≡ false
not-page_error_of_AllNamed id [] h = refl
not-page_error_of_AllNamed id (i ∷ is) h = ground (arith, not-page_error_of_AllNamed id is h.1)

-- The issues of such a layer never block the page.
pub not-page_error-run_layer :
    (check : Layer) (events : List NormalizedEvent) (rejected : List String)
    → NamesItsEvent check
    → any is_page_error (run_layer check events rejected).0 ≡ false
unfolding run_layer
not-page_error-run_layer check [] rejected n = refl
not-page_error-run_layer check (event ∷ rest) rejected n =
    let found = check event rejected in
    let rejected' = reject found event.event_id rejected in
    rw (
      any-append is_page_error found (run_layer check rest rejected').0,
      not-page_error_of_AllNamed event.event_id found (n event rejected),
      not-page_error-run_layer check rest rejected' n,
    )

named_of_mem-reject :
    (found : List ValidationIssue) (id s : String) (rejected : List String)
    → AllNamed id found
    → mem s (reject found id rejected) ≡ true
    → (mem s rejected || any (names s) found) ≡ true
named_of_mem-reject [] id s rejected n h = ground arith
named_of_mem-reject (i ∷ is) id s rejected n h = ground (arith, eq_iff s id, eq_iff id s)

-- An id that such a layer has rejected was rejected before, or is named by an issue.
pub named_of_mem-run_layer :
    (check : Layer) (events : List NormalizedEvent) (rejected : List String) (s : String)
    → NamesItsEvent check
    → mem s (run_layer check events rejected).1 ≡ true
    → (mem s rejected || any (names s) (run_layer check events rejected).0) ≡ true
unfolding run_layer
named_of_mem-run_layer check [] rejected s n h = rw h
named_of_mem-run_layer check (event ∷ rest) rejected s n h =
    let found = check event rejected in
    let rejected' = reject found event.event_id rejected in
    let later = (run_layer check rest rejected').0 in
    rw (any-append (names s) found later) (
      ground (
        arith,
        named_of_mem-run_layer check rest rejected' s n h,
        named_of_mem-reject found event.event_id s rejected (n event rejected),
      ))
