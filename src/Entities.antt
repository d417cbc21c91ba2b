-- ===== src/Entities.antt =====
-- The canonical model and the event envelope: edlink_rostering/canonical/entities.py,
-- edlink_rostering/events/envelope.py, edlink_rostering/core/types.py, and the page of events of
-- edlink_rostering/connectors/protocol.py.
-- A date is the number of its day. A timestamp is a number of seconds. `str | None` is an Option.
use edlink_rostering.Base.{ℕ, String, Bool, Option, List, ltb}

pub data EntityType : Type 0 where
  lea student enrollment : EntityType

abbrev pub same_type : EntityType → EntityType → Bool
same_type lea lea = Bool.true
same_type student student = Bool.true
same_type enrollment enrollment = Bool.true
same_type _ _ = Bool.false

pub data LeaType : Type 0 where
  traditional_district charter_lea charter_cmo boces state_agency : LeaType

pub data Operation : Type 0 where
  created updated deleted : Operation

-- A field that is annotated `date`: Layer 3 tests at run time whether a date is what it holds. A
-- `datetime` is a date as well, by its class; `naive` has no time zone and `aware` has one.
pub data DateField : Type 0 where
  day naive aware : ℕ → DateField
  not_a_date : DateField

-- `isinstance(x, date)`
abbrev pub is_date : DateField → Bool
is_date not_a_date = Bool.false
is_date _ = Bool.true

-- `end < begin`, which raises where the two are of different kinds.
abbrev pub is_before : DateField → DateField → Option Bool
is_before (day e) (day b) = Option.some (ltb e b)
is_before (naive e) (naive b) = Option.some (ltb e b)
is_before (aware e) (aware b) = Option.some (ltb e b)
is_before _ _ = Option.none

pub record Lea : Type 0 where
  pub id : String
  pub name : String
  pub lea_type : LeaType
  pub state : String
  pub nces_lea_id : Option String

pub record Student : Type 0 where
  pub id : String
  pub lea_id : String
  pub given_name : String
  pub family_name : String
  pub grade : Option String
  pub preferred_first_name : Option String
  pub primary_school_id : Option String
  pub external_ids : List (String × String)

pub record Enrollment : Type 0 where
  pub id : String
  pub lea_id : String
  pub student_id : String
  pub class_id : String
  pub begin_date : DateField
  pub end_date : Option DateField

pub data CanonicalEntity : Type 0 where
  of_lea : Lea → CanonicalEntity
  of_student : Student → CanonicalEntity
  of_enrollment : Enrollment → CanonicalEntity

pub record NormalizedEvent : Type 0 where
  pub event_id : String
  pub lea_id : String
  pub entity_type : EntityType
  pub operation : Operation
  pub entity : CanonicalEntity
  pub source_connector : String
  pub source_event_id : String
  pub occurred_at : ℕ
  pub received_at : ℕ

pub record Cursor : Type 0 where
  pub value : String
  pub observed_at : Option ℕ

pub record Layer1Result : Type 0 where
  pub passed : Bool
  pub http_status : ℕ
  pub content_type : String
  pub body_well_formed : Bool
  pub error : Option String

pub record EventPage : Type 0 where
  pub events : List NormalizedEvent
  pub next_cursor : Cursor
  pub has_more : Bool
  pub retrieved_at : ℕ
  pub layer_1_check : Layer1Result

-- `type(entity).__name__`
abbrev pub type_name : CanonicalEntity → String
type_name (of_lea _) = "Lea"
type_name (of_student _) = "Student"
type_name (of_enrollment _) = "Enrollment"

-- `getattr(entity, "id")`: each of the three classes has it.
abbrev pub entity_id : CanonicalEntity → String
entity_id (of_lea e) = e.id
entity_id (of_student e) = e.id
entity_id (of_enrollment e) = e.id

-- `isinstance(entity, C)` for the class `C` that the claimed type names.
abbrev pub has_type : EntityType → CanonicalEntity → Bool
has_type lea (of_lea _) = Bool.true
has_type student (of_student _) = Bool.true
has_type enrollment (of_enrollment _) = Bool.true
has_type _ _ = Bool.false

-- What the code can raise in place of a result: a missing attribute, a failed `assert`, a
-- comparison of two types that have no order, and a foreign key that the database refuses.
pub data Failure : Type 0 where
  attribute_error assertion_error type_error integrity_error : Failure
