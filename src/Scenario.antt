-- ===== src/Scenario.antt =====
-- A page for the tests: a student, an enrollment of that student, and one of a student that nobody
-- has sent yet.
use edlink_rostering.Base.{String, true, false, none, some, [], ◌∷◌}
use edlink_rostering.Entities.{
  EntityType, student, enrollment, created, day, Student, Enrollment, of_student, of_enrollment,
  CanonicalEntity, NormalizedEvent, EventPage,
}
use edlink_rostering.Validation.Thresholds.{LeaState}
use edlink_rostering.Database.{Db}
use edlink_rostering.SyncWorker.Pages.{Connector}

abbrev pub ada : Student
ada = record {
  id = "s1";
  lea_id = "l1";
  given_name = "Ada";
  family_name = "Byron";
  grade = some "03";
  preferred_first_name = none;
  primary_school_id = none;
  external_ids = [];
}

abbrev pub enrollment_of : String → String → Enrollment
enrollment_of id student_id = record {
  id = id;
  lea_id = "l1";
  student_id = student_id;
  class_id = "c1";
  begin_date = day 20000;
  end_date = none;
}

abbrev pub event_of : String → EntityType → CanonicalEntity → NormalizedEvent
event_of id t entity = record {
  event_id = id;
  lea_id = "l1";
  entity_type = t;
  operation = created;
  entity = entity;
  source_connector = "edlink";
  source_event_id = id;
  occurred_at = 10;
  received_at = 11;
}

abbrev pub ada_created : NormalizedEvent
ada_created = event_of "0001" student (of_student ada)

abbrev pub ada_enrolled : NormalizedEvent
ada_enrolled = event_of "0002" enrollment (of_enrollment (enrollment_of "n1" "s1"))

abbrev pub orphan_enrolled : NormalizedEvent
orphan_enrolled = event_of "0003" enrollment (of_enrollment (enrollment_of "n2" "s9"))

abbrev pub small_page : EventPage
small_page = record {
  events = ada_created ∷ ada_enrolled ∷ orphan_enrolled ∷ [];
  next_cursor = record { value = "0003"; observed_at = some 11 };
  has_more = false;
  retrieved_at = 12;
  layer_1_check = record {
    passed = true;
    http_status = 200;
    content_type = "application/json";
    body_well_formed = true;
    error = none;
  };
}

-- A response that failed the integrity check.
abbrev pub bad_page : EventPage
bad_page = record small_page {
  layer_1_check = record {
    passed = false;
    http_status = 502;
    content_type = "text/html";
    body_well_formed = false;
    error = some "bad gateway";
  };
}

abbrev pub new_lea : LeaState
new_lea = record {
  lea_id = "l1";
  known_student_ids = [];
  live_student_count = 0;
  recent_event_counts = [];
  recent_deletion_counts = [];
}

abbrev pub empty_db : Db
empty_db = record {
  leas = [];
  students = [];
  enrollments = [];
  snapshots = λ t. [];
  sync_jobs = [];
  validation_results = [];
  quarantine = [];
  cursor_state = [];
  retry_actions = [];
  fresh = 0;
}

-- A connector that answers every request with one page.
abbrev pub one_page : EventPage → Connector
one_page page = record { name = "edlink"; fetch_changes = λ now lea_id cursor. page }
