-- ===== src/Revert/Examples.antt =====
-- The revert of a job that changed one student.
use edlink_rostering.Base.{
  ℕ, ◌≤◌, ◌≡◌, refl, false, none, some, List, [], ◌∷◌, arith, count, eqb_iff, ok, err, Result, map,
  if◌then◌else◌,
}
use edlink_rostering.Base.Text.{str_leb}
use edlink_rostering.Entities.{
  traditional_district, EntityType, lea, student, enrollment, same_type, Student, of_student,
  NormalizedEvent,
}
use edlink_rostering.Database.{Db, Payload, text, texts, Snapshot, SyncJob, success}
use edlink_rostering.Scenario.{ada, empty_db, event_of}
use edlink_rostering.SyncWorker.Writes.{
  Job, new_snapshot, upsert_canonical, insert_snapshot, mark_prior_snapshot_superseded,
}
use edlink_rostering.SyncWorker.Events.{write_event}
use edlink_rostering.Revert.Restores.{Ready, revert_restores_snapshots}
use edlink_rostering.Revert.{
  RevertError, refused, OpsDb, RevertOutcome, RevertAction, has_snapshot_id, revert, load_target,
  no_rows, mark, superseded_by_newer, revert_tables, revert_table, revert_rows, revert_row,
  find_prior_live_snapshot, restore_canonical_from_payload, soft_delete_canonical,
  insert_revert_sync_job_row,
}
use edlink_rostering.Revert.Twice.{second_revert_changes_nothing}

abbrev payload_of : Student → Payload
payload_of s =
    ("id", text s.id)
    ∷ ("lea_id", text s.lea_id)
    ∷ ("given_name", text s.given_name)
    ∷ ("family_name", text s.family_name)
    ∷ ("external_ids", texts [])
    ∷ []

abbrev later_ada : Student
later_ada = record ada { given_name = "Augusta" }

abbrev first : Snapshot
first = record {
  snapshot_id = 10;
  natural_key = ada.id;
  lea_id = "l1";
  generation_id = 1;
  superseded_by_generation_id = some 2;
  superseded_at = some 5;
  deleted_upstream = false;
  source_event_id = some "e1";
  source_event_at = some 1;
  created_at = 1;
  payload = payload_of ada;
}

abbrev second : Snapshot
second = record first {
  snapshot_id = 11;
  generation_id = 2;
  superseded_by_generation_id = none;
  superseded_at = none;
  source_event_id = some "e2";
  payload = payload_of later_ada;
}

abbrev job : ℕ → SyncJob
job id = record {
  id = id;
  lea_id = "l1";
  partner = "edlink";
  status = success;
  started_at = id;
  completed_at = some id;
  event_count = 1;
  error_count = 0;
  warning_count = 0;
  cursor_before = none;
  cursor_after = none;
  error_summary = none;
}

abbrev two_jobs : Db
two_jobs = record empty_db {
  leas =
      (record {
        lea = record {
          id = "l1";
          name = "Springfield";
          lea_type = traditional_district;
          state = "NY";
          nces_lea_id = none;
        };
        deleted_at = none;
      })
      ∷ [];
  students = (record { student = later_ada; deleted_at = none }) ∷ [];
  snapshots = λ t. if same_type t student then first ∷ second ∷ [] else [];
  sync_jobs = job 1 ∷ job 2 ∷ [];
  fresh = 20;
}

unique_ids : (t : EntityType) (i : ℕ) → count (has_snapshot_id i) (two_jobs.snapshots t) ≤ 1
unique_ids student i = ground (arith, eqb_iff 10 i, eqb_iff 11 i)
unique_ids enrollment i = ground arith
unique_ids lea i = ground arith

-- What the first revert of job 2 gives; it is not refused.
abbrev first_run : Result RevertError (RevertOutcome × OpsDb)
first_run = revert 2 "ann" "wrong file" 30 (two_jobs, [])

abbrev outcome_of : Result RevertError (RevertOutcome × OpsDb) → RevertOutcome
outcome_of (ok (outcome, tables)) = outcome
outcome_of (err e) = record {
  revert_id = 0;
  sync_job_id = 0;
  revert_generation_id = 0;
  snapshots_restored = 0;
  canonical_rows_updated = 0;
  canonical_rows_soft_deleted = 0;
}

abbrev tables_of : Result RevertError (RevertOutcome × OpsDb) → OpsDb
tables_of (ok (outcome, tables)) = tables
tables_of (err e) = (two_jobs, [])

abbrev after : OpsDb
after = tables_of first_run

second_revert_changes_nothing_example :
    (again : RevertOutcome) × (last : Db) × (logged : List RevertAction) × (revert 2 "bob"
        "once more" 40
        (after.0, after.1)
      ≡ ok (again, (last, logged)))
    × (again.snapshots_restored ≡ 0)
    × (again.canonical_rows_updated ≡ 0)
    × (again.canonical_rows_soft_deleted ≡ 0)
    × (last.snapshots ≡ after.0.snapshots)
    × (last.students ≡ after.0.students)
    × (last.enrollments ≡ after.0.enrollments)
    × (last.leas ≡ after.0.leas)
unfolding revert load_target superseded_by_newer revert_tables revert_table revert_rows revert_row
    find_prior_live_snapshot restore_canonical_from_payload soft_delete_canonical
    insert_revert_sync_job_row str_leb
second_revert_changes_nothing_example =
    second_revert_changes_nothing 2 "ann" "wrong file" "bob" "once more" 30 40 two_jobs []
      unique_ids refl refl refl

-- The first revert brought the name of the student back.
first_revert_restores :
    ((outcome_of first_run).snapshots_restored ≡ 1)
    × ((outcome_of first_run).canonical_rows_updated ≡ 1)
    × (map (λ r. r.student.given_name) after.0.students ≡ "Ada" ∷ [])
unfolding revert load_target superseded_by_newer revert_tables revert_table revert_rows revert_row
    find_prior_live_snapshot restore_canonical_from_payload soft_delete_canonical
    insert_revert_sync_job_row str_leb
first_revert_restores = (refl, refl, refl)

-- A job that wrote one key twice superseded its own snapshot, and can not be reverted.
abbrev twice_written : Db
twice_written = record two_jobs {
  snapshots =
      λ t. if same_type t student then record first { generation_id = 2 } ∷ second ∷ [] else [];
}

own_supersession_refuses : revert 2 "ann" "wrong file" 30 (twice_written, []) ≡ err refused
unfolding revert load_target superseded_by_newer
own_supersession_refuses = refl

-- A third job brings a new family name.
abbrev king : NormalizedEvent
king = event_of "e3" student (of_student (record later_ada { family_name = "King" }))

abbrev third : Job
third = record { sync_job_id = 3; lea_id = "l1"; partner = "edlink"; now = 50 }

two_jobs-Ready : Ready third ada.id 20 (first ∷ second ∷ [])
two_jobs-Ready = record {
  untouched = refl;
  one_id = λ i. ground (arith, eqb_iff 10 i, eqb_iff 11 i);
  unused = refl;
  undated = refl;
  single = ground arith;
}

abbrev written_tables : Db
written_tables = elim (write_event third king two_jobs) [ ok w ↦ w | err e ↦ two_jobs ]

abbrev reverted_tables : Db
reverted_tables = elim (revert_table student 3 4 60 (no_rows, written_tables)) [
  | ok (t, w) ↦ w
  | err e ↦ two_jobs
]

revert_restores_snapshots_example :
    reverted_tables.snapshots student
    ≡ first ∷ second ∷ mark 4 60 (new_snapshot third king false 20) ∷ []
unfolding write_event upsert_canonical insert_snapshot mark_prior_snapshot_superseded revert_table
    revert_rows revert_row find_prior_live_snapshot restore_canonical_from_payload
    soft_delete_canonical str_leb
revert_restores_snapshots_example =
    revert_restores_snapshots third king two_jobs (λ e. cc) two_jobs-Ready 4 60 no_rows refl refl
