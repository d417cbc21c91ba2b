-- ===== src/Quarantine/Release.antt =====
-- The operations of `QuarantineService`. A refusal is a value. Each call is one step. The row lock
-- makes that true of `release` beside `release`; `reject` takes no lock, so that a `reject` which
-- overlaps another call is not modelled.
use edlink_rostering.Base.{
  ℕ, suc, String, Bool, true, false, ◌&&◌, Option, none, some, List, [], ◌∷◌, ◌++◌, mem, keep, take,
  find, eqb, leb, ◌==◌, if◌then◌else◌, Result, ok, err, ◌>>=◌,
}
use Prim.Native.String.{◌++◌ as concat}
use edlink_rostering.Entities.{enrollment, same_type, DateField, day, Failure, integrity_error}
use edlink_rostering.Database.{
  Db, Json, null, text, iso_date, Payload, Snapshot, quarantine_release, release_of, Resolution,
  released, rejected, Quarantined, update_where, set_snapshots, has_student, upsert_enrollment,
}

-- The exceptions of the service, and what the database or a date parser raises.
pub data Refusal : Type 0 where
  not_found already_resolved refused : Refusal
  raised : Failure → Refusal
  value_error : Refusal

abbrev pub is_unresolved : Quarantined → Bool
is_unresolved r = elim r.resolved_at [ none ↦ true | some _ ↦ false ]

-- `ORDER BY created_at ASC`
abbrev pub insert_oldest : Quarantined → List Quarantined → List Quarantined
insert_oldest r [] = r ∷ []
insert_oldest r (s ∷ rows) =
    let later = insert_oldest r rows in
    if leb r.created_at s.created_at then r ∷ s ∷ rows else s ∷ later

abbrev pub oldest_first : List Quarantined → List Quarantined
oldest_first [] = []
oldest_first (r ∷ rows) = insert_oldest r (oldest_first rows)

-- A filter that is not given lets every row pass.
abbrev pub in_lea : Option String → Quarantined → Bool
in_lea none r = true
in_lea (some lea_id) r = r.lea_id == lea_id

abbrev pub in_leas : Option (List String) → Quarantined → Bool
in_leas none r = true
in_leas (some leas) r = mem r.lea_id leas

abbrev pub is_listed : Option String → Option (List String) → Quarantined → Bool
is_listed lea_id authorized_leas r =
    is_unresolved r && (in_lea lea_id r && in_leas authorized_leas r)

unfoldable pub list_unresolved : Db → Option String → Option (List String) → ℕ → List Quarantined
list_unresolved db lea_id authorized_leas limit =
    take limit (oldest_first (keep (is_listed lea_id authorized_leas) db.quarantine))

-- The two guards on the row that was read.
abbrev pub guard_row : Option Quarantined → Result Refusal Quarantined
guard_row none = err not_found
guard_row (some row) = if is_unresolved row then ok row else err already_resolved

unfoldable pub load_unresolved : Db → ℕ → Result Refusal Quarantined
load_unresolved db quarantine_id = guard_row (find (λ r. eqb r.id quarantine_id) db.quarantine)

-- `payload.get(key)`
abbrev pub get : Payload → String → Json
get [] key = null
get ((k, v) ∷ payload) key = let later = get payload key in if k == key then v else later

-- `isinstance(student_id, str)`: a date is a text in the JSON.
abbrev pub get_text : Payload → String → Option String
get_text payload key = elim (get payload key) [ text s ↦ some s | _ ↦ none ]

-- `_parse_iso_date`, on the JSON that the sync worker writes. Any other text is no date.
abbrev pub parse_iso_date : Json → Result Refusal (Option DateField)
parse_iso_date null = ok none
parse_iso_date (iso_date d) = ok (some (day d))
parse_iso_date _ = err value_error

-- A column of the enrollment that may not be null.
abbrev pub required : Option String → Result Refusal String
required none = err (raised integrity_error)
required (some s) = ok s

abbrev pub required_date : Option DateField → Result Refusal DateField
required_date none = err (raised integrity_error)
required_date (some d) = ok d

abbrev pub db_result : Result Failure Db → Result Refusal Db
db_result (ok db) = ok db
db_result (err e) = err (raised e)

unfoldable pub insert_release_sync_job_row : ℕ → String → ℕ → ℕ → Db → Db
insert_release_sync_job_row generation_id lea_id started_at quarantine_id db = record db {
  sync_jobs =
      db.sync_jobs
      ++ (record {
        id = generation_id;
        lea_id = lea_id;
        partner = "operator";
        status = quarantine_release;
        started_at = started_at;
        completed_at = some started_at;
        event_count = 1;
        error_count = 0;
        warning_count = 0;
        cursor_before = none;
        cursor_after = none;
        error_summary = some (release_of quarantine_id);
      })
        ∷ [];
}

abbrev pub released_snapshot : ℕ → ℕ → String → String → Payload → ℕ → Snapshot
released_snapshot id generation_id lea_id natural_key payload created_at = record {
  snapshot_id = id;
  natural_key = natural_key;
  lea_id = lea_id;
  generation_id = generation_id;
  superseded_by_generation_id = none;
  superseded_at = none;
  deleted_upstream = false;
  source_event_id = get_text payload "source_event_id";
  source_event_at = some created_at;
  created_at = created_at;
  payload = payload;
}

abbrev pub with_snapshot : ℕ → String → Payload → ℕ → Db → String → Db
with_snapshot generation_id lea_id payload created_at db natural_key =
    record (set_snapshots enrollment
      (db.snapshots enrollment
        ++ released_snapshot db.fresh generation_id lea_id natural_key payload created_at ∷ [])
      db) { fresh = suc db.fresh }

-- The column `enrollment_id` may not be null.
unfoldable pub insert_enrollment_snapshot : ℕ → String → Payload → ℕ → Db → Result Refusal Db
insert_enrollment_snapshot generation_id lea_id payload created_at db = do
  natural_key ← required (get_text payload "id")
  ok (with_snapshot generation_id lea_id payload created_at db natural_key)

unfoldable pub upsert_enrollment_canonical : String → Payload → Db → Result Refusal Db
unfolding upsert_enrollment
upsert_enrollment_canonical lea_id payload db = do
  begin ← parse_iso_date (get payload "begin_date")
  end ← parse_iso_date (get payload "end_date")
  id ← required (get_text payload "id")
  student_id ← required (get_text payload "student_id")
  class_id ← required (get_text payload "class_id")
  begin_date ← required_date begin
  db_result (
      upsert_enrollment
        (record {
          enrollment = record {
            id = id;
            lea_id = lea_id;
            student_id = student_id;
            class_id = class_id;
            begin_date = begin_date;
            end_date = end;
          };
          deleted_at = none;
        })
        db)

-- `reason_override` is set by `reject` only.
unfoldable pub mark_resolved : ℕ → ℕ → Resolution → String → Option String → Db → Db
mark_resolved quarantine_id resolved_at status operator reason db = record db {
  quarantine =
      update_where (λ r. eqb r.id quarantine_id)
        (λ r. record r {
          resolved_at = some resolved_at;
          resolution_status = some status;
          resolution_operator = some operator;
          reason = elim reason [ none ↦ r.reason | some s ↦ s ];
        })
        db.quarantine;
}

-- The part of `release` after its guards.
unfoldable pub apply_release : ℕ → Quarantined → ℕ → String → Db → Result Refusal (ℕ × Db)
unfolding insert_release_sync_job_row insert_enrollment_snapshot upsert_enrollment_canonical
    mark_resolved
apply_release quarantine_id row now operator db =
    let generation_id = db.fresh in
    let started =
      insert_release_sync_job_row generation_id row.lea_id now quarantine_id
        (record db { fresh = suc db.fresh }) in
    do
      db₁ ← insert_enrollment_snapshot generation_id row.lea_id row.raw_payload now started
      db₂ ← upsert_enrollment_canonical row.lea_id row.raw_payload db₁
      ok (generation_id, mark_resolved quarantine_id now released operator none db₂)

-- The student that the row waits for, which must be there by now.
abbrev pub guard_student : Db → String → Option String → Result Refusal String
guard_student db lea_id none = err refused
guard_student db lea_id (some student_id) =
    if has_student db lea_id student_id then ok student_id else err refused

-- The guards of `release` on the row that it loaded.
unfoldable pub check_release : Quarantined → Db → Result Refusal String
check_release row db =
    if same_type row.entity_type enrollment
    then guard_student db row.lea_id (get_text row.raw_payload "student_id")
    else err refused

-- The release generation, and the database.
unfoldable pub release : ℕ → String → ℕ → Db → Result Refusal (ℕ × Db)
unfolding load_unresolved check_release apply_release
release quarantine_id operator now db = do
  row ← load_unresolved db quarantine_id
  student_id ← check_release row db
  apply_release quarantine_id row now operator db

unfoldable pub reject : ℕ → String → String → ℕ → Db → Result Refusal Db
unfolding load_unresolved mark_resolved
reject quarantine_id operator reason now db = do
  row ← load_unresolved db quarantine_id
  ok (
      mark_resolved quarantine_id now rejected operator
        (some (concat (concat (concat "rejected: " reason) "; original: ") row.reason)) db)
