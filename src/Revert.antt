-- ===== src/Revert.antt =====
-- edlink_rostering/services/revert.py: an operator undoes what one sync job wrote. An operation is
-- one transaction, so a refusal changes nothing.
mod Canonical
pub mod Steps
pub mod Rows
pub mod Tables
pub mod Twice
pub mod Superseding
pub mod Restores
mod Examples
unfoldable pub use Canonical.*
use edlink_rostering.Base.{
  ℕ, suc, String, Bool, true, false, not, ◌&&◌, ◌||◌, Option, none, some, List, [], ◌∷◌, ◌++◌, any,
  keep, find, eqb, ◌==◌, if◌then◌else◌, Result, ok, err, ◌>>=◌,
}
use edlink_rostering.Base.Text.{str_leb}
use edlink_rostering.Entities.{
  EntityType, lea, student, enrollment, LeaType, traditional_district, charter_lea, charter_cmo,
  boces, state_agency, Lea, Student, Enrollment, DateField, day, Failure, integrity_error,
}
use edlink_rostering.Database.{
  Db, Json, null, text, iso_date, texts, Payload, LeaRow, StudentRow, EnrollmentRow, Snapshot,
  JobStatus, revert_of, SyncJob, is_live, set_snapshots, update_where, has_lea, has_student,
  moves_referenced,
}
use edlink_rostering.Retry.{is_revert}

pub record RevertOutcome : Type 0 where
  pub revert_id : ℕ
  pub sync_job_id : ℕ
  pub revert_generation_id : ℕ
  pub snapshots_restored : ℕ
  pub canonical_rows_updated : ℕ
  pub canonical_rows_soft_deleted : ℕ

-- The row of `revert_actions`.
pub record RevertAction : Type 0 where
  pub id : ℕ
  pub sync_job_id : ℕ
  pub revert_generation_id : ℕ
  pub operator_identity : String
  pub reason : String
  pub reverted_at : ℕ
  pub snapshots_restored : ℕ

abbrev pub found_target : Option SyncJob → Result RevertError SyncJob
found_target none = err sync_job_not_found
found_target (some job) = ok job

unfoldable pub load_target : Db → ℕ → Result RevertError SyncJob
load_target db sync_job_id = found_target (find (λ j. eqb j.id sync_job_id) db.sync_jobs)

-- A row of `sync_jobs` with this id that is no revert.
abbrev pub is_sync : Db → ℕ → Bool
is_sync db id = any (λ j. eqb j.id id && not (is_revert j)) db.sync_jobs

abbrev pub superseded_by_sync : Db → Option ℕ → Bool
superseded_by_sync db none = false
superseded_by_sync db (some generation_id) = is_sync db generation_id

abbrev pub is_overtaken : Db → ℕ → Snapshot → Bool
is_overtaken db generation_id s =
    eqb s.generation_id generation_id && superseded_by_sync db s.superseded_by_generation_id

-- `_refuse_if_superseded_by_newer_sync`, as the test for a refusal.
unfoldable pub superseded_by_newer : Db → ℕ → Bool
superseded_by_newer db sync_job_id =
    any (is_overtaken db sync_job_id) (db.snapshots student)
    || (any (is_overtaken db sync_job_id) (db.snapshots enrollment)
        || any (is_overtaken db sync_job_id) (db.snapshots lea))

abbrev pub revert_job : ℕ → ℕ → SyncJob → ℕ → SyncJob
revert_job revert_generation_id sync_job_id target now = record {
  id = revert_generation_id;
  lea_id = target.lea_id;
  partner = target.partner;
  status = JobStatus.revert;
  started_at = now;
  completed_at = some now;
  event_count = 0;
  error_count = 0;
  warning_count = 0;
  cursor_before = none;
  cursor_after = none;
  error_summary = some (revert_of sync_job_id);
}

unfoldable pub insert_revert_sync_job_row : SyncJob → Db → Db
insert_revert_sync_job_row job db = record db { sync_jobs = db.sync_jobs ++ job ∷ [] }

-- `source_event_id ASC NULLS FIRST`
abbrev pub event_order : Option String → Option String → Bool
event_order none b = true
event_order (some a) none = false
event_order (some a) (some b) = str_leb a b

abbrev pub insert_by_event : Snapshot → List Snapshot → List Snapshot
insert_by_event s [] = s ∷ []
insert_by_event s (t ∷ rows) =
    let later = insert_by_event s rows in
    if event_order s.source_event_id t.source_event_id then s ∷ t ∷ rows else t ∷ later

abbrev pub by_event : List Snapshot → List Snapshot
by_event [] = []
by_event (s ∷ rows) = insert_by_event s (by_event rows)

abbrev pub is_live_of_job : ℕ → Snapshot → Bool
is_live_of_job generation_id s = eqb s.generation_id generation_id && is_live s

-- The live snapshots that the job wrote.
abbrev pub live_of_job : ℕ → List Snapshot → List Snapshot
live_of_job generation_id rows = by_event (keep (is_live_of_job generation_id) rows)

abbrev pub is_superseded_by : ℕ → Option ℕ → Bool
is_superseded_by generation_id none = false
is_superseded_by generation_id (some g) = eqb g generation_id

abbrev pub is_prior : String → String → ℕ → Snapshot → Bool
is_prior lea_id natural_key generation_id s =
    s.lea_id == lea_id
    && (s.natural_key == natural_key
        && is_superseded_by generation_id s.superseded_by_generation_id)

-- `ORDER BY source_event_id DESC NULLS LAST LIMIT 1`
abbrev pub pick : Snapshot → Option Snapshot → Option Snapshot
pick s none = some s
pick s (some t) = if event_order t.source_event_id s.source_event_id then some s else some t

abbrev pub newest : List Snapshot → Option Snapshot
newest [] = none
newest (s ∷ rows) = pick s (newest rows)

unfoldable pub find_prior_live_snapshot : List Snapshot → String → String → ℕ → Option Snapshot
find_prior_live_snapshot rows lea_id natural_key superseded_by =
    newest (keep (is_prior lea_id natural_key superseded_by) rows)

abbrev pub has_snapshot_id : ℕ → Snapshot → Bool
has_snapshot_id id s = eqb s.snapshot_id id

abbrev pub clear : Snapshot → Snapshot
clear s = record s { superseded_by_generation_id = none; superseded_at = none }

abbrev pub mark : ℕ → ℕ → Snapshot → Snapshot
mark revert_generation_id now s = record s {
  superseded_by_generation_id = some revert_generation_id;
  superseded_at = some now;
}

-- An UPDATE of one snapshot table, by the id of a row.
abbrev pub update_snapshot : EntityType → ℕ → (Snapshot → Snapshot) → Db → Db
update_snapshot t id f db =
    set_snapshots t (update_where (has_snapshot_id id) f (db.snapshots t)) db

-- The counters of `revert`.
pub record Tally : Type 0 where
  pub restored : ℕ
  pub updated : ℕ
  pub soft_deleted : ℕ

abbrev pub deletion_of : Snapshot → Option ℕ
deletion_of prior = if prior.deleted_upstream then prior.source_event_at else none

-- What the revert of one snapshot does before it is marked, by the prior one.
abbrev pub undo :
    EntityType → Snapshot → ℕ → Option Snapshot → Tally × Db → Result RevertError (Tally × Db)
undo t row now none (tally, db) = ok (
  record tally { soft_deleted = suc tally.soft_deleted },
  soft_delete_canonical t row.natural_key now db,
)
undo t row now (some prior) (tally, db) = do
  restored ←
      restore_canonical_from_payload t row.natural_key row.lea_id prior.payload (deletion_of prior)
        (update_snapshot t prior.snapshot_id clear db)
  ok (record tally { updated = suc tally.updated }, restored)

abbrev pub mark_row : EntityType → Snapshot → ℕ → ℕ → Tally × Db → Tally × Db
mark_row t row revert_generation_id now (tally, db) = (
  record tally { restored = suc tally.restored },
  update_snapshot t row.snapshot_id (mark revert_generation_id now) db,
)

-- The body of the loop.
unfoldable pub revert_row :
    EntityType → ℕ → ℕ → ℕ → Snapshot → Tally × Db → Result RevertError (Tally × Db)
revert_row t sync_job_id revert_generation_id now row (tally, db) = do
  undone ←
      undo t row now
        (find_prior_live_snapshot (db.snapshots t) row.lea_id row.natural_key sync_job_id)
        (tally, db)
  ok (mark_row t row revert_generation_id now undone)

unfoldable pub revert_rows :
    EntityType → ℕ → ℕ → ℕ → List Snapshot → Tally × Db → Result RevertError (Tally × Db)
revert_rows t sync_job_id revert_generation_id now [] state = ok state
revert_rows t sync_job_id revert_generation_id now (row ∷ rows) state =
    revert_row t sync_job_id revert_generation_id now row state
    >>= revert_rows t sync_job_id revert_generation_id now rows

-- One round of the loop over the entity types.
unfoldable pub revert_table : EntityType → ℕ → ℕ → ℕ → Tally × Db → Result RevertError (Tally × Db)
revert_table t sync_job_id revert_generation_id now (tally, db) =
    revert_rows t sync_job_id revert_generation_id now (live_of_job sync_job_id (db.snapshots t))
      (tally, db)

unfoldable pub revert_tables : ℕ → ℕ → ℕ → Tally × Db → Result RevertError (Tally × Db)
revert_tables sync_job_id revert_generation_id now state = do
  students ← revert_table student sync_job_id revert_generation_id now state
  enrollments ← revert_table enrollment sync_job_id revert_generation_id now students
  revert_table lea sync_job_id revert_generation_id now enrollments

-- The database, and the table `revert_actions`.
abbrev pub OpsDb : Type 0
OpsDb = Db × List RevertAction

-- The end of `revert`: the action is logged.
abbrev pub log_revert :
    ℕ → ℕ → String → String → ℕ → List RevertAction → Tally × Db → RevertOutcome × OpsDb
log_revert sync_job_id revert_generation_id operator reason now actions (tally, db) = (
  record {
    revert_id = db.fresh;
    sync_job_id = sync_job_id;
    revert_generation_id = revert_generation_id;
    snapshots_restored = tally.restored;
    canonical_rows_updated = tally.updated;
    canonical_rows_soft_deleted = tally.soft_deleted;
  },
  (
    record db { fresh = suc db.fresh },
    actions
        ++ (record {
          id = db.fresh;
          sync_job_id = sync_job_id;
          revert_generation_id = revert_generation_id;
          operator_identity = operator;
          reason = reason;
          reverted_at = now;
          snapshots_restored = tally.restored;
        })
          ∷ [],
  ),
)

abbrev pub no_rows : Tally
no_rows = record { restored = 0; updated = 0; soft_deleted = 0 }

-- The guards of `revert` on the job that it loaded.
abbrev pub refuse_newer : Db → ℕ → SyncJob → Result RevertError SyncJob
refuse_newer db sync_job_id target =
    if superseded_by_newer db sync_job_id then err refused else ok target

-- The database with the job of the revert, whose id is the next free one.
abbrev pub opened : ℕ → SyncJob → ℕ → Db → Db
opened sync_job_id target now db =
    insert_revert_sync_job_row (revert_job db.fresh sync_job_id target now)
      (record db { fresh = suc db.fresh })

unfoldable pub revert : ℕ → String → String → ℕ → OpsDb → Result RevertError (RevertOutcome × OpsDb)
revert sync_job_id operator reason now (db, actions) = do
  target ← load_target db sync_job_id
  allowed ← refuse_newer db sync_job_id target
  done ← revert_tables sync_job_id db.fresh now (no_rows, opened sync_job_id allowed now db)
  ok (log_revert sync_job_id db.fresh operator reason now actions done)
