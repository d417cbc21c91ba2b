-- ===== src/Revert/Twice.antt =====
-- A revert that is asked for twice.
use edlink_rostering.Base.{
  ℕ, ◌≤◌, String, ◌≡◌, refl, ◌∙◌, true, false, List, [], ◌∷◌, ◌++◌, arith, any, count, find, eqb,
  ok, Result-cases, inl, inr, Bool-cases, Option-cases,
}
use edlink_rostering.Entities.{EntityType, lea, student, enrollment}
use edlink_rostering.Database.{Db, SyncJob}
use edlink_rostering.Revert.{
  RevertOutcome, RevertAction, OpsDb, Tally, no_rows, is_sync, is_overtaken, superseded_by_newer,
  live_of_job, has_snapshot_id, load_target, opened, revert_job, insert_revert_sync_job_row,
  revert_table, revert_tables, revert_rows, log_revert, revert,
}
use edlink_rostering.Revert.Tables.{
  find_before, is_sync-opened, overtaken_same, Pending-done, revert_tables-Reverted,
}

-- A run of `revert` that succeeded: its guards passed, and its rounds ran.
revert-ok :
    (sync_job_id : ℕ) (operator reason : String) (now : ℕ) (db : Db) (actions : List RevertAction)
    {result : RevertOutcome × OpsDb}
    → revert sync_job_id operator reason now (db, actions) ≡ ok result
    → (target : SyncJob) × (load_target db sync_job_id ≡ ok target)
      × (superseded_by_newer db sync_job_id ≡ false)
      × (done : Tally × Db) × (revert_tables sync_job_id db.fresh now
            (no_rows, opened sync_job_id target now db)
          ≡ ok done)
      × (log_revert sync_job_id db.fresh operator reason now actions done ≡ result)
unfolding revert
revert-ok sync_job_id operator reason now db actions h =
    elim (Result-cases (load_target db sync_job_id)) [
      | inl (target, found) ↦ elim (Bool-cases (superseded_by_newer db sync_job_id)) [
        | inl newer ↦ cc (rw (found, newer) at h)
        | inr free ↦
            elim (Result-cases (
              revert_tables sync_job_id db.fresh now (no_rows, opened sync_job_id target now db))) [
                | inl (done, run) ↦
                    (target, found, free, done, run, cc (rw (found, free, run) at h))
                | inr (e, failed) ↦ cc (rw (found, free, failed) at h)
              ]
      ]
      | inr (e, missing) ↦ cc (rw missing at h)
    ]

-- With no snapshot left to revert, the rounds do nothing.
revert_tables-nothing :
    (job revert_id now : ℕ) (tally : Tally) (db : Db)
    → ((t : EntityType) → live_of_job job (db.snapshots t) ≡ [])
    → revert_tables job revert_id now (tally, db) ≡ ok (tally, db)
unfolding revert_tables revert_table revert_rows
revert_tables-nothing job revert_id now tally db none_left =
    rw (none_left student, none_left enrollment, none_left lea) refl

not_newer :
    (db : Db) (job : ℕ)
    → ((t : EntityType) → any (is_overtaken db job) (db.snapshots t) ≡ false)
    → superseded_by_newer db job ≡ false
unfolding superseded_by_newer
not_newer db job fine = rw (fine student, fine enrollment, fine lea) refl

newer_not :
    (db : Db) (job : ℕ)
    → superseded_by_newer db job ≡ false
    → (t : EntityType) → any (is_overtaken db job) (db.snapshots t) ≡ false
unfolding superseded_by_newer
newer_not db job h student = ground (arith, h)
newer_not db job h enrollment = ground (arith, h)
newer_not db job h lea = ground (arith, h)

target_again :
    (db : Db) (sync_job_id : ℕ) (target : SyncJob) (jobs : List SyncJob) (after : Db)
    → load_target db sync_job_id ≡ ok target
    → after.sync_jobs ≡ db.sync_jobs ++ jobs
    → load_target after sync_job_id ≡ ok target
unfolding load_target
target_again db sync_job_id target jobs after h e =
    elim (Option-cases (find (λ j. eqb j.id sync_job_id) db.sync_jobs)) [
      | inl missing ↦ cc (rw missing at h)
      | inr (job, found) ↦
          rw (e, find_before (λ j. eqb j.id sync_job_id) db.sync_jobs jobs found) (rw found at h)
    ]

-- A revert that finds nothing to do.
idle_revert :
    (job : ℕ) (operator reason : String) (now : ℕ) (db : Db) (actions : List RevertAction)
    (target : SyncJob)
    → load_target db job ≡ ok target
    → ((t : EntityType) → any (is_overtaken db job) (db.snapshots t) ≡ false)
    → ((t : EntityType) → live_of_job job (db.snapshots t) ≡ [])
    → revert job operator reason now (db, actions)
      ≡ ok (log_revert job db.fresh operator reason now actions (no_rows, opened job target now db))
unfolding revert insert_revert_sync_job_row
idle_revert job operator reason now db actions target found fine none_left =
    rw
      (
        found,
        not_newer db job fine,
        revert_tables-nothing job db.fresh now no_rows (opened job target now db) none_left,
      )
      refl

-- In each snapshot table an id occurs at most once, the job is no revert, and the next free id is
-- not that of a sync. If a revert of the job succeeds, a second one succeeds too: it restores,
-- updates and deletes no row, and leaves the snapshots and the canonical tables.
pub second_revert_changes_nothing :
    (sync_job_id : ℕ) (operator reason operator₂ reason₂ : String) (now later : ℕ) (db : Db)
    (actions : List RevertAction) {outcome : RevertOutcome} {after : Db}
    {logged : List RevertAction}
    → ((t : EntityType) (i : ℕ) → count (has_snapshot_id i) (db.snapshots t) ≤ 1)
    → is_sync db sync_job_id ≡ true
    → is_sync db db.fresh ≡ false
    → revert sync_job_id operator reason now (db, actions) ≡ ok (outcome, (after, logged))
    → (again : RevertOutcome) × (last : Db) × (logged₂ : List RevertAction) × (revert sync_job_id
          operator₂ reason₂ later
          (after, logged)
        ≡ ok (again, (last, logged₂)))
      × (again.snapshots_restored ≡ 0)
      × (again.canonical_rows_updated ≡ 0)
      × (again.canonical_rows_soft_deleted ≡ 0)
      × (last.snapshots ≡ after.snapshots)
      × (last.students ≡ after.students)
      × (last.enrollments ≡ after.enrollments)
      × (last.leas ≡ after.leas)
unfolding revert insert_revert_sync_job_row
second_revert_changes_nothing sync_job_id operator reason operator₂ reason₂ now later db actions
      {outcome} {after} {logged} ids sync free h =
    let (target, found, not_over, done, run, e) =
      revert-ok sync_job_id operator reason now db actions h in
    let o = opened sync_job_id target now db in
    let same = is_sync-opened sync_job_id target now db in
    let fine : (t : EntityType) → any (is_overtaken o sync_job_id) (o.snapshots t) ≡ false = λ t.
      overtaken_same db o sync_job_id (db.snapshots t) same (newer_not db sync_job_id not_over t) in
    let left =
      revert_tables-Reverted o sync_job_id db.fresh now (rw (same sync_job_id) sync)
        (rw (same db.fresh) free) fine ids no_rows run in
    let snapshots : done.1.snapshots ≡ after.snapshots = cc in
    let jobs : after.sync_jobs ≡ o.sync_jobs = (cc) ∙ left.sync_jobs in
    let second =
      idle_revert sync_job_id operator₂ reason₂ later after logged target
        (target_again db sync_job_id target (revert_job db.fresh sync_job_id target now ∷ []) after
          found jobs)
        (λ t. rw (← snapshots) (
          overtaken_same o after sync_job_id (done.1.snapshots t) (λ id. rw jobs refl)
            (left.tables t).not_overtaken))
        (λ t. rw (← snapshots) (Pending-done o sync_job_id (done.1.snapshots t) (left.tables t))) in
    let idle = opened sync_job_id target later after in
    let result =
      log_revert sync_job_id after.fresh operator₂ reason₂ later logged (no_rows, idle) in
    (result.0, result.1.0, result.1.1, second, refl, refl, refl, refl, refl, refl, refl)
