-- ===== src/SyncWorker/Live.antt =====
-- At most one snapshot of a natural key is live.
use edlink_rostering.Base.{
  ℕ, ◌≤◌, String, ◌≡◌, refl, inl, inr, ap, ◌∙◌, Bool, true, some, List, [], ◌∷◌, ◌++◌, arith, count,
  count-append, Memᴰ, Bool-cases, eq_iff, if◌then◌else◌, ok,
}
use edlink_rostering.Entities.{
  EntityType, lea, student, enrollment, same_type, CanonicalEntity, of_lea, of_student,
  of_enrollment, NormalizedEvent, entity_id,
}
use edlink_rostering.Validation.Thresholds.{is_deletion}
use edlink_rostering.Validation.Pipeline.{ValidationReport}
use edlink_rostering.Database.{Db, Snapshot, update_where}
use edlink_rostering.SyncWorker.Reads.{is_live_at}
use edlink_rostering.SyncWorker.Writes.{
  Job, mark_prior_snapshot_superseded, insert_snapshot, new_snapshot, snapshot_lea,
  upsert_canonical, write_quarantine_row,
}
use edlink_rostering.SyncWorker.Events.{write_event, Tally, process_events}
use edlink_rostering.SyncWorker.Rounds.{process_events_keeps}

-- What `_mark_prior_snapshot_superseded` sets.
abbrev pub supersede : Job → Snapshot → Snapshot
supersede job s = record s {
  superseded_by_generation_id = some job.sync_job_id;
  superseded_at = some job.now;
}

-- The snapshot tables after `write_event`, whichever canonical table it goes on to.
abbrev pub written : Job → NormalizedEvent → Db → List Snapshot
written job event db =
    update_where (is_live_at job.lea_id (entity_id event.entity)) (supersede job)
      (db.snapshots event.entity_type)
    ++ new_snapshot job event (is_deletion event) db.fresh ∷ []

pub same_type_refl : (t : EntityType) → same_type t t ≡ true
same_type_refl lea = refl
same_type_refl student = refl
same_type_refl enrollment = refl

snapshots-upsert_canonical :
    (t : EntityType) (e : CanonicalEntity) (d : Bool) (now : ℕ) (db : Db) {db' : Db}
    → upsert_canonical t e d now db ≡ ok db'
    → db'.snapshots ≡ db.snapshots
unfolding upsert_canonical
snapshots-upsert_canonical student (of_student s) d now db h = ground arith
snapshots-upsert_canonical enrollment (of_enrollment r) d now db h = ground arith
snapshots-upsert_canonical lea (of_lea l) d now db h = ground arith
snapshots-upsert_canonical t e d now db h = cc

pub snapshots-write_event :
    (job : Job) (event : NormalizedEvent) (db : Db) {db' : Db}
    → write_event job event db ≡ ok db'
    → (u : EntityType)
    → db'.snapshots u
      ≡ (if same_type u event.entity_type then written job event db else db.snapshots u)
unfolding write_event
snapshots-write_event job event db {db'} h u =
    let t = event.entity_type in
    let marked = mark_prior_snapshot_superseded job t (entity_id event.entity) db in
    ap (λ tables. tables u)
      (snapshots-upsert_canonical t event.entity (is_deletion event) job.now
        (insert_snapshot job event (is_deletion event) marked) h)
    ∙ elim (Bool-cases (same_type u t)) [
      | inl same ↦ rw (same, same_type_refl t)
      | inr other ↦ rw other
    ]

-- The keys under which a snapshot is looked up.
abbrev pub live_count : Db → EntityType → String → String → ℕ
live_count db t lea_id natural_key = count (is_live_at lea_id natural_key) (db.snapshots t)

abbrev pub SingleLive : Db → Type 0
SingleLive db =
    (t : EntityType) (lea_id natural_key : String) → live_count db t lea_id natural_key ≤ 1

-- An LEA's own event is about the LEA that is polled.
abbrev pub OwnLea : String → NormalizedEvent → Type 0
OwnLea lea_id event = event.entity_type ≡ lea → entity_id event.entity ≡ lea_id

count-supersede_self :
    (job : Job) (k : String) (rows : List Snapshot)
    → count (is_live_at job.lea_id k) (update_where (is_live_at job.lea_id k) (supersede job) rows)
      ≡ 0
count-supersede_self job k [] = refl
count-supersede_self job k (s ∷ rows) = ground (arith, count-supersede_self job k rows)

count-supersede-le :
    (job : Job) (k l j : String) (rows : List Snapshot)
    → count (is_live_at l j) (update_where (is_live_at job.lea_id k) (supersede job) rows)
      ≤ count (is_live_at l j) rows
count-supersede-le job k l j [] = omega arith
count-supersede-le job k l j (s ∷ rows) = ground (arith, count-supersede-le job k l j rows)

pub snapshot_lea_own :
    (job : Job) (event : NormalizedEvent)
    → OwnLea job.lea_id event
    → snapshot_lea event.entity_type job (entity_id event.entity) ≡ job.lea_id
snapshot_lea_own job event own = go event.entity_type refl
  where
    go :
        (t : EntityType)
        → event.entity_type ≡ t
        → snapshot_lea t job (entity_id event.entity) ≡ job.lea_id
    go lea e = own e
    go student e = refl
    go enrollment e = refl

-- A new snapshot is live at its own key only.
pub new_snapshot_key :
    (job : Job) (event : NormalizedEvent) (d : Bool) (id : ℕ) (l j : String)
    → OwnLea job.lea_id event
    → is_live_at l j (new_snapshot job event d id) ≡ true
    → (l ≡ job.lea_id) × (j ≡ entity_id event.entity)
new_snapshot_key job event d id l j own h =
    let at = snapshot_lea event.entity_type job (entity_id event.entity) in
    ground (arith, snapshot_lea_own job event own, eq_iff (entity_id event.entity) j, eq_iff at l)

count-written :
    (job : Job) (event : NormalizedEvent) (db : Db) (l j : String)
    → OwnLea job.lea_id event
    → count (is_live_at l j) (db.snapshots event.entity_type) ≤ 1
    → count (is_live_at l j) (written job event db) ≤ 1
count-written job event db l j own h =
    let k = entity_id event.entity in
    let rows = db.snapshots event.entity_type in
    let new = new_snapshot job event (is_deletion event) db.fresh in
    let parts =
      count-append (is_live_at l j) (update_where (is_live_at job.lea_id k) (supersede job) rows)
        (new ∷ []) in
    elim (Bool-cases (is_live_at l j new)) [
      | inl hit ↦
          let key = new_snapshot_key job event (is_deletion event) db.fresh l j own hit in
          rw (parts, hit, key.0, key.1, count-supersede_self job k rows) (omega arith)
      | inr miss ↦ rw (parts, miss) (omega (arith, count-supersede-le job k l j rows))
    ]

pub write_event-SingleLive :
    (job : Job) (event : NormalizedEvent) (db : Db) {db' : Db}
    → OwnLea job.lea_id event
    → write_event job event db ≡ ok db'
    → SingleLive db
    → SingleLive db'
write_event-SingleLive job event db own h single t l j =
    elim (Bool-cases (same_type t event.entity_type)) [
      | inl same ↦
          rw (snapshots-write_event job event db h t, same)
            (count-written job event db l j own (single event.entity_type l j))
      | inr other ↦ rw (snapshots-write_event job event db h t, other) (single t l j)
    ]

write_quarantine_row-SingleLive :
    (job : Job) (event : NormalizedEvent) (db : Db)
    → SingleLive db
    → SingleLive (write_quarantine_row job event db)
unfolding write_quarantine_row
write_quarantine_row-SingleLive job event db single = single

-- The loop over the events of a page keeps at most one snapshot of a natural key live.
pub process_events-SingleLive :
    (job : Job) (report : ValidationReport) (events : List NormalizedEvent) (t : Tally) (db : Db)
    {done : Tally × Db}
    → ((e : NormalizedEvent) → Memᴰ e events → OwnLea job.lea_id e)
    → process_events job report events (t, db) ≡ ok done
    → SingleLive db
    → SingleLive done.1
process_events-SingleLive job report events t db own h single =
    process_events_keeps job report SingleLive events t db
      (λ e m d d'. write_event-SingleLive job e d (own e m))
      (λ e d. write_quarantine_row-SingleLive job e d) h single
