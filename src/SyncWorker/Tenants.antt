-- ===== src/SyncWorker/Tenants.antt =====
-- What the events of a page change for an LEA other than the polled one: nothing.
use edlink_rostering.Base.{
  ℕ, String, ◌≡◌, refl, inl, inr, ◌∙◌, Bool, false, List, [], ◌∷◌, ◌++◌, arith, Bool-cases, ok,
  Memᴰ, keep, ◌==◌, eq_iff,
}
use edlink_rostering.Entities.{
  EntityType, lea, student, enrollment, CanonicalEntity, of_lea, of_student, of_enrollment,
  NormalizedEvent, same_type, entity_id,
}
use edlink_rostering.Validation.Pipeline.{ValidationReport}
use edlink_rostering.Validation.Thresholds.{is_deletion}
use edlink_rostering.Database.{Db, Snapshot, Quarantined, update_where}
use edlink_rostering.SyncWorker.Reads.{is_live_at, read_cursor}
use edlink_rostering.SyncWorker.Writes.{
  Job, write_quarantine_row, new_snapshot, snapshot_lea, upsert_canonical,
}
use edlink_rostering.SyncWorker.Events.{Tally, write_event, process_events}
use edlink_rostering.SyncWorker.Rounds.{process_events_keeps}
use edlink_rostering.SyncWorker.Live.{supersede, snapshots-write_event, OwnLea, snapshot_lea_own}
use edlink_rostering.SyncWorker.HighWater.{same_type_eq}

-- What belongs to one LEA.
abbrev pub snapshots_of : String → EntityType → Db → List Snapshot
snapshots_of l t db = keep (λ s. s.lea_id == l) (db.snapshots t)

abbrev pub quarantine_of : String → Db → List Quarantined
quarantine_of l db = keep (λ r. r.lea_id == l) db.quarantine

-- What a tenant sees of its data is the same in both databases.
pub record SameTenant (l : String) (db db' : Db) : Type 0 where
  pub snapshots : (t : EntityType) → snapshots_of l t db' ≡ snapshots_of l t db
  pub quarantine : quarantine_of l db' ≡ quarantine_of l db
  pub cursors : (partner : String) → read_cursor db' l partner ≡ read_cursor db l partner

pub SameTenant-trans :
    (l : String) (a b c : Db) → SameTenant l a b → SameTenant l b c → SameTenant l a c
SameTenant-trans l a b c h k = record {
  snapshots = λ t. k.snapshots t ∙ h.snapshots t;
  quarantine = k.quarantine ∙ h.quarantine;
  cursors = λ p. k.cursors p ∙ h.cursors p;
}

keep-append_miss {ℓ} :
    {A : Type ℓ} (p : A → Bool) (xs : List A) {x : A}
    → p x ≡ false
    → keep p (xs ++ x ∷ []) ≡ keep p xs
keep-append_miss p [] miss = rw miss
keep-append_miss p (y ∷ xs) miss = ground (arith, keep-append_miss p xs miss)

keep-supersede_other :
    (job : Job) (k l : String) (rows : List Snapshot)
    → (l == job.lea_id) ≡ false
    → keep (λ s. s.lea_id == l) (update_where (is_live_at job.lea_id k) (supersede job) rows)
      ≡ keep (λ s. s.lea_id == l) rows
keep-supersede_other job k l [] other = refl
keep-supersede_other job k l (s ∷ rows) other = ground (
  arith,
  keep-supersede_other job k l rows other,
  eq_iff s.lea_id l,
  eq_iff s.lea_id job.lea_id,
  eq_iff l job.lea_id,
)

-- The tables that the canonical upserts do not write.
other_tables-upsert_canonical :
    (t : EntityType) (e : CanonicalEntity) (d : Bool) (now : ℕ) (db : Db) {db' : Db}
    → upsert_canonical t e d now db ≡ ok db'
    → (db'.quarantine ≡ db.quarantine) × (db'.cursor_state ≡ db.cursor_state)
unfolding upsert_canonical
other_tables-upsert_canonical student (of_student s) d now db h = ground arith
other_tables-upsert_canonical enrollment (of_enrollment r) d now db h = ground arith
other_tables-upsert_canonical lea (of_lea l) d now db h = ground arith
other_tables-upsert_canonical t e d now db h = cc

other_tables-write_event :
    (job : Job) (event : NormalizedEvent) (db : Db) {db' : Db}
    → write_event job event db ≡ ok db'
    → (db'.quarantine ≡ db.quarantine) × (db'.cursor_state ≡ db.cursor_state)
unfolding write_event
other_tables-write_event job event db h =
    other_tables-upsert_canonical event.entity_type event.entity (is_deletion event) job.now _ h

pub read_cursor-same :
    (db db' : Db) (l partner : String)
    → db'.cursor_state ≡ db.cursor_state
    → read_cursor db' l partner ≡ read_cursor db l partner
unfolding read_cursor
read_cursor-same db db' l partner e = rw e

snapshots_of-write_event :
    (job : Job) (event : NormalizedEvent) (db : Db) {db' : Db} (l : String) (t : EntityType)
    → (l == job.lea_id) ≡ false
    → OwnLea job.lea_id event
    → write_event job event db ≡ ok db'
    → snapshots_of l t db' ≡ snapshots_of l t db
snapshots_of-write_event job event db l t other own h =
    let k = entity_id event.entity in
    let rows = db.snapshots event.entity_type in
    let new = new_snapshot job event (is_deletion event) db.fresh in
    let at = snapshot_lea event.entity_type job k in
    let old = update_where (is_live_at job.lea_id k) (supersede job) rows in
    let elsewhere : (at == l) ≡ false =
      ground (arith, snapshot_lea_own job event own, eq_iff at l, eq_iff l job.lea_id) in
    elim (Bool-cases (same_type t event.entity_type)) [
      | inl same ↦
          rw (snapshots-write_event job event db h t, same, same_type_eq t event.entity_type same)
            (keep-append_miss (λ s. s.lea_id == l) old {x = new} elsewhere
              ∙ keep-supersede_other job k l rows other)
      | inr differs ↦ rw (snapshots-write_event job event db h t, differs)
    ]

SameTenant-write_event :
    (job : Job) (event : NormalizedEvent) (db : Db) {db' : Db} (l : String)
    → (l == job.lea_id) ≡ false
    → OwnLea job.lea_id event
    → write_event job event db ≡ ok db'
    → SameTenant l db db'
SameTenant-write_event job event db {db'} l other own h =
    let same = other_tables-write_event job event db h in
    record {
      snapshots = λ t. snapshots_of-write_event job event db l t other own h;
      quarantine = rw (same.0);
      cursors = λ p. read_cursor-same db db' l p same.1;
    }

SameTenant-write_quarantine_row :
    (job : Job) (event : NormalizedEvent) (db : Db) (l : String)
    → (l == job.lea_id) ≡ false
    → SameTenant l db (write_quarantine_row job event db)
unfolding write_quarantine_row read_cursor
SameTenant-write_quarantine_row job event db l other =
    let elsewhere : (job.lea_id == l) ≡ false =
      ground (arith, eq_iff job.lea_id l, eq_iff l job.lea_id) in
    record {
      snapshots = λ t. refl;
      quarantine = keep-append_miss (λ r. r.lea_id == l) db.quarantine elsewhere;
      cursors = λ p. refl;
    }

pub SameTenant-process_events :
    (job : Job) (report : ValidationReport) (events : List NormalizedEvent) (t : Tally) (db : Db)
    {done : Tally × Db} (l : String)
    → (l == job.lea_id) ≡ false
    → ((e : NormalizedEvent) → Memᴰ e events → OwnLea job.lea_id e)
    → process_events job report events (t, db) ≡ ok done
    → SameTenant l db done.1
SameTenant-process_events job report events t db l other own h =
    process_events_keeps job report (SameTenant l db) events t db
      (λ e m d d' w p.
        SameTenant-trans l db d d' p (SameTenant-write_event job e d l other (own e m) w))
      (λ e d p.
        SameTenant-trans l db d (write_quarantine_row job e d) p
          (SameTenant-write_quarantine_row job e d l other))
      h (record { snapshots = λ u. refl; quarantine = refl; cursors = λ p. refl })
