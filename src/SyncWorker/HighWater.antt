-- ===== src/SyncWorker/HighWater.antt =====
-- The high-water mark of a natural key, and how the write of an event moves it.
use edlink_rostering.Base.{
  ℕ, String, ◌≡◌, refl, inl, inr, Bool, true, false, ◌&&◌, Option, none, some, List, [], ◌∷◌, arith,
  keep, keep-append, Bool-cases, ◌==◌, eq_iff, eq_refl, if◌then◌else◌, ok,
}
use mathlib.Core.List.{append-nil}
use edlink_rostering.Base.Text.{str_leb, str_leb_refl, str_leb_trans, str_leb_total}
use edlink_rostering.Entities.{
  EntityType, lea, student, enrollment, same_type, NormalizedEvent, entity_id,
}
use edlink_rostering.Validation.Thresholds.{is_deletion}
use edlink_rostering.Database.{Db, Snapshot, update_where}
use edlink_rostering.SyncWorker.Reads.{is_live_at, latest_live_source_event_id}
use edlink_rostering.SyncWorker.Writes.{Job, new_snapshot, snapshot_lea, write_quarantine_row}
use edlink_rostering.SyncWorker.Events.{is_stale, write_event}
use edlink_rostering.SyncWorker.Rounds.{stale_in}
use edlink_rostering.SyncWorker.Live.{
  supersede, written, same_type_refl, snapshots-write_event, OwnLea, snapshot_lea_own,
}

pub same_type_eq : (t u : EntityType) → same_type t u ≡ true → t ≡ u
same_type_eq lea lea h = refl
same_type_eq student student h = refl
same_type_eq enrollment enrollment h = refl
same_type_eq t u h = cc

keep-supersede_self :
    (job : Job) (k : String) (rows : List Snapshot)
    → keep (is_live_at job.lea_id k) (update_where (is_live_at job.lea_id k) (supersede job) rows)
      ≡ []
keep-supersede_self job k [] = refl
keep-supersede_self job k (s ∷ rows) = ground (arith, keep-supersede_self job k rows)

keep-supersede_ne :
    (job : Job) (k j : String) (rows : List Snapshot)
    → (j == k) ≡ false
    → keep (is_live_at job.lea_id j) (update_where (is_live_at job.lea_id k) (supersede job) rows)
      ≡ keep (is_live_at job.lea_id j) rows
keep-supersede_ne job k j [] h = refl
keep-supersede_ne job k j (s ∷ rows) h = ground (
  arith,
  keep-supersede_ne job k j rows h,
  eq_iff s.natural_key j,
  eq_iff s.natural_key k,
  eq_iff j k,
)

new_is_live :
    (job : Job) (event : NormalizedEvent) (d : Bool) (id : ℕ) (j : String)
    → OwnLea job.lea_id event
    → is_live_at job.lea_id j (new_snapshot job event d id) ≡ (j == entity_id event.entity)
new_is_live job event d id j own =
    let k = entity_id event.entity in
    let at = snapshot_lea event.entity_type job k in
    ground (arith, snapshot_lea_own job event own, eq_iff at job.lea_id, eq_iff k j, eq_iff j k)

keep-written :
    (job : Job) (event : NormalizedEvent) (db : Db) (j : String)
    → OwnLea job.lea_id event
    → keep (is_live_at job.lea_id j) (written job event db) ≡ (
        if j == entity_id event.entity
        then new_snapshot job event (is_deletion event) db.fresh ∷ []
        else keep (is_live_at job.lea_id j) (db.snapshots event.entity_type))
keep-written job event db j own =
    let k = entity_id event.entity in
    let rows = db.snapshots event.entity_type in
    let new = new_snapshot job event (is_deletion event) db.fresh in
    let old = update_where (is_live_at job.lea_id k) (supersede job) rows in
    let parts = keep-append (is_live_at job.lea_id j) old (new ∷ []) in
    let at = new_is_live job event (is_deletion event) db.fresh j own in
    elim (Bool-cases (j == k)) [
      | inl hit ↦
          let none_left : keep (is_live_at job.lea_id j) old ≡ [] =
            rw ((eq_iff j k).0 hit) (keep-supersede_self job k rows) in
          rw (parts, none_left, at, hit)
      | inr miss ↦
          rw (parts, at, miss, keep-supersede_ne job k j rows miss)
            (append-nil (keep (is_live_at job.lea_id j) rows))
    ]

-- The mark that the loop compares an event's id with.
abbrev pub mark : String → Db → EntityType → String → Option String
mark lea_id db t j = latest_live_source_event_id db lea_id t j

-- The write of an event, which if it is about an LEA is about the polled one, moves the mark of its
-- own key to its id, and no other mark of the polled LEA.
pub mark-write_event :
    (job : Job) (event : NormalizedEvent) (db : Db) {db' : Db} (u : EntityType) (j : String)
    → OwnLea job.lea_id event
    → write_event job event db ≡ ok db'
    → mark job.lea_id db' u j ≡ (
        if same_type u event.entity_type && j == entity_id event.entity
        then some event.source_event_id
        else mark job.lea_id db u j)
unfolding latest_live_source_event_id
mark-write_event job event db {db'} u j own h =
    let tables = snapshots-write_event job event db h u in
    elim (Bool-cases (same_type u event.entity_type)) [
      | inr other ↦ rw (tables, other)
      | inl same ↦
          let t = same_type_eq u event.entity_type same in
          rw (tables, same, keep-written job event db j own)
            (elim (Bool-cases (j == entity_id event.entity)) [
              | inl hit ↦ rw hit
              | inr miss ↦ rw (miss, t)
            ])
    ]

is_stale_below :
    (id new old : String) → str_leb id old ≡ true → str_leb new old ≡ false → str_leb id new ≡ true
is_stale_below id new old h k = str_leb_trans id old new h (str_leb_total new old k)

is_stale_moves :
    (id new : String) (old : Option String)
    → is_stale id old ≡ true
    → is_stale new old ≡ false
    → str_leb id new ≡ true
is_stale_moves id new none h k = cc
is_stale_moves id new (some old) h k = is_stale_below id new old h k

-- A write of an event that is not stale leaves no stale event fresh again.
pub stale-write_event :
    (job : Job) (event other : NormalizedEvent) (db : Db) {db' : Db}
    → OwnLea job.lea_id event
    → stale_in job.lea_id event db ≡ false
    → write_event job event db ≡ ok db'
    → stale_in job.lea_id other db ≡ true
    → stale_in job.lea_id other db' ≡ true
stale-write_event job event other db {db'} own fresh h old =
    let u = other.entity_type in
    let j = entity_id other.entity in
    let k = entity_id event.entity in
    let moved = mark-write_event job event db u j own h in
    elim (Bool-cases (same_type u event.entity_type && j == k)) [
      | inr miss ↦ rw (moved, miss) old
      | inl hit ↦
          let parts : (same_type u event.entity_type ≡ true) × ((j == k) ≡ true) = ground arith in
          let type = same_type_eq u event.entity_type parts.0 in
          let key = (eq_iff j k).0 parts.1 in
          rw (moved, hit)
            (is_stale_moves other.source_event_id event.source_event_id (mark job.lea_id db u j) old
              (rw (type, key) fresh))
    ]

mark-write_quarantine_row :
    (job : Job) (event : NormalizedEvent) (db : Db) (lea_id : String) (u : EntityType) (j : String)
    → mark lea_id (write_quarantine_row job event db) u j ≡ mark lea_id db u j
unfolding latest_live_source_event_id write_quarantine_row
mark-write_quarantine_row job event db lea_id u j = refl

pub stale-write_quarantine_row :
    (job : Job) (event other : NormalizedEvent) (db : Db) (lea_id : String)
    → stale_in lea_id other db ≡ true
    → stale_in lea_id other (write_quarantine_row job event db) ≡ true
stale-write_quarantine_row job event other db lea_id h =
    rw (mark-write_quarantine_row job event db lea_id other.entity_type (entity_id other.entity)) h

-- An event that was applied is stale from then on.
pub stale_self-write_event :
    (job : Job) (event : NormalizedEvent) (db : Db) {db' : Db}
    → OwnLea job.lea_id event
    → write_event job event db ≡ ok db'
    → stale_in job.lea_id event db' ≡ true
stale_self-write_event job event db own h =
    rw
      (
        mark-write_event job event db event.entity_type (entity_id event.entity) own h,
        same_type_refl event.entity_type,
        eq_refl (entity_id event.entity),
      )
      (str_leb_refl event.source_event_id)
