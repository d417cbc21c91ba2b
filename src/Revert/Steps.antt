-- ===== src/Revert/Steps.antt =====
-- What a revert keeps of a snapshot table, row by row.
use edlink_rostering.Base.{
  ℕ, ◌≤◌, String, ◌≡◌, refl, ◌⊎◌, Bool, true, false, not, ◌&&◌, ◌||◌, Option, some, List, [], ◌∷◌,
  arith, any, count, eqb_refl, ◌==◌, Memᴰ, if◌then◌else◌, Result, ok, err, ◌>>=◌, inl, inr,
  Bool-cases, Option-cases,
}
use edlink_rostering.Entities.{
  Student, Enrollment, Lea, DateField, EntityType, lea, student, enrollment,
}
use edlink_rostering.Database.{
  StudentRow, EnrollmentRow, LeaRow, has_lea, has_student, moves_referenced, Db, Snapshot, Payload,
  null, update_where,
}
use edlink_rostering.Revert.{
  RevertError, pick, newest, has_snapshot_id, restore_canonical_from_payload, soft_delete_canonical,
  student_of, enrollment_of, lea_of, update_student, update_enrollment, update_lea, as_date, get_or,
  event_order,
}

-- The snapshots and the jobs are as before.
pub record SameHistory (db after : Db) : Type 0 where
  pub snapshots : after.snapshots ≡ db.snapshots
  pub sync_jobs : after.sync_jobs ≡ db.sync_jobs

pub soft_delete_canonical-SameHistory :
    (t : EntityType) (key : String) (now : ℕ) (db : Db)
    → SameHistory db (soft_delete_canonical t key now db)
unfolding soft_delete_canonical
soft_delete_canonical-SameHistory student key now db = record { snapshots = refl; sync_jobs = refl }
soft_delete_canonical-SameHistory enrollment key now db = record {
  snapshots = refl;
  sync_jobs = refl;
}
soft_delete_canonical-SameHistory lea key now db = record { snapshots = refl; sync_jobs = refl }

pub newest_mem : (rows : List Snapshot) {s : Snapshot} → newest rows ≡ some s → Memᴰ s rows
newest_mem [] h = cc
newest_mem (r ∷ rows) {s} h = elim (Option-cases (newest rows)) [
  | inl none_there ↦ let e : r ≡ s = cc (rw none_there at h) in Memᴰ.head (rw e refl)
  | inr (t, found) ↦
      picked t found (rw found at h) (Bool-cases (event_order t.source_event_id r.source_event_id))
        (newest_mem rows found)
]
  where
    picked :
        (t : Snapshot)
        → newest rows ≡ some t
        → pick r (some t) ≡ some s
        → (event_order t.source_event_id r.source_event_id ≡ true)
          ⊎ (event_order t.source_event_id r.source_event_id ≡ false)
        → Memᴰ t rows
        → Memᴰ s (r ∷ rows)
    picked t found k (inl first) below = let e : r ≡ s = cc (rw first at k) in Memᴰ.head (rw e refl)
    picked t found k (inr second) below =
        let e : t ≡ s = cc (rw second at k) in Memᴰ.tail (rw (← e) below)

any_absent :
    (i : ℕ) (p : Snapshot → Bool) (rows : List Snapshot)
    → count (has_snapshot_id i) rows ≡ 0
    → any (λ s. has_snapshot_id i s && p s) rows ≡ false
any_absent i p [] h = refl
any_absent i p (r ∷ rows) h = ground (arith, any_absent i p rows, h)

pub mem_counted :
    (q : Snapshot → Bool) (rows : List Snapshot) {s : Snapshot}
    → Memᴰ s rows
    → q s ≡ true
    → 1 ≤ count q rows
mem_counted q [] m k = elim m [ ]
mem_counted q (r ∷ rows) (Memᴰ.head here) k =
    let e : q r ≡ true = rw (← here) k in rw e (omega arith)
mem_counted q (r ∷ rows) (Memᴰ.tail there) k = ground (arith, mem_counted q rows there k)

-- Under distinct ids, the row that a member's id names is that member.
pub id_names :
    (p : Snapshot → Bool) (rows : List Snapshot) {s : Snapshot}
    → Memᴰ s rows
    → count (has_snapshot_id s.snapshot_id) rows ≤ 1
    → p s ≡ false
    → any (λ r. has_snapshot_id s.snapshot_id r && p r) rows ≡ false
id_names p [] m h k = elim m [ ]
id_names p (r ∷ rows) {s} (Memᴰ.head here) h k =
    let self : has_snapshot_id s.snapshot_id r ≡ true = rw (← here) (eqb_refl s.snapshot_id) in
    let rest : count (has_snapshot_id s.snapshot_id) rows ≡ 0 = ground (arith, h, self) in
    let fails : p r ≡ false = rw (← here) k in
    rw (self, fails) (any_absent s.snapshot_id p rows rest)
id_names p (r ∷ rows) {s} (Memᴰ.tail there) h k =
    let below : 1 ≤ count (has_snapshot_id s.snapshot_id) rows =
      mem_counted (has_snapshot_id s.snapshot_id) rows there (eqb_refl s.snapshot_id) in
    let other : has_snapshot_id s.snapshot_id r ≡ false = ground (arith, h, below) in
    let once : count (has_snapshot_id s.snapshot_id) rows ≤ 1 = ground (arith, h, below) in
    rw other (id_names p rows there once k)

module _ (id : ℕ) (f : Snapshot → Snapshot) where
  -- An update that keeps the ids keeps the counts of ids.
  pub count-update_snapshots :
      (i : ℕ) (rows : List Snapshot)
      → ((s : Snapshot) → (f s).snapshot_id ≡ s.snapshot_id)
      → count (has_snapshot_id i) (update_where (has_snapshot_id id) f rows)
        ≡ count (has_snapshot_id i) rows
  count-update_snapshots i [] keeps = refl
  count-update_snapshots i (r ∷ rows) keeps =
      ground (arith, count-update_snapshots i rows keeps, keeps r)

  -- A test that fails on the whole table fails on it after an update, if it fails on what the
  -- update makes of the rows with the id.
  pub any-update_snapshots :
      (p q : Snapshot → Bool) (rows : List Snapshot)
      → any p rows ≡ false
      → any (λ s. has_snapshot_id id s && q s) rows ≡ false
      → ((s : Snapshot) → p s ≡ false → q s ≡ false → p (f s) ≡ false)
      → any p (update_where (has_snapshot_id id) f rows) ≡ false
  any-update_snapshots p q [] h k step = refl
  any-update_snapshots p q (r ∷ rows) h k step =
      ground (arith, any-update_snapshots p q rows, step r, h, k)

update_student-SameHistory :
    (row : StudentRow) (db : Db) {after : Db}
    → update_student row db ≡ ok after
    → SameHistory db after
update_student-SameHistory row db {after} h =
    elim (Bool-cases (not (has_lea db row.student.lea_id) || moves_referenced db row.student)) [
      | inl broken ↦ cc (rw broken at h)
      | inr fine ↦ record { snapshots = cc (rw fine at h); sync_jobs = cc (rw fine at h) }
    ]

update_enrollment-SameHistory :
    (row : EnrollmentRow) (db : Db) {after : Db}
    → update_enrollment row db ≡ ok after
    → SameHistory db after
update_enrollment-SameHistory row db {after} h =
    elim (Bool-cases (
      has_lea db row.enrollment.lea_id
      && has_student db row.enrollment.lea_id row.enrollment.student_id)) [
        | inl fine ↦ record { snapshots = cc (rw fine at h); sync_jobs = cc (rw fine at h) }
        | inr broken ↦ cc (rw broken at h)
      ]

unchanged-SameHistory :
    (db : Db) {after : Db}
    → ◌≡◌ {A = Result RevertError Db} (ok db) (ok after)
    → SameHistory db after
unchanged-SameHistory db h = record { snapshots = cc; sync_jobs = cc }

-- A chain whose last call writes the table.
chain-SameHistory {ℓ} :
    {A : Type ℓ} (first : Result RevertError A) (next : A → Result RevertError Db) (db : Db)
    {after : Db}
    → ((a : A) → next a ≡ ok after → SameHistory db after)
    → (first >>= next) ≡ ok after
    → SameHistory db after
chain-SameHistory (ok a) next db step h = step a h
chain-SameHistory (err e) next db step h = cc

if-SameHistory :
    (b : Bool) (run : Result RevertError Db) (db : Db) {after : Db}
    → (run ≡ ok after → SameHistory db after)
    → (if b then run else ok db) ≡ ok after
    → SameHistory db after
if-SameHistory true run db step h = step h
if-SameHistory false run db step h = unchanged-SameHistory db h

pub restore-SameHistory :
    (t : EntityType) (key lea_id : String) (payload : Payload) (deleted_at : Option ℕ) (db : Db)
    {after : Db}
    → restore_canonical_from_payload t key lea_id payload deleted_at db ≡ ok after
    → SameHistory db after
unfolding restore_canonical_from_payload
restore-SameHistory student key lea_id payload deleted_at db h =
    let row : Student → StudentRow = λ s. record { student = s; deleted_at = deleted_at } in
    let run = student_of key lea_id payload >>= (λ s. update_student (row s) db) in
    if-SameHistory (any (λ r. r.student.id == key) db.students) run db
      (chain-SameHistory (student_of key lea_id payload) (λ s. update_student (row s) db) db
        (λ s. update_student-SameHistory (row s) db))
      h
restore-SameHistory enrollment key lea_id payload deleted_at db h =
    let row : Enrollment → EnrollmentRow =
      λ e. record { enrollment = e; deleted_at = deleted_at } in
    let run = λ (begin end : Option DateField).
      enrollment_of key lea_id payload begin end >>= (λ e. update_enrollment (row e) db) in
    let there = any (λ r. r.enrollment.id == key) db.enrollments in
    chain-SameHistory (as_date (get_or null payload "begin_date"))
      (λ begin.
        as_date (get_or null payload "end_date")
        >>= (λ end. if there then run begin end else ok db))
      db
      (λ begin.
        chain-SameHistory (as_date (get_or null payload "end_date"))
          (λ end. if there then run begin end else ok db) db
          (λ end. if-SameHistory there (run begin end) db (
            chain-SameHistory (enrollment_of key lea_id payload begin end)
              (λ e. update_enrollment (row e) db) db
              (λ e. update_enrollment-SameHistory (row e) db))))
      h
restore-SameHistory lea key lea_id payload deleted_at db h =
    let row : Lea → LeaRow = λ l. record { lea = l; deleted_at = deleted_at } in
    let run = lea_of key payload >>= (λ l. update_lea (row l) db) in
    if-SameHistory (any (λ r. r.lea.id == key) db.leas) run db
      (chain-SameHistory (lea_of key payload) (λ l. update_lea (row l) db) db
        (λ l done. record { snapshots = cc; sync_jobs = cc }))
      h
