-- ===== src/Quarantine/Runs.antt =====
-- What a release or a rejection that returned went through.
use edlink_rostering.Base.{
  ℕ, suc, String, ◌≡◌, refl, ap, ◌∙◌, inl, inr, true, Option, none, some, arith, find, eqb, ok,
  ◌>>=◌, >>=-eq-ok, Bool-cases, Option-cases,
}
use edlink_rostering.Entities.{enrollment, same_type}
use edlink_rostering.SyncWorker.HighWater.{same_type_eq}
use edlink_rostering.Database.History.{Later, LaterTable-append, LaterTable-refl}
use edlink_rostering.Database.{
  Payload, Db, released, Resolution, Quarantined, find-update_where-some, has_student,
}
use edlink_rostering.Quarantine.Release.{
  is_unresolved, load_unresolved, get_text, mark_resolved, apply_release, check_release, release,
  upsert_enrollment_canonical, insert_enrollment_snapshot, with_snapshot, required,
  insert_release_sync_job_row,
}

-- The row that a quarantine id names.
abbrev pub row_at : ℕ → Db → Option Quarantined
row_at id db = find (λ r. eqb r.id id) db.quarantine

pub loaded :
    (db : Db) (id : ℕ) {row : Quarantined}
    → load_unresolved db id ≡ ok row
    → (row_at id db ≡ some row) × (is_unresolved row ≡ true)
unfolding load_unresolved
loaded db id {row} h = elim (Option-cases (row_at id db)) [
  | inl missing ↦ cc (rw missing at h)
  | inr (r, found) ↦ elim (Bool-cases (is_unresolved r)) [
    | inl free ↦
        let same : r ≡ row = cc (rw (found, free) at h) in
        (found ∙ ap (λ x. some x) same, rw (← same) free)
    | inr closed ↦ cc (rw (found, closed) at h)
  ]
]

pub row_at-mark_resolved :
    (id now : ℕ) (status : Resolution) (operator : String) (reason : Option String) (db : Db)
    {row : Quarantined}
    → row_at id db ≡ some row
    → (after : Quarantined) × (row_at id (mark_resolved id now status operator reason db)
        ≡ some after)
      × (after.resolved_at ≡ some now)
      × (after.resolution_status ≡ some status)
      × (after.resolution_operator ≡ some operator)
unfolding mark_resolved
row_at-mark_resolved id now status operator reason db {row} h = (
  _,
  find-update_where-some (λ r. eqb r.id id)
      (λ r. record r {
        resolved_at = some now;
        resolution_status = some status;
        resolution_operator = some operator;
        reason = elim reason [ none ↦ r.reason | some s ↦ s ];
      })
      db.quarantine (λ r. refl) h,
  refl,
  refl,
  refl,
)

pub checked :
    (row : Quarantined) (db : Db) {student_id : String}
    → check_release row db ≡ ok student_id
    → (row.entity_type ≡ enrollment)
      × (get_text row.raw_payload "student_id" ≡ some student_id)
      × (has_student db row.lea_id student_id ≡ true)
unfolding check_release
checked row db {student_id} h = elim (Bool-cases (same_type row.entity_type enrollment)) [
  | inr other ↦ cc (rw other at h)
  | inl same ↦ elim (Option-cases (get_text row.raw_payload "student_id")) [
    | inl missing ↦ cc (rw (same, missing) at h)
    | inr (s, found) ↦ elim (Bool-cases (has_student db row.lea_id s)) [
      | inr absent ↦ cc (rw (same, found, absent) at h)
      | inl present ↦
          let e : s ≡ student_id = cc (rw (same, found, present) at h) in
          (
            same_type_eq row.entity_type enrollment same,
            found ∙ ap (λ x. some x) e,
            rw (← e) present,
          )
    ]
  ]
]

-- What a release that returned went through.
pub record Released (id : ℕ) (operator : String) (now : ℕ) (db : Db) (done : ℕ × Db) : Type 0 where
  pub row : Quarantined
  pub student_id : String
  pub found : row_at id db ≡ some row
  pub unresolved : is_unresolved row ≡ true
  pub entity_type : row.entity_type ≡ enrollment
  pub reference : get_text row.raw_payload "student_id" ≡ some student_id
  pub student : has_student db row.lea_id student_id ≡ true
  pub applied : apply_release id row now operator db ≡ ok done

pub Released-by :
    (id : ℕ) (operator : String) (now : ℕ) (db : Db) {done : ℕ × Db}
    → release id operator now db ≡ ok done
    → Released id operator now db done
unfolding release
Released-by id operator now db h =
    let l =
      >>=-eq-ok (load_unresolved db id)
        (λ row. check_release row db >>= λ s. apply_release id row now operator db) h in
    let c = >>=-eq-ok (check_release l.0 db) (λ s. apply_release id l.0 now operator db) l.2 in
    let at = loaded db id l.1 in
    let guards = checked l.0 db c.1 in
    record {
      row = l.0;
      student_id = c.0;
      found = at.0;
      unresolved = at.1;
      entity_type = guards.0;
      reference = guards.1;
      student = guards.2;
      applied = c.2;
    }

Later-with_snapshot :
    (g : ℕ) (lea_id : String) (payload : Payload) (now : ℕ) (db : Db) (key : String)
    → Later db (with_snapshot g lea_id payload now db key)
Later-with_snapshot g lea_id payload now db key t = elim (Bool-cases (same_type t enrollment)) [
  | inl same ↦
      rw (same, same_type_eq t enrollment same)
        (LaterTable-append (db.snapshots enrollment) (db.snapshots enrollment) _
          (LaterTable-refl (db.snapshots enrollment)))
  | inr other ↦ rw other (LaterTable-refl (db.snapshots t))
]

pub quarantine-insert_enrollment_snapshot :
    (g : ℕ) (lea_id : String) (payload : Payload) (now : ℕ) (db : Db) {db' : Db}
    → insert_enrollment_snapshot g lea_id payload now db ≡ ok db'
    → (db'.quarantine ≡ db.quarantine) × Later db db'
unfolding insert_enrollment_snapshot
quarantine-insert_enrollment_snapshot g lea_id payload now db {db'} h =
    let w =
      >>=-eq-ok (required (get_text payload "id"))
        (λ key. ok (with_snapshot g lea_id payload now db key)) h in
    let e : db' ≡ with_snapshot g lea_id payload now db w.0 = cc (w.2) in
    (ap (λ d. d.quarantine) e, rw e (Later-with_snapshot g lea_id payload now db w.0))

pub quarantine-upsert_enrollment_canonical :
    (lea_id : String) (payload : Payload) (db : Db) {db' : Db}
    → upsert_enrollment_canonical lea_id payload db ≡ ok db'
    → (db'.quarantine ≡ db.quarantine) × (db'.snapshots ≡ db.snapshots)
unfolding upsert_enrollment_canonical
quarantine-upsert_enrollment_canonical lea_id payload db h = ground arith

-- The parts of a release after its guards.
pub record Applied (id : ℕ) (row : Quarantined) (now : ℕ) (operator : String) (db : Db)
    (done : ℕ × Db) : Type 0 where
  pub start : Db
  pub inserted : Db
  pub upserted : Db
  pub started : (start.quarantine ≡ db.quarantine) × (start.snapshots ≡ db.snapshots)
  pub insert :
      insert_enrollment_snapshot db.fresh row.lea_id row.raw_payload now start ≡ ok inserted
  pub upsert : upsert_enrollment_canonical row.lea_id row.raw_payload inserted ≡ ok upserted
  pub result : done ≡ (db.fresh, mark_resolved id now released operator none upserted)

pub Applied-as :
    (id : ℕ) (row : Quarantined) (now : ℕ) (operator : String) (db : Db) {done : ℕ × Db}
    → apply_release id row now operator db ≡ ok done
    → Applied id row now operator db done
unfolding apply_release insert_release_sync_job_row
Applied-as id row now operator db h =
    let start =
      insert_release_sync_job_row db.fresh row.lea_id now id (record db { fresh = suc db.fresh }) in
    let i =
      >>=-eq-ok (insert_enrollment_snapshot db.fresh row.lea_id row.raw_payload now start)
        (λ d. upsert_enrollment_canonical row.lea_id row.raw_payload d >>= λ e.
          ok (db.fresh, mark_resolved id now released operator none e))
        h in
    let u =
      >>=-eq-ok (upsert_enrollment_canonical row.lea_id row.raw_payload i.0)
        (λ e. ok (db.fresh, mark_resolved id now released operator none e)) i.2 in
    record {
      start = start;
      inserted = i.0;
      upserted = u.0;
      started = (refl, refl);
      insert = i.1;
      upsert = u.1;
      result = cc (u.2);
    }
