-- ===== src/Quarantine/Resolving.antt =====
-- What release and reject promise: their guards, their effect on the tables, and that a row is
-- resolved once.
use edlink_rostering.Base.{
  ℕ, String, ◌≡◌, refl, ap, ◌∙◌, true, Option, none, some, find, eqb, ok, err, >>=-eq-ok,
}
use Prim.Native.String.{◌++◌ as concat}
use edlink_rostering.Entities.{enrollment}
use edlink_rostering.Database.{Db, Resolution, released, rejected, Quarantined, has_student}
use edlink_rostering.Database.History.{Later, Later-same, Later-trans}
use edlink_rostering.Quarantine.Release.{
  already_resolved, is_unresolved, get_text, load_unresolved, mark_resolved, release, reject,
}
use edlink_rostering.Quarantine.Runs.{
  row_at, loaded, row_at-mark_resolved, Released-by, Applied-as,
  quarantine-insert_enrollment_snapshot, quarantine-upsert_enrollment_canonical,
}

-- The row is resolved, in this way, by this operator, at this time.
pub record ResolvedAs (id : ℕ) (status : Resolution) (operator : String) (now : ℕ) (db : Db)
    : Type 0 where
  pub row : Quarantined
  pub found : row_at id db ≡ some row
  pub resolved_at : row.resolved_at ≡ some now
  pub resolution_status : row.resolution_status ≡ some status
  pub resolution_operator : row.resolution_operator ≡ some operator

ResolvedAs-mark_resolved :
    (id now : ℕ) (status : Resolution) (operator : String) (reason : Option String) (db : Db)
    {row : Quarantined}
    → row_at id db ≡ some row
    → ResolvedAs id status operator now (mark_resolved id now status operator reason db)
ResolvedAs-mark_resolved id now status operator reason db h =
    let (row, found, at, as_status, by_operator) =
      row_at-mark_resolved id now status operator reason db h in
    record {
      row = row;
      found = found;
      resolved_at = at;
      resolution_status = as_status;
      resolution_operator = by_operator;
    }

refuses :
    (id : ℕ) (status : Resolution) (operator : String) (now : ℕ) (db : Db)
    → ResolvedAs id status operator now db
    → load_unresolved db id ≡ err already_resolved
unfolding load_unresolved
refuses id status operator now db r = rw (r.found, r.resolved_at)

-- Any further release or rejection of the row, by anyone and at any time, is refused.
abbrev pub Closed : ℕ → Db → Type 0
Closed id db =
    (operator reason : String) (now : ℕ)
    → (release id operator now db ≡ err already_resolved)
      × (reject id operator reason now db ≡ err already_resolved)

Closed-of :
    (id : ℕ) (status : Resolution) (operator : String) (now : ℕ) (db : Db)
    → ResolvedAs id status operator now db
    → Closed id db
unfolding release reject
Closed-of id status operator now db r operator' reason now' =
    let no = refuses id status operator now db r in (rw no, rw no)

module _ (id : ℕ) (operator : String) (now : ℕ) (db : Db) {done : ℕ × Db}
    (h : release id operator now db ≡ ok done) where
  -- A release that returned found an unresolved enrollment row, whose student is in the table of
  -- students under the LEA of the row.
  pub release_checks :
      (row : Quarantined) × (student_id : String) × (row_at id db ≡ some row)
      × (is_unresolved row ≡ true)
      × (row.entity_type ≡ enrollment)
      × (get_text row.raw_payload "student_id" ≡ some student_id)
      × (has_student db row.lea_id student_id ≡ true)
  release_checks =
      let r = Released-by id operator now db h in
      (r.row, r.student_id, r.found, r.unresolved, r.entity_type, r.reference, r.student)

  -- A release that returned leaves the row released by that operator, so that nobody can release or
  -- reject it again, and keeps every snapshot that was there.
  pub release_resolves :
      ResolvedAs id released operator now done.1 × Closed id done.1 × Later db done.1
  unfolding mark_resolved
  release_resolves =
      let r = Released-by id operator now db h in
      let a = Applied-as id r.row now operator db r.applied in
      let i =
        quarantine-insert_enrollment_snapshot db.fresh r.row.lea_id r.row.raw_payload now a.start
          a.insert in
      let u =
        quarantine-upsert_enrollment_canonical r.row.lea_id r.row.raw_payload a.inserted a.upsert in
      let found : row_at id a.upserted ≡ some r.row =
        ap (find (λ x. eqb x.id id)) (u.0 ∙ (i.0 ∙ a.started.0)) ∙ r.found in
      let marked = mark_resolved id now released operator none a.upserted in
      let as_released = ResolvedAs-mark_resolved id now released operator none a.upserted found in
      let later : Later db marked =
        Later-trans db a.start marked (Later-same db a.start a.started.1)
          (Later-trans a.start a.inserted marked i.1 (Later-same a.inserted marked u.1)) in
      rw (a.result) (as_released, Closed-of id released operator now marked as_released, later)

-- A rejection that returned leaves the row rejected by that operator, so that nobody can release or
-- reject it again, and changes no table but the quarantine.
reject_resolves :
    (id : ℕ) (operator reason : String) (now : ℕ) (db : Db) {db' : Db}
    → reject id operator reason now db ≡ ok db'
    → ResolvedAs id rejected operator now db'
      × Closed id db'
      × (db' ≡ record db { quarantine = db'.quarantine })
unfolding reject mark_resolved
reject_resolves id operator reason now db {db'} h =
    let full = λ (row : Quarantined).
      some (concat (concat (concat "rejected: " reason) "; original: ") row.reason) in
    let l =
      >>=-eq-ok (load_unresolved db id)
        (λ row. ok (mark_resolved id now rejected operator (full row) db)) h in
    let marked = mark_resolved id now rejected operator (full l.0) db in
    let at = loaded db id l.1 in
    let as_rejected = ResolvedAs-mark_resolved id now rejected operator (full l.0) db at.0 in
    let e : db' ≡ marked = cc (l.2) in
    rw e (as_rejected, Closed-of id rejected operator now marked as_rejected, refl)
