-- ===== src/Revert/Rows.antt =====
-- The loop over the rows of one table: afterwards no snapshot of the job is live in it.
use edlink_rostering.Base.{
  ℕ, ◌≤◌, String, ◌≡◌, refl, ◌∙◌, Bool, true, false, not, ◌&&◌, Option, none, some, List, [], ◌∷◌,
  arith, any, count, keep, eqb, eqb_iff, Memᴰ, keep_mem, ok, Result-cases, inl, inr, Option-cases,
}
use edlink_rostering.Entities.{EntityType, same_type}
use edlink_rostering.Database.{Db, Snapshot, update_where}
use edlink_rostering.Revert.{
  is_sync, is_overtaken, is_live_of_job, is_prior, find_prior_live_snapshot, has_snapshot_id, clear,
  mark, restore_canonical_from_payload, soft_delete_canonical, Tally, undo, mark_row, revert_row,
  revert_rows, update_snapshot, deletion_of,
}
use edlink_rostering.SyncWorker.Live.{same_type_refl}
use edlink_rostering.Revert.Steps.{
  newest_mem, id_names, count-update_snapshots, any-update_snapshots, restore-SameHistory,
  soft_delete_canonical-SameHistory,
}

-- Is the row one of those that the loop has before it?
abbrev pub is_ahead : List Snapshot → Snapshot → Bool
is_ahead rest s = any (has_snapshot_id s.snapshot_id) rest

abbrev pub is_missed : ℕ → List Snapshot → Snapshot → Bool
is_missed job rest s = is_live_of_job job s && not (is_ahead rest s)

-- The table while the loop has `rest` before it: a live snapshot of the job is among them, none of
-- the job's snapshots is superseded by a sync, and no id occurs twice.
pub record Pending (db : Db) (job : ℕ) (rest rows : List Snapshot) : Type 0 where
  pub ahead : any (is_missed job rest) rows ≡ false
  pub not_overtaken : any (is_overtaken db job) rows ≡ false
  pub one_id : (i : ℕ) → count (has_snapshot_id i) rows ≤ 1

pub any_fails {ℓ} :
    {A : Type ℓ} (p : A → Bool) (xs : List A) {x : A} → any p xs ≡ false → Memᴰ x xs → p x ≡ false
any_fails p [] h m = elim m [ ]
any_fails p (y ∷ ys) h (Memᴰ.head here) = rw here (ground (arith, h))
any_fails p (y ∷ ys) h (Memᴰ.tail there) = any_fails p ys (ground (arith, h)) there

abbrev wrote : ℕ → Snapshot → Bool
wrote job s = eqb s.generation_id job

module _ (db : Db) (job : ℕ) (sync : is_sync db job ≡ true) where
  -- A snapshot that the job superseded was written by another.
  prior_of_other :
      (s : Snapshot) (lea_id key : String)
      → is_prior lea_id key job s ≡ true
      → is_overtaken db job s ≡ false
      → wrote job s ≡ false
  prior_of_other s lea_id key prior h = elim (Option-cases s.superseded_by_generation_id) [
    | inl live ↦ ground (arith, rw live at prior)
    | inr (g, superseded) ↦
        let by_job : g ≡ job = ground (arith, rw superseded at prior, eqb_iff g job) in
        let overtaken : (wrote job s && is_sync db g) ≡ false = rw superseded at h in
        ground (arith, rw by_job at overtaken, sync)
  ]

  clear-Pending :
      (rest rows : List Snapshot) (s : Snapshot) (lea_id key : String)
      → Memᴰ s rows
      → is_prior lea_id key job s ≡ true
      → Pending db job rest rows
      → Pending db job rest (update_where (has_snapshot_id s.snapshot_id) clear rows)
  clear-Pending rest rows s lea_id key m prior p =
      let other =
        prior_of_other s lea_id key prior
          (any_fails (is_overtaken db job) rows p.not_overtaken m) in
      let foreign = id_names (wrote job) rows m (p.one_id s.snapshot_id) other in
      record {
        ahead =
            any-update_snapshots s.snapshot_id clear (is_missed job rest) (wrote job) rows p.ahead
              foreign (λ r h k. ground (arith, k));
        not_overtaken =
            any-update_snapshots s.snapshot_id clear (is_overtaken db job) (wrote job) rows
              p.not_overtaken foreign (λ r h k. ground (arith, k));
        one_id =
            λ i. rw (count-update_snapshots s.snapshot_id clear i rows (λ r. refl)) (p.one_id i);
      }

module _ (db : Db) (job revert_id now : ℕ) (no_sync : is_sync db revert_id ≡ false) where
  mark_ahead :
      (r : Snapshot) (rest rows : List Snapshot)
      → any (is_missed job (r ∷ rest)) rows ≡ false
      → any
          (is_missed job rest)
          (update_where (has_snapshot_id r.snapshot_id) (mark revert_id now) rows)
        ≡ false
  mark_ahead r rest [] h = refl
  mark_ahead r rest (s ∷ rows) h = ground (
    arith,
    mark_ahead r rest rows,
    eqb_iff s.snapshot_id r.snapshot_id,
    eqb_iff r.snapshot_id s.snapshot_id,
  )

  mark_overtaken :
      (id : ℕ) (rows : List Snapshot)
      → any (is_overtaken db job) rows ≡ false
      → any (is_overtaken db job) (update_where (has_snapshot_id id) (mark revert_id now) rows)
        ≡ false
  mark_overtaken id [] h = refl
  mark_overtaken id (s ∷ rows) h = ground (arith, mark_overtaken id rows, no_sync)

  mark-Pending :
      (r : Snapshot) (rest rows : List Snapshot)
      → Pending db job (r ∷ rest) rows
      → Pending db job rest (update_where (has_snapshot_id r.snapshot_id) (mark revert_id now) rows)
  mark-Pending r rest rows p = record {
    ahead = mark_ahead r rest rows p.ahead;
    not_overtaken = mark_overtaken r.snapshot_id rows p.not_overtaken;
    one_id = λ i.
        rw (count-update_snapshots r.snapshot_id (mark revert_id now) i rows (λ s. refl))
          (p.one_id i);
  }

-- One table is changed, and no job.
pub record OneTable (t : EntityType) (db after : Db) : Type 0 where
  pub others : (u : EntityType) → same_type u t ≡ false → after.snapshots u ≡ db.snapshots u
  pub sync_jobs : after.sync_jobs ≡ db.sync_jobs

-- What the loop keeps, in terms of the table that it is about.
pub record Round (o : Db) (t : EntityType) (job : ℕ) (rest : List Snapshot) (db after : Db)
    : Type 0 where
  pub table : Pending o job rest (after.snapshots t)
  pub one : OneTable t db after

abbrev chosen : EntityType → ℕ → Snapshot → Db → Option Snapshot
chosen t job row db = find_prior_live_snapshot (db.snapshots t) row.lea_id row.natural_key job

module _ (o : Db) (t : EntityType) (job revert_id now : ℕ) (sync : is_sync o job ≡ true)
    (no_sync : is_sync o revert_id ≡ false) where
  undo-Round :
      (row : Snapshot) (ahead : List Snapshot) (tally : Tally) (db : Db) (prior : Option Snapshot)
      {result : Tally × Db}
      → chosen t job row db ≡ prior
      → undo t row now prior (tally, db) ≡ ok result
      → Pending o job ahead (db.snapshots t)
      → Round o t job ahead db result.1
  unfolding find_prior_live_snapshot
  undo-Round row ahead tally db none {result} found h p =
      let e : soft_delete_canonical t row.natural_key now db ≡ result.1 = cc in
      let same = soft_delete_canonical-SameHistory t row.natural_key now db in
      rw (← e) (record {
        table = rw same.snapshots p;
        one = record { others = λ u other. rw same.snapshots refl; sync_jobs = same.sync_jobs };
      })
  undo-Round row ahead tally db (some s) {result} found h p =
      let cleared = update_snapshot t s.snapshot_id clear db in
      elim (Result-cases (
        restore_canonical_from_payload t row.natural_key row.lea_id s.payload (deletion_of s)
          cleared)) [
            | inl (restored, run) ↦
                let e : restored ≡ result.1 = cc (rw run at h) in
                let same =
                  restore-SameHistory t row.natural_key row.lea_id s.payload (deletion_of s) cleared
                    run in
                let (m, is) = keep_mem (is_prior row.lea_id row.natural_key job) (db.snapshots t) (
                  newest_mem (keep (is_prior row.lea_id row.natural_key job) (db.snapshots t))
                    found) in
                rw (← e) (record {
                  table =
                      rw (same.snapshots, same_type_refl t)
                        (clear-Pending o job sync ahead (db.snapshots t) s row.lea_id
                          row.natural_key m is p);
                  one = record {
                    others = λ u other. rw (same.snapshots, other) refl;
                    sync_jobs = same.sync_jobs;
                  };
                })
            | inr (e, failed) ↦ cc (rw failed at h)
          ]

  revert_row-Round :
      (row : Snapshot) (rest : List Snapshot) (tally : Tally) (db : Db) {result : Tally × Db}
      → revert_row t job revert_id now row (tally, db) ≡ ok result
      → Pending o job (row ∷ rest) (db.snapshots t)
      → Round o t job rest db result.1
  unfolding revert_row
  revert_row-Round row rest tally db {result} h p =
      elim (Result-cases (undo t row now (chosen t job row db) (tally, db))) [
        | inl (undone, run) ↦
            let e : mark_row t row revert_id now undone ≡ result = cc (rw run at h) in
            let r = undo-Round row (row ∷ rest) tally db (chosen t job row db) refl run p in
            rw (← e) (record {
              table = rw (same_type_refl t) (
                  mark-Pending o job revert_id now no_sync row rest (undone.1.snapshots t) r.table);
              one = record {
                others = λ u other. rw other (r.one.others u other);
                sync_jobs = r.one.sync_jobs;
              };
            })
        | inr (e, failed) ↦ cc (rw failed at h)
      ]

  pub revert_rows-Round :
      (rest : List Snapshot) (state : Tally × Db) {result : Tally × Db}
      → revert_rows t job revert_id now rest state ≡ ok result
      → Pending o job rest (state.1.snapshots t)
      → Round o t job [] state.1 result.1
  unfolding revert_rows
  revert_rows-Round [] state {result} h p =
      let e : state.1 ≡ result.1 = cc in
      rw (← e) (record { table = p; one = record { others = λ u other. refl; sync_jobs = refl } })
  revert_rows-Round (row ∷ rest) (tally, db) {result} h p =
      elim (Result-cases (revert_row t job revert_id now row (tally, db))) [
        | inl (next, run) ↦
            let r = revert_row-Round row rest tally db run p in
            let later = revert_rows-Round rest next (rw run at h) r.table in
            record {
              table = later.table;
              one = record {
                others = λ u other. later.one.others u other ∙ r.one.others u other;
                sync_jobs = later.one.sync_jobs ∙ r.one.sync_jobs;
              };
            }
        | inr (e, failed) ↦ cc (rw failed at h)
      ]
