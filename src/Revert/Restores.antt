-- ===== src/Revert/Restores.antt =====
-- The revert of what one event wrote.
use mathlib.Core.List.{append-nil}
use edlink_rostering.Base.{
  ℕ, ◌≤◌, String, ◌≡◌, refl, ap, ◌∙◌, true, false, not, ◌&&◌, List, [], ◌∷◌, ◌++◌, map, arith, any,
  count, keep, keep-append, keep_mem, eqb, eqb_iff, eqb_refl, eq_refl, Memᴰ, ok, Result-cases, inl,
  inr, Bool-cases,
}
use edlink_rostering.Entities.{NormalizedEvent, entity_id}
use edlink_rostering.Validation.Thresholds.{is_deletion}
use edlink_rostering.Database.{Db, Snapshot, update_where, is_live}
use edlink_rostering.SyncWorker.Reads.{is_live_at}
use edlink_rostering.SyncWorker.Writes.{Job, new_snapshot}
use edlink_rostering.SyncWorker.Events.{write_event}
use edlink_rostering.SyncWorker.Live.{
  supersede, written, snapshots-write_event, OwnLea, snapshot_lea_own, same_type_refl,
}
use edlink_rostering.Revert.{
  Tally, is_live_of_job, live_of_job, is_prior, newest, find_prior_live_snapshot, has_snapshot_id,
  clear, mark, undo, mark_row, revert_row, revert_rows, revert_table, update_snapshot, deletion_of,
  soft_delete_canonical, restore_canonical_from_payload,
}
use edlink_rostering.Revert.Steps.{
  id_names, mem_counted, soft_delete_canonical-SameHistory, restore-SameHistory,
}
use edlink_rostering.Revert.Superseding.{
  is_touched, is_dated, priors, none_written, supersede_nothing, clear_superseded, mark_absent,
  update_where-append, kept_mem, only_mem, kept_count,
}
use edlink_rostering.Revert.Tables.{any_nowhere}

-- What has to hold of a table before a job: it is new to the table, ids occur once and not yet the
-- next, no live row is dated, and one row at most is live at the key.
pub record Ready (job : Job) (k : String) (fresh : ℕ) (rows : List Snapshot) : Type 0 where
  pub untouched : any (is_touched job.sync_job_id) rows ≡ false
  pub one_id : (i : ℕ) → count (has_snapshot_id i) rows ≤ 1
  pub unused : count (has_snapshot_id fresh) rows ≡ 0
  pub undated : any (λ r. is_live r && is_dated r) rows ≡ false
  pub single : count (is_live_at job.lea_id k) rows ≤ 1

module _ (job : Job) (k : String) (fresh : ℕ) (rows : List Snapshot)
    (ready : Ready job k fresh rows) where
  -- The row that was live at the key, marked and cleared, is as before.
  clear_prior :
      (s : Snapshot)
      → keep (is_live_at job.lea_id k) rows ≡ s ∷ []
      → update_where
          (has_snapshot_id s.snapshot_id)
          clear
          (update_where (is_live_at job.lea_id k) (supersede job) rows)
        ≡ rows
  clear_prior s h =
      let p = is_live_at job.lea_id k in
      let kept : Memᴰ s (keep p rows) = rw h (Memᴰ.head refl) in
      let (m, is) = keep_mem p rows kept in
      clear_superseded job k s.snapshot_id rows
        (any_nowhere (λ r. p r && not (has_snapshot_id s.snapshot_id r)) rows
          (λ r there. elim (Bool-cases (p r)) [
            | inl live ↦
                let same : r ≡ s = only_mem (rw h at (kept_mem p rows there live)) in
                rw (live, same, eqb_refl s.snapshot_id) refl
            | inr gone ↦ rw gone refl
          ]))
        (id_names (λ r. not (p r)) rows m (ready.one_id s.snapshot_id) (rw is refl)) ready.undated

module _ (job : Job) (event : NormalizedEvent) (db : Db) (own : OwnLea job.lea_id event)
    (ready : Ready job (entity_id event.entity) db.fresh (db.snapshots event.entity_type)) where
  abbrev rows : List Snapshot
  rows = db.snapshots event.entity_type

  abbrev new : Snapshot
  new = new_snapshot job event (is_deletion event) db.fresh

  abbrev key : String
  key = entity_id event.entity

  abbrev superseded : List Snapshot
  superseded = update_where (is_live_at job.lea_id key) (supersede job) rows

  written_by_job : live_of_job job.sync_job_id (written job event db) ≡ new ∷ []
  written_by_job =
      rw
        (
          keep-append (is_live_of_job job.sync_job_id) superseded (new ∷ []),
          none_written job key rows ready.untouched,
          eqb_refl job.sync_job_id,
        )
        refl

  prior_found :
      find_prior_live_snapshot (written job event db) new.lea_id new.natural_key job.sync_job_id
      ≡ newest (map (supersede job) (keep (is_live_at job.lea_id key) rows))
  unfolding find_prior_live_snapshot
  prior_found =
      rw
        (
          keep-append (is_prior new.lea_id key job.sync_job_id) superseded (new ∷ []),
          snapshot_lea_own job event own,
          priors job key rows ready.untouched,
          eq_refl job.lea_id,
          eq_refl key,
        )
        (ap newest (append-nil (map (supersede job) (keep (is_live_at job.lea_id key) rows))))

  -- The table as before, and the new snapshot, which the last UPDATE marks.
  marked :
      (revert_id now : ℕ)
      → update_where (has_snapshot_id new.snapshot_id) (mark revert_id now) (rows ++ new ∷ [])
        ≡ rows ++ mark revert_id now new ∷ []
  marked revert_id now =
      rw
        (
          update_where-append (has_snapshot_id db.fresh) (mark revert_id now) rows (new ∷ []),
          mark_absent db.fresh (mark revert_id now) rows ready.unused,
          eqb_refl db.fresh,
        )
        refl

  -- What `undo` leaves of the table, by the rows that were live at the key.
  undone :
      (live : List Snapshot) (now : ℕ) (tally : Tally) (w : Db) {result : Tally × Db}
      → keep (is_live_at job.lea_id key) rows ≡ live
      → w.snapshots event.entity_type ≡ superseded ++ new ∷ []
      → undo event.entity_type new now (newest (map (supersede job) live)) (tally, w) ≡ ok result
      → result.1.snapshots event.entity_type ≡ rows ++ new ∷ []
  undone [] now tally w {result} none_live before h =
      let e : soft_delete_canonical event.entity_type key now w ≡ result.1 = cc in
      let same = soft_delete_canonical-SameHistory event.entity_type key now w in
      rw (← e, same.snapshots, before, supersede_nothing job key rows none_live) refl
  undone (s ∷ []) now tally w {result} one_live before h =
      let cleared = update_snapshot event.entity_type s.snapshot_id clear w in
      let kept : Memᴰ s (keep (is_live_at job.lea_id key) rows) = rw one_live (Memᴰ.head refl) in
      let m = (keep_mem (is_live_at job.lea_id key) rows kept).0 in
      let counted = mem_counted (has_snapshot_id s.snapshot_id) rows m (eqb_refl s.snapshot_id) in
      let differs : has_snapshot_id s.snapshot_id new ≡ false =
        elim (Bool-cases (eqb db.fresh s.snapshot_id)) [
          | inl same ↦
              let e : db.fresh ≡ s.snapshot_id = (eqb_iff db.fresh s.snapshot_id).0 same in
              let zero : count (has_snapshot_id s.snapshot_id) rows ≡ 0 = rw (← e) ready.unused in
              ground (arith, zero, counted)
          | inr other ↦ other
        ] in
      elim (Result-cases (
        restore_canonical_from_payload event.entity_type key new.lea_id s.payload (deletion_of s)
          cleared)) [
            | inl (restored, run) ↦
                let e : restored ≡ result.1 = cc (rw run at h) in
                let same =
                  restore-SameHistory event.entity_type key new.lea_id s.payload (deletion_of s)
                    cleared run in
                rw
                  (
                    ← e,
                    same.snapshots,
                    same_type_refl event.entity_type,
                    before,
                    update_where-append (has_snapshot_id s.snapshot_id) clear superseded (new ∷ []),
                    clear_prior job key db.fresh rows ready s one_live,
                    differs,
                  )
                  refl
            | inr (e, failed) ↦ cc (rw failed at h)
          ]
  undone (s ∷ s' ∷ more) now tally w many before h =
      let two : count (is_live_at job.lea_id key) rows ≡ count (λ r. true) (s ∷ s' ∷ more) =
        kept_count (is_live_at job.lea_id key) rows ∙ ap (count (λ r. true)) many in
      ground (arith, two, ready.single)

  -- An event of a job is written, and then the table of its entity type is reverted, both without an
  -- error. The rows of that table are those from before the event, the superseded one live again and
  -- undated, and then the snapshot of the event, superseded by the revert. Before the event the job
  -- has touched no row of the table, an id occurs once at most and the next one nowhere, no live row
  -- is dated, and at most one is live at the key; an event of an LEA carries the LEA of the job.
  pub revert_restores_snapshots :
      (revert_id now : ℕ) (tally : Tally) {w : Db} {result : Tally × Db}
      → write_event job event db ≡ ok w
      → revert_table event.entity_type job.sync_job_id revert_id now (tally, w) ≡ ok result
      → result.1.snapshots event.entity_type ≡ rows ++ mark revert_id now new ∷ []
  unfolding revert_table revert_rows revert_row
  revert_restores_snapshots revert_id now tally {w} {result} wrote h =
      let t = event.entity_type in
      let live = keep (is_live_at job.lea_id key) rows in
      let before : w.snapshots t ≡ superseded ++ new ∷ [] =
        snapshots-write_event job event db wrote t ∙ rw (same_type_refl t) refl in
      let step : revert_rows t job.sync_job_id revert_id now (new ∷ []) (tally, w) ≡ ok result =
        rw (before, written_by_job) at h in
      let found : find_prior_live_snapshot (w.snapshots t) new.lea_id key job.sync_job_id
          ≡ newest (map (supersede job) live) =
        rw before prior_found in
      elim (Result-cases (undo t new now (newest (map (supersede job) live)) (tally, w))) [
        | inl (u, run) ↦
            let e : mark_row t new revert_id now u ≡ result = cc (rw (found, run) at step) in
            rw (← e, same_type_refl t, undone live now tally w refl before run)
              (marked revert_id now)
        | inr (e, failed) ↦ cc (rw (found, failed) at step)
      ]
