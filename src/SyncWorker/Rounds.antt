-- ===== src/SyncWorker/Rounds.antt =====
-- The branches of one round of the loop over a page's events, and the rule for what all of them keep.
use edlink_rostering.Base.{
  suc, ◌+◌, String, ◌≡◌, refl, ◌⊎◌, inl, inr, subst, Bool, true, false, List, [], ◌∷◌, arith, mem,
  length, Memᴰ, Bool-cases, ok, >>=-eq-ok,
}
use edlink_rostering.Entities.{NormalizedEvent, entity_id}
use edlink_rostering.Validation.Pipeline.{ValidationReport}
use edlink_rostering.Database.{Db}
use edlink_rostering.SyncWorker.Reads.{latest_live_source_event_id}
use edlink_rostering.SyncWorker.Writes.{Job, write_quarantine_row}
use edlink_rostering.SyncWorker.Events.{
  is_stale, write_event, apply_event, Tally, tally_changed, process_event, process_events,
}

-- An event at or below the high-water mark of its natural key.
abbrev pub stale_in : String → NormalizedEvent → Db → Bool
stale_in lea_id event db =
    is_stale event.source_event_id
      (latest_live_source_event_id db lea_id event.entity_type (entity_id event.entity))

-- What a call of `apply_event` did, by its two branches.
abbrev pub Applied : Job → NormalizedEvent → Db → Bool × Db → Type 0
Applied job event db r =
    ((stale_in job.lea_id event db ≡ true) × (r ≡ (false, db)))
    ⊎ ((stale_in job.lea_id event db ≡ false)
        × (write_event job event db ≡ ok r.1)
        × (r ≡ (true, r.1)))

pub Applied-by :
    (job : Job) (event : NormalizedEvent) (db : Db) {r : Bool × Db}
    → apply_event job event db ≡ ok r
    → Applied job event db r
unfolding apply_event
Applied-by job event db {r} h = elim (Bool-cases (stale_in job.lea_id event db)) [
  | inl old ↦ inl (old, cc (rw old at h))
  | inr new ↦
      let w = >>=-eq-ok (write_event job event db) (λ db'. ok (true, db')) (rw new at h) in
      inr (new, cc (w.1, w.2), cc (w.2))
]

-- What a round did, by its three branches.
abbrev pub Rounded : Job → ValidationReport → NormalizedEvent → Tally → Db → Tally × Db → Type 0
Rounded job report event t db next =
    ((mem event.event_id report.quarantined_event_ids ≡ true)
      × (next ≡ (record t { quarantined = suc t.quarantined }, write_quarantine_row job event db)))
    ⊎ (((mem event.event_id report.quarantined_event_ids ≡ false)
          × (mem event.event_id report.ok_event_ids ≡ false)
          × (next ≡ (record t { skipped = suc t.skipped }, db)))
        ⊎ ((mem event.event_id report.quarantined_event_ids ≡ false)
            × (mem event.event_id report.ok_event_ids ≡ true)
            × (changed : Bool) × (apply_event job event db ≡ ok (changed, next.1))
            × (next.0 ≡ tally_changed changed t)))

pub Rounded-by :
    (job : Job) (report : ValidationReport) (event : NormalizedEvent) (t : Tally) (db : Db)
    {next : Tally × Db}
    → process_event job report event (t, db) ≡ ok next
    → Rounded job report event t db next
unfolding process_event
Rounded-by job report event t db {next} h =
    elim (Bool-cases (mem event.event_id report.quarantined_event_ids)) [
      | inl q ↦ inl (q, cc (rw q at h))
      | inr nq ↦ elim (Bool-cases (mem event.event_id report.ok_event_ids)) [
        | inr skip ↦ inr (inl (nq, skip, cc (rw (nq, skip) at h)))
        | inl fine ↦
            let w =
              >>=-eq-ok (apply_event job event db) (λ r. ok (tally_changed r.0 t, r.1))
                (rw (nq, fine) at h) in
            inr (inr (nq, fine, w.0.0, cc (w.1, w.2), cc (w.2)))
      ]
    ]

pub process_events-cons :
    (job : Job) (report : ValidationReport) (event : NormalizedEvent) (rest : List NormalizedEvent)
    (t : Tally) (db : Db) {done : Tally × Db}
    → process_events job report (event ∷ rest) (t, db) ≡ ok done
    → (next : Tally × Db) × (process_event job report event (t, db) ≡ ok next)
      × (process_events job report rest next ≡ ok done)
unfolding process_events
process_events-cons job report event rest t db h =
    >>=-eq-ok (process_event job report event (t, db)) (process_events job report rest) h

module _ {ℓ} (job : Job) (report : ValidationReport) (P : Db → Type ℓ) where
  -- A property of the database that the writes of an event keep, for every event of the page.
  abbrev pub WriteKeeps : List NormalizedEvent → Type ℓ
  WriteKeeps events =
      (e : NormalizedEvent)
      → Memᴰ e events
      → (db db' : Db) → write_event job e db ≡ ok db'
      → P db
      → P db'

  apply_event_keeps :
      (e : NormalizedEvent) (db : Db) {r : Bool × Db}
      → ((d' : Db) → write_event job e db ≡ ok d' → P db → P d')
      → apply_event job e db ≡ ok r
      → P db
      → P r.1
  apply_event_keeps e db {r} write h p = elim (Applied-by job e db h) [
    | inl (_, same) ↦ let to : db ≡ r.1 = cc same in subst P to p
    | inr (_, w, _) ↦ write r.1 w p
  ]

  process_event_keeps :
      (e : NormalizedEvent) (t : Tally) (db : Db) {next : Tally × Db}
      → ((d' : Db) → write_event job e db ≡ ok d' → P db → P d')
      → (P db → P (write_quarantine_row job e db))
      → process_event job report e (t, db) ≡ ok next
      → P db
      → P next.1
  process_event_keeps e t db {next} write row h p = elim (Rounded-by job report e t db h) [
    | inl (_, same) ↦
        let to : write_quarantine_row job e db ≡ next.1 = cc same in subst P to (row p)
    | inr (inl (_, _, same)) ↦ let to : db ≡ next.1 = cc same in subst P to p
    | inr (inr (_, _, changed, applied, _)) ↦ apply_event_keeps e db write applied p
  ]

  pub process_events_keeps :
      (events : List NormalizedEvent) (t : Tally) (db : Db) {done : Tally × Db}
      → WriteKeeps events
      → ((e : NormalizedEvent) (d : Db) → P d → P (write_quarantine_row job e d))
      → process_events job report events (t, db) ≡ ok done
      → P db
      → P done.1
  unfolding process_events
  process_events_keeps [] t db {done} write row h p = let to : db ≡ done.1 = cc h in subst P to p
  process_events_keeps (e ∷ rest) t db write row h p =
      let w = process_events-cons job report e rest t db h in
      let now = process_event_keeps e t db (write e (Memᴰ.head refl) db) (row e db) w.1 p in
      process_events_keeps rest w.0.0 w.0.1 (λ x m. write x (Memᴰ.tail m)) row w.2 now

-- Every event of the page is counted once.
pub process_events_counts :
    (job : Job) (report : ValidationReport) (events : List NormalizedEvent) (t : Tally) (db : Db)
    {done : Tally × Db}
    → process_events job report events (t, db) ≡ ok done
    → done.0.applied + done.0.skipped + done.0.quarantined
      ≡ t.applied + t.skipped + t.quarantined + length events
unfolding process_events
process_events_counts job report [] t db h = ground arith
process_events_counts job report (e ∷ rest) t db h =
    let w = process_events-cons job report e rest t db h in
    let later = process_events_counts job report rest w.0.0 w.0.1 w.2 in
    ground (arith, later, Rounded-by job report e t db w.1)
