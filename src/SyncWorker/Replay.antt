-- ===== src/SyncWorker/Replay.antt =====
-- A page that is processed again writes nothing: the high-water marks remember its events.
use edlink_rostering.Base.{
  suc, ◌+◌, ◌≡◌, refl, ap, subst, inl, inr, Bool, true, false, List, [], ◌∷◌, arith, mem, length,
  Memᴰ, Bool-cases, ok,
}
use edlink_rostering.Entities.{NormalizedEvent}
use edlink_rostering.Validation.Pipeline.{ValidationReport}
use edlink_rostering.Database.{Db}
use edlink_rostering.SyncWorker.Writes.{Job}
use edlink_rostering.SyncWorker.Events.{apply_event, Tally, process_event, process_events}
use edlink_rostering.SyncWorker.Rounds.{stale_in, Applied-by, Rounded-by, process_events-cons}
use edlink_rostering.SyncWorker.Live.{OwnLea}
use edlink_rostering.SyncWorker.HighWater.{
  stale-write_event, stale_self-write_event, stale-write_quarantine_row,
}

-- The loop applies the event: it is cleared, and not sent to quarantine.
abbrev pub Cleared : ValidationReport → NormalizedEvent → Type 0
Cleared report e =
    (mem e.event_id report.quarantined_event_ids ≡ false)
    × (mem e.event_id report.ok_event_ids ≡ true)

stale_after_apply :
    (job : Job) (event : NormalizedEvent) (db : Db) {r : Bool × Db}
    → OwnLea job.lea_id event
    → apply_event job event db ≡ ok r
    → stale_in job.lea_id event r.1 ≡ true
stale_after_apply job event db {r} own h = elim (Applied-by job event db h) [
  | inl (old, same) ↦
      let to : db ≡ r.1 = cc same in subst (λ d. stale_in job.lea_id event d ≡ true) to old
  | inr (_, w, _) ↦ stale_self-write_event job event db own w
]

stale_keeps_apply :
    (job : Job) (event other : NormalizedEvent) (db : Db) {r : Bool × Db}
    → OwnLea job.lea_id event
    → apply_event job event db ≡ ok r
    → stale_in job.lea_id other db ≡ true
    → stale_in job.lea_id other r.1 ≡ true
stale_keeps_apply job event other db {r} own h old = elim (Applied-by job event db h) [
  | inl (_, same) ↦
      let to : db ≡ r.1 = cc same in subst (λ d. stale_in job.lea_id other d ≡ true) to old
  | inr (fresh, w, _) ↦ stale-write_event job event other db own fresh w old
]

stale_keeps_round :
    (job : Job) (report : ValidationReport) (event other : NormalizedEvent) (t : Tally) (db : Db)
    {next : Tally × Db}
    → OwnLea job.lea_id event
    → process_event job report event (t, db) ≡ ok next
    → stale_in job.lea_id other db ≡ true
    → stale_in job.lea_id other next.1 ≡ true
stale_keeps_round job report event other t db {next} own h old =
    elim (Rounded-by job report event t db h) [
      | inl (_, same) ↦
          rw (ap (λ n. n.1) same) (stale-write_quarantine_row job event other db job.lea_id old)
      | inr (inl (_, _, same)) ↦ rw (ap (λ n. n.1) same) old
      | inr (inr (_, _, _, applied, _)) ↦ stale_keeps_apply job event other db own applied old
    ]

stale_keeps_rounds :
    (job : Job) (report : ValidationReport) (events : List NormalizedEvent)
    (other : NormalizedEvent) (t : Tally) (db : Db) {done : Tally × Db}
    → ((e : NormalizedEvent) → Memᴰ e events → OwnLea job.lea_id e)
    → process_events job report events (t, db) ≡ ok done
    → stale_in job.lea_id other db ≡ true
    → stale_in job.lea_id other done.1 ≡ true
unfolding process_events
stale_keeps_rounds job report [] other t db {done} own h old =
    let to : db ≡ done.1 = cc h in subst (λ d. stale_in job.lea_id other d ≡ true) to old
stale_keeps_rounds job report (e ∷ rest) other t db own h old =
    let w = process_events-cons job report e rest t db h in
    stale_keeps_rounds job report rest other w.0.0 w.0.1 (λ x m. own x (Memᴰ.tail m)) w.2
      (stale_keeps_round job report e other t db (own e (Memᴰ.head refl)) w.1 old)

stale_after_round :
    (job : Job) (report : ValidationReport) (event : NormalizedEvent) (t : Tally) (db : Db)
    {next : Tally × Db}
    → OwnLea job.lea_id event
    → Cleared report event
    → process_event job report event (t, db) ≡ ok next
    → stale_in job.lea_id event next.1 ≡ true
stale_after_round job report event t db own c h = elim (Rounded-by job report event t db h) [
  | inl (q, _) ↦ cc (q, c.0)
  | inr (inl (_, skip, _)) ↦ cc (skip, c.1)
  | inr (inr (_, _, _, applied, _)) ↦ stale_after_apply job event db own applied
]

-- After the loop every event that it applied is at or below the mark of its key.
pub process_events_marks :
    (job : Job) (report : ValidationReport) (events : List NormalizedEvent) (t : Tally) (db : Db)
    {done : Tally × Db} (e : NormalizedEvent)
    → ((x : NormalizedEvent) → Memᴰ x events → OwnLea job.lea_id x)
    → process_events job report events (t, db) ≡ ok done
    → Memᴰ e events
    → Cleared report e
    → stale_in job.lea_id e done.1 ≡ true
process_events_marks job report [] t db e own h m c = elim m [ ]
process_events_marks job report (x ∷ rest) t db e own h (Memᴰ.head here) c =
    let w = process_events-cons job report x rest t db h in
    let at = stale_after_round job report x t db (own x (Memᴰ.head refl)) (rw here at c) w.1 in
    rw here (stale_keeps_rounds job report rest x w.0.0 w.0.1 (λ y m. own y (Memᴰ.tail m)) w.2 at)
process_events_marks job report (x ∷ rest) t db e own h (Memᴰ.tail there) c =
    let w = process_events-cons job report x rest t db h in
    process_events_marks job report rest w.0.0 w.0.1 e (λ y m. own y (Memᴰ.tail m)) w.2 there c

-- The tally of a loop that skipped all its events.
abbrev pub all_skipped : Tally → List NormalizedEvent → Tally
all_skipped t events = record t { skipped = t.skipped + length events }

skip_stale :
    (job : Job) (report : ValidationReport) (event : NormalizedEvent) (t : Tally) (db : Db)
    → mem event.event_id report.quarantined_event_ids ≡ false
    → (mem event.event_id report.ok_event_ids ≡ true → stale_in job.lea_id event db ≡ true)
    → process_event job report event (t, db) ≡ ok (record t { skipped = suc t.skipped }, db)
unfolding process_event apply_event
skip_stale job report event t db q old =
    elim (Bool-cases (mem event.event_id report.ok_event_ids)) [
      | inl fine ↦ rw (q, fine, old fine)
      | inr skip ↦ rw (q, skip)
    ]

skip_all :
    (job : Job) (report : ValidationReport) (events : List NormalizedEvent) (t : Tally) (db : Db)
    → ((e : NormalizedEvent)
        → Memᴰ e events
        → (mem e.event_id report.quarantined_event_ids ≡ false))
    → ((e : NormalizedEvent)
        → Memᴰ e events
        → mem e.event_id report.ok_event_ids ≡ true
        → stale_in job.lea_id e db ≡ true)
    → process_events job report events (t, db) ≡ ok (all_skipped t events, db)
unfolding process_events
skip_all job report [] t db q old = ground arith
skip_all job report (e ∷ rest) t db q old =
    let now = skip_stale job report e t db (q e (Memᴰ.head refl)) (old e (Memᴰ.head refl)) in
    let later =
      skip_all job report rest (record t { skipped = suc t.skipped }) db (λ x m. q x (Memᴰ.tail m))
        (λ x m. old x (Memᴰ.tail m)) in
    rw (now, later) (ground arith)

-- The events of a page were processed, those about an LEA itself being about the polled one. If the
-- page is processed again for the same LEA, with a report that quarantines none of them and clears
-- none that the first report did not clear, it changes nothing: every event is skipped, and the
-- database is the one before.
pub replay_changes_nothing :
    (job job' : Job) (report report' : ValidationReport) (events : List NormalizedEvent)
    (t t' : Tally) (db : Db) {done : Tally × Db}
    → job'.lea_id ≡ job.lea_id
    → ((e : NormalizedEvent) → Memᴰ e events → OwnLea job.lea_id e)
    → ((e : NormalizedEvent) → Memᴰ e events → mem e.event_id report'.quarantined_event_ids ≡ false)
    → ((e : NormalizedEvent)
        → Memᴰ e events
        → mem e.event_id report'.ok_event_ids ≡ true
        → Cleared report e)
    → process_events job report events (t, db) ≡ ok done
    → process_events job' report' events (t', done.1) ≡ ok (all_skipped t' events, done.1)
replay_changes_nothing job job' report report' events t t' db {done} same own q c h =
    skip_all job' report' events t' done.1 q
      (λ e m fine. rw same (process_events_marks job report events t db e own h m (c e m fine)))
