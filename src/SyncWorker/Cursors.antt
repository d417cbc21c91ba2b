-- ===== src/SyncWorker/Cursors.antt =====
-- The cursor that is read back after `_upsert_cursor_state`.
use edlink_rostering.Base.{
  String, ◌≡◌, refl, sym, inl, inr, none, some, arith, find, Bool-cases, ◌==◌, eq_iff, eq_refl,
}
use edlink_rostering.Entities.{Cursor}
use edlink_rostering.Database.{Db, CursorRow, upserted, find-upsert}
use edlink_rostering.SyncWorker.Reads.{read_cursor, is_cursor_of, cursor_of_row}
use edlink_rostering.SyncWorker.Writes.{
  Job, non_empty, cursor_row, advance_row, upsert_cursor_state,
}

non_empty_value : (s : String) → (elim (non_empty s) [ none ↦ "" | some v ↦ v ]) ≡ s
non_empty_value s = elim (Bool-cases (s == "")) [
  | inl e ↦ rw e (sym ((eq_iff s "").0 e))
  | inr e ↦ rw e
]

cursor_of_value :
    (cursor : Cursor) (row : CursorRow)
    → row.last_event_id ≡ non_empty cursor.value
    → row.last_event_at ≡ cursor.observed_at
    → cursor_of_row (some row) ≡ cursor
cursor_of_value cursor row id at =
    rw (id, at)
      (λ i. record { value = non_empty_value cursor.value i; observed_at = cursor.observed_at })

pub same_cursor :
    (db db' : Db) (lea_id partner : String)
    → db'.cursor_state ≡ db.cursor_state
    → read_cursor db' lea_id partner ≡ read_cursor db lea_id partner
unfolding read_cursor
same_cursor db db' lea_id partner e = rw e

-- The cursor that is read after a page's upsert is the one that was written.
pub read_cursor-upsert_cursor_state :
    (job : Job) (cursor : Cursor) (db : Db)
    → read_cursor (upsert_cursor_state job cursor db) job.lea_id job.partner ≡ cursor
unfolding read_cursor upsert_cursor_state
read_cursor-upsert_cursor_state job cursor db =
    let p = is_cursor_of job.lea_id job.partner in
    let row = cursor_row job cursor in
    let f = advance_row job cursor in
    rw
      (find-upsert p row f db.cursor_state (ground (arith, eq_refl job.lea_id, eq_refl job.partner))
        (λ r. refl))
      (elim (find p db.cursor_state) as (λ o. cursor_of_row (some (upserted row f o)) ≡ cursor) [
        | none ↦ cursor_of_value cursor row refl refl
        | some r ↦ cursor_of_value cursor (f r) refl refl
      ])
