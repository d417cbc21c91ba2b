-- ===== src/Connectors/Handling.antt =====
-- Each operation of the service, where it is accepted, has the effect of one edit and one audit row.
use edlink_rostering.Base.{
  ℕ, String, ◌≡◌, refl, false, Option, some, ok, Result-cases, inl, inr, Bool-cases, Option-cases,
}
use edlink_rostering.Registry.{Authorization, Registry}
use edlink_rostering.Connectors.{
  validate_interval, write_audit_log, load_live_row, assert_lea_exists, update_authorization,
  update_by_operator, revoke_row, set_interval, authorize_live, authorize, revoke,
  adjust_poll_interval,
}
use edlink_rostering.Connectors.Requests.{
  Action, authorizes, revokes, adjusts, Request, handle, perform, request_entry,
}
use edlink_rostering.Registry.{authorize_detail, revoke_detail, interval_detail}
use edlink_rostering.Connectors.{audit_row}
use edlink_rostering.Connectors.Effects.{
  out_of_bounds, Effect, authorize_live-Prepared, audited-Effect, update-Prepared,
  update_by_operator-ok, validate_interval-ok, set_interval-Keeps, revoke_row-Keeps,
}

-- Every live row of the table has an interval in the bounds.
abbrev pub LiveInBounds : Registry → Type 0
LiveInBounds db =
    (lea_id partner : String) (r : Authorization)
    → load_live_row db lea_id partner ≡ some r
    → out_of_bounds r.poll_interval_seconds ≡ false

module _ (q : Request) (db : Registry) {after : Registry} where
  authorize-Effect :
      (given : Option ℕ) (notes : Option String)
      → LiveInBounds db
      → perform (authorizes given notes) q db ≡ ok after
      → Effect (request_entry (record q { action = authorizes given notes })) db after
  unfolding authorize
  authorize-Effect given notes inside h = elim (Bool-cases (assert_lea_exists db q.lea_id)) [
    | inl there ↦
        let current = load_live_row db q.lea_id q.partner in
        elim (Result-cases
          (authorize_live current q.lea_id q.partner q.operator_id given notes q.now db)) [
            | inl (prepared, done) ↦
                let p =
                  authorize_live-Prepared q.lea_id q.partner q.operator_id given notes q.now db
                    current (inside q.lea_id q.partner) done in
                let row =
                  audit_row q.operator_id "connector.authorized" prepared.0.id q.lea_id q.reason
                    (authorize_detail q.partner prepared.1 prepared.0.created_new_row) q.now in
                elim (Result-cases (write_audit_log row prepared.2)) [
                  | inl (audited, written) ↦
                      let e : audited ≡ after = cc (rw (there, done, written) at h) in
                      rw (← e) (audited-Effect row db prepared.2 p written)
                  | inr (e, failed) ↦ cc (rw (there, done, failed) at h)
                ]
            | inr (e, failed) ↦ cc (rw (there, failed) at h)
          ]
    | inr absent ↦ cc (rw absent at h)
  ]

  revoke-Effect :
      perform revokes q db ≡ ok after
      → Effect (request_entry (record q { action = revokes })) db after
  unfolding revoke
  revoke-Effect h = elim (Option-cases (load_live_row db q.lea_id q.partner)) [
    | inl missing ↦ cc (rw missing at h)
    | inr (current, found) ↦
        let f = revoke_row q.operator_id q.now in
        let row =
          audit_row q.operator_id "connector.revoked" current.id q.lea_id q.reason
            (revoke_detail q.partner current.status) q.now in
        elim (Result-cases (update_by_operator q.operator_id current.id f db)) [
          | inl (updated, done) ↦ elim (Result-cases (write_audit_log row updated)) [
            | inl (audited, written) ↦
                let e : audited ≡ after = cc (rw (found, done, written) at h) in
                let same = update_by_operator-ok q.operator_id current.id f db done in
                rw (← e) (
                  audited-Effect row db updated
                    (rw (← same)
                      (update-Prepared current.id f db (revoke_row-Keeps q.operator_id q.now)))
                    written)
            | inr (e, failed) ↦ cc (rw (found, done, failed) at h)
          ]
          | inr (e, failed) ↦ cc (rw (found, failed) at h)
        ]
  ]

  adjust-Effect :
      (seconds : ℕ)
      → perform (adjusts seconds) q db ≡ ok after
      → Effect (request_entry (record q { action = adjusts seconds })) db after
  unfolding adjust_poll_interval
  adjust-Effect seconds h = elim (Result-cases (validate_interval seconds)) [
    | inl (interval, valid) ↦ elim (Option-cases (load_live_row db q.lea_id q.partner)) [
      | inl missing ↦ cc (rw (valid, missing) at h)
      | inr (current, found) ↦
          let updated = update_authorization current.id (set_interval interval) db in
          let row =
            audit_row q.operator_id "connector.poll_interval_adjusted" current.id q.lea_id q.reason
              (interval_detail q.partner current.poll_interval_seconds interval) q.now in
          elim (Result-cases (write_audit_log row updated)) [
            | inl (audited, written) ↦
                let e : audited ≡ after = cc (rw (valid, found, written) at h) in
                rw (← e) (
                  audited-Effect row db updated
                    (update-Prepared current.id (set_interval interval) db
                      (set_interval-Keeps interval (validate_interval-ok seconds valid).1))
                    written)
            | inr (e, failed) ↦ cc (rw (valid, found, failed) at h)
          ]
    ]
    | inr (e, failed) ↦ cc (rw failed at h)
  ]

-- What `handle` does on every action.
pub handle-Effect :
    (q : Request) (db : Registry) {after : Registry}
    → LiveInBounds db
    → handle q db ≡ ok after
    → Effect (request_entry q) db after
unfolding handle
handle-Effect q db {after} inside h = by_action q.action refl h
  where
    by_action :
        (action : Action)
        → q.action ≡ action
        → perform action q db ≡ ok after
        → Effect (request_entry q) db after
    by_action (authorizes given notes) e run = rw e (authorize-Effect q db given notes inside run)
    by_action revokes e run = rw e (revoke-Effect q db run)
    by_action (adjusts seconds) e run = rw e (adjust-Effect q db seconds run)
