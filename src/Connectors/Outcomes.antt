-- ===== src/Connectors/Outcomes.antt =====
-- What `authorize` returns is the live row that it leaves.
use edlink_rostering.Base.{
  ℕ, String, ◌≡◌, refl, true, false, not, ◌&&◌, Option, none, some, any, ok, Result-cases, inl, inr,
  Bool-cases,
}
use edlink_rostering.Registry.{ConnectorStatus, Authorization, Registry, is_null, is_operator}
use edlink_rostering.Connectors.{
  AuthorizeOutcome, is_live_of, load_live_row, assert_lea_exists, authorize, activate,
  authorize_outcome, new_authorization, insert_authorization, write_audit_log, add_authorization,
  update_by_operator, interval_or, authorize_live, authorize_row,
}
use edlink_rostering.Connectors.Effects.{update_by_operator-ok}
use edlink_rostering.Connectors.Lifecycle.{find_updated, find_last, same_live}

-- The live row of `db` is the one that an outcome of `authorize` names; `before` was the live row.
abbrev pub Reports : String → String → Option Authorization → AuthorizeOutcome → Registry → Type 0
Reports lea_id partner before outcome db =
    (row : Authorization) × (load_live_row db lea_id partner ≡ some row)
    × (row.id ≡ outcome.id)
    × (row.status ≡ outcome.status)
    × (row.poll_interval_seconds ≡ outcome.poll_interval_seconds)
    × (outcome.created_new_row ≡ is_null before)

module _ (lea_id partner : String) (operator_id : ℕ) (given : Option ℕ) (notes : Option String)
    (now : ℕ) (db : Registry) where
  unchanged-Reports :
      (row : Authorization) (status : ConnectorStatus)
      {result : AuthorizeOutcome × Option ConnectorStatus × Registry}
      → load_live_row db lea_id partner ≡ some row
      → row.status ≡ status
      → (
        authorize_outcome row.id lea_id partner status row.poll_interval_seconds false,
        some status,
        db,
      )
        ≡ result
      → Reports lea_id partner (some row) result.0 result.2
  unchanged-Reports row status found e same = rw (← same) (row, found, refl, e, refl, refl)

  authorize_row-Reports :
      (row : Authorization) (status : ConnectorStatus)
      {result : AuthorizeOutcome × Option ConnectorStatus × Registry}
      → load_live_row db lea_id partner ≡ some row
      → row.status ≡ status
      → authorize_row row status lea_id partner operator_id given notes now db ≡ ok result
      → Reports lea_id partner (some row) result.0 result.2
  unfolding load_live_row
  authorize_row-Reports row ConnectorStatus.pending {result} found e h =
      elim (Result-cases (interval_or row.poll_interval_seconds given)) [
        | inl (interval, chosen) ↦
            let f = activate operator_id interval now notes in
            elim (Result-cases (update_by_operator operator_id row.id f db)) [
              | inl (updated, done) ↦
                  let same : (
                    authorize_outcome row.id lea_id partner ConnectorStatus.active interval false,
                    some ConnectorStatus.pending,
                    updated,
                  )
                      ≡ result =
                    cc (rw (chosen, done) at h) in
                  rw (← same, ← update_by_operator-ok operator_id row.id f db done)
                    (
                      f row,
                      find_updated (is_live_of lea_id partner) f db.authorizations (λ x. refl)
                          found,
                      refl,
                      refl,
                      refl,
                      refl,
                    )
              | inr (e, failed) ↦ cc (rw (chosen, failed) at h)
            ]
        | inr (e, failed) ↦ cc (rw failed at h)
      ]
  authorize_row-Reports row ConnectorStatus.active {result} found e h =
      unchanged-Reports row ConnectorStatus.active {result = result} found e cc
  authorize_row-Reports row ConnectorStatus.revoked {result} found e h =
      unchanged-Reports row ConnectorStatus.revoked {result = result} found e cc
  authorize_row-Reports row ConnectorStatus.locked {result} found e h =
      unchanged-Reports row ConnectorStatus.locked {result = result} found e cc

  authorize_live-Reports :
      (current : Option Authorization)
      {result : AuthorizeOutcome × Option ConnectorStatus × Registry}
      → load_live_row db lea_id partner ≡ current
      → authorize_live current lea_id partner operator_id given notes now db ≡ ok result
      → Reports lea_id partner current result.0 result.2
  unfolding insert_authorization load_live_row
  authorize_live-Reports none {result} missing h = elim (Result-cases (interval_or 300 given)) [
    | inl (interval, chosen) ↦
        elim (Bool-cases
          (is_operator db operator_id && not (any (is_live_of lea_id partner) db.authorizations))) [
            | inl can ↦
                let new =
                  new_authorization db.fresh lea_id partner operator_id interval now notes in
                let same : (
                  authorize_outcome db.fresh lea_id partner ConnectorStatus.active interval true,
                  none,
                  add_authorization new db,
                )
                    ≡ result =
                  cc (rw (chosen, can) at h) in
                rw (← same) (
                  new,
                  find_last (is_live_of lea_id partner) db.authorizations new missing
                      (same_live lea_id partner db.fresh operator_id interval now notes),
                  refl,
                  refl,
                  refl,
                  refl,
                )
            | inr cannot ↦ cc (rw (chosen, cannot) at h)
          ]
    | inr (e, failed) ↦ cc (rw failed at h)
  ]
  authorize_live-Reports (some row) found h = authorize_row-Reports row row.status found refl h

-- If `authorize` accepts a request, the LEA has a live row for the partner afterwards, the outcome
-- gives its id, status and interval, and says that the row is new exactly if there was no live row
-- before.
pub outcome_is_live_row :
    (lea_id partner : String) (operator_id : ℕ) (reason : String) (given : Option ℕ)
    (notes : Option String) (now : ℕ) (db : Registry) {outcome : AuthorizeOutcome}
    {after : Registry}
    → authorize lea_id partner operator_id reason given notes now db ≡ ok (outcome, after)
    → Reports lea_id partner (load_live_row db lea_id partner) outcome after
unfolding authorize write_audit_log load_live_row
outcome_is_live_row lea_id partner operator_id reason given notes now db {outcome} {after} h =
    let current = load_live_row db lea_id partner in
    elim (Bool-cases (assert_lea_exists db lea_id)) [
      | inl there ↦
          elim (Result-cases
            (authorize_live current lea_id partner operator_id given notes now db)) [
              | inl (prepared, done) ↦ elim (Bool-cases (is_operator prepared.2 operator_id)) [
                | inl known ↦
                    let o : prepared.0 ≡ outcome = cc (rw (there, done, known) at h) in
                    let t : prepared.2.authorizations ≡ after.authorizations =
                      cc (rw (there, done, known) at h) in
                    rw (← o, ← t)
                      (authorize_live-Reports lea_id partner operator_id given notes now db current
                        refl done)
                | inr unknown ↦ cc (rw (there, done, unknown) at h)
              ]
              | inr (e, failed) ↦ cc (rw (there, failed) at h)
            ]
      | inr absent ↦ cc (rw absent at h)
    ]
