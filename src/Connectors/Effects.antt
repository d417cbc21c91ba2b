-- ===== src/Connectors/Effects.antt =====
-- What an accepted request did to the tables: one edit of the authorizations, and one audit row.
use edlink_rostering.Base.{
  ℕ, suc, String, ◌≡◌, refl, Bool, true, false, not, ◌&&◌, ◌||◌, Option, none, some, List, [], ◌∷◌,
  ◌++◌, arith, any, eqb, ltb, ok, Result-cases, inl, inr, Bool-cases,
}
use edlink_rostering.Database.{update_where}
use edlink_rostering.Registry.{
  ConnectorStatus, Authorization, AuditRow, Registry, is_null, is_operator,
}
use edlink_rostering.Connectors.{
  AuthorizeOutcome, is_live_of, validate_interval, interval_or, insert_authorization,
  write_audit_log, update_authorization, update_by_operator, activate, revoke_row, set_interval,
  new_authorization, add_authorization, authorize_row, authorize_live,
}
use edlink_rostering.Connectors.Requests.{Entry, entry_of}

-- The interval is outside what `_validate_interval` lets pass.
abbrev pub out_of_bounds : ℕ → Bool
out_of_bounds seconds = ltb seconds 60 || ltb 3600 seconds

-- An update keeps the key of a row, brings no revoked row back, and keeps its interval or sets one
-- in the bounds.
pub record Keeps (f : Authorization → Authorization) : Type 0 where
  pub id : (r : Authorization) → (f r).id ≡ r.id
  pub lea_id : (r : Authorization) → (f r).lea_id ≡ r.lea_id
  pub partner : (r : Authorization) → (f r).partner ≡ r.partner
  pub live : (r : Authorization) → is_null (f r).revoked_at ≡ true → is_null r.revoked_at ≡ true
  pub bounds :
      (r : Authorization)
      → out_of_bounds r.poll_interval_seconds ≡ false
      → out_of_bounds (f r).poll_interval_seconds ≡ false

pub data Edit (db after : Registry) : Type 0 where
  nothing : after.authorizations ≡ db.authorizations → after.fresh ≡ db.fresh → Edit db after
  inserts :
      (row : Authorization)
      → row.id ≡ db.fresh
      → any (is_live_of row.lea_id row.partner) db.authorizations ≡ false
      → out_of_bounds row.poll_interval_seconds ≡ false
      → after.authorizations ≡ db.authorizations ++ row ∷ []
      → after.fresh ≡ suc db.fresh
      → Edit db after
  updates :
      (id : ℕ) (f : Authorization → Authorization)
      → Keeps f
      → after.authorizations ≡ update_where (λ r. eqb r.id id) f db.authorizations
      → after.fresh ≡ db.fresh
      → Edit db after

module _ (row : AuditRow) (db : Registry) {after : Registry} where
  write_audit_log-ok :
      write_audit_log row db ≡ ok after → record db { audit_log = db.audit_log ++ row ∷ [] } ≡ after
  unfolding write_audit_log
  write_audit_log-ok h = elim (Bool-cases (is_operator db row.operator_id)) [
    | inl known ↦ cc (rw known at h)
    | inr unknown ↦ cc (rw unknown at h)
  ]

pub validate_interval-ok :
    (seconds : ℕ) {interval : ℕ}
    → validate_interval seconds ≡ ok interval
    → (interval ≡ seconds) × (out_of_bounds interval ≡ false)
unfolding validate_interval
validate_interval-ok seconds {interval} h = elim (Bool-cases (out_of_bounds seconds)) [
  | inl outside ↦ cc (rw outside at h)
  | inr inside ↦ let e : seconds ≡ interval = cc (rw inside at h) in (rw e refl, rw (← e) inside)
]

interval_or-ok :
    (fallback : ℕ) (given : Option ℕ) {interval : ℕ}
    → out_of_bounds fallback ≡ false
    → interval_or fallback given ≡ ok interval
    → out_of_bounds interval ≡ false
interval_or-ok fallback none {interval} inside h =
    let e : fallback ≡ interval = cc in rw (← e) inside
interval_or-ok fallback (some seconds) inside h = (validate_interval-ok seconds h).1

activate-Keeps :
    (operator_id interval now : ℕ) (notes : Option String)
    → out_of_bounds interval ≡ false
    → Keeps (activate operator_id interval now notes)
activate-Keeps operator_id interval now notes inside = record {
  id = λ r. refl;
  lea_id = λ r. refl;
  partner = λ r. refl;
  live = λ r h. h;
  bounds = λ r h. inside;
}

pub revoke_row-Keeps : (operator_id now : ℕ) → Keeps (revoke_row operator_id now)
revoke_row-Keeps operator_id now = record {
  id = λ r. refl;
  lea_id = λ r. refl;
  partner = λ r. refl;
  live = λ r h. cc;
  bounds = λ r h. h;
}

pub set_interval-Keeps :
    (interval : ℕ) → out_of_bounds interval ≡ false → Keeps (set_interval interval)
set_interval-Keeps interval inside = record {
  id = λ r. refl;
  lea_id = λ r. refl;
  partner = λ r. refl;
  live = λ r h. h;
  bounds = λ r h. inside;
}

-- One edit, and one audit row that names the request.
pub record Effect (entry : Entry) (db after : Registry) : Type 0 where
  pub edit : Edit db after
  pub row : AuditRow
  pub logged : after.audit_log ≡ db.audit_log ++ row ∷ []
  pub names : entry_of row ≡ entry
  pub operators : after.operators ≡ db.operators
  pub leas : after.leas ≡ db.leas

module _ (operator_id : ℕ) (id : ℕ) (f : Authorization → Authorization) (db : Registry)
    {after : Registry} where
  pub update_by_operator-ok :
      update_by_operator operator_id id f db ≡ ok after → update_authorization id f db ≡ after
  update_by_operator-ok h = elim (Bool-cases (is_operator db operator_id)) [
    | inl known ↦ cc (rw known at h)
    | inr unknown ↦ cc (rw unknown at h)
  ]

-- What the three paths of `authorize` leave before the audit row.
pub record Prepared (db after : Registry) : Type 0 where
  pub edit : Edit db after
  pub logged : after.audit_log ≡ db.audit_log
  pub operators : after.operators ≡ db.operators
  pub leas : after.leas ≡ db.leas

insert_authorization-Prepared :
    (lea_id partner : String) (operator_id interval now : ℕ) (notes : Option String) (db : Registry)
    {after : Registry}
    → out_of_bounds interval ≡ false
    → insert_authorization lea_id partner operator_id interval now notes db ≡ ok after
    → Prepared db after
unfolding insert_authorization
insert_authorization-Prepared lea_id partner operator_id interval now notes db {after} inside h =
    let row = new_authorization db.fresh lea_id partner operator_id interval now notes in
    let taken = any (is_live_of lea_id partner) db.authorizations in
    elim (Bool-cases (is_operator db operator_id && not taken)) [
      | inl can ↦
          let e : add_authorization row db ≡ after = cc (rw can at h) in
          rw (← e) (record {
            edit = Edit.inserts row refl (ground (arith, can)) inside refl refl;
            logged = refl;
            operators = refl;
            leas = refl;
          })
      | inr cannot ↦ cc (rw cannot at h)
    ]

pub update-Prepared :
    (id : ℕ) (f : Authorization → Authorization) (db : Registry)
    → Keeps f
    → Prepared db (update_authorization id f db)
update-Prepared id f db keeps = record {
  edit = Edit.updates id f keeps refl refl;
  logged = refl;
  operators = refl;
  leas = refl;
}

unchanged-Prepared : (db : Registry) → Prepared db db
unchanged-Prepared db = record {
  edit = Edit.nothing refl refl;
  logged = refl;
  operators = refl;
  leas = refl;
}

module _ (lea_id partner : String) (operator_id : ℕ) (given : Option ℕ) (notes : Option String)
    (now : ℕ) (db : Registry) where
  authorize_row-Prepared :
      (row : Authorization) (status : ConnectorStatus)
      {result : AuthorizeOutcome × Option ConnectorStatus × Registry}
      → out_of_bounds row.poll_interval_seconds ≡ false
      → authorize_row row status lea_id partner operator_id given notes now db ≡ ok result
      → Prepared db result.2
  authorize_row-Prepared row ConnectorStatus.pending {result} inside h =
      elim (Result-cases (interval_or row.poll_interval_seconds given)) [
        | inl (interval, chosen) ↦
            let f = activate operator_id interval now notes in
            let keeps =
              activate-Keeps operator_id interval now notes
                (interval_or-ok row.poll_interval_seconds given inside chosen) in
            elim (Result-cases (update_by_operator operator_id row.id f db)) [
              | inl (updated, done) ↦
                  let e : updated ≡ result.2 = cc (rw (chosen, done) at h) in
                  rw (← e, ← update_by_operator-ok operator_id row.id f db done)
                    (update-Prepared row.id f db keeps)
              | inr (e, failed) ↦ cc (rw (chosen, failed) at h)
            ]
        | inr (e, failed) ↦ cc (rw failed at h)
      ]
  authorize_row-Prepared row ConnectorStatus.active {result} inside h =
      let e : db ≡ result.2 = cc in rw (← e) (unchanged-Prepared db)
  authorize_row-Prepared row ConnectorStatus.revoked {result} inside h =
      let e : db ≡ result.2 = cc in rw (← e) (unchanged-Prepared db)
  authorize_row-Prepared row ConnectorStatus.locked {result} inside h =
      let e : db ≡ result.2 = cc in rw (← e) (unchanged-Prepared db)

  pub authorize_live-Prepared :
      (current : Option Authorization)
      {result : AuthorizeOutcome × Option ConnectorStatus × Registry}
      → ((r : Authorization) → current ≡ some r → out_of_bounds r.poll_interval_seconds ≡ false)
      → authorize_live current lea_id partner operator_id given notes now db ≡ ok result
      → Prepared db result.2
  authorize_live-Prepared none {result} inside h = elim (Result-cases (interval_or 300 given)) [
    | inl (interval, chosen) ↦
        elim (Result-cases
          (insert_authorization lea_id partner operator_id interval now notes db)) [
            | inl (inserted, done) ↦
                let e : inserted ≡ result.2 = cc (rw (chosen, done) at h) in
                rw (← e) (
                  insert_authorization-Prepared lea_id partner operator_id interval now notes db
                    (interval_or-ok 300 given refl chosen) done)
            | inr (e, failed) ↦ cc (rw (chosen, failed) at h)
          ]
    | inr (e, failed) ↦ cc (rw failed at h)
  ]
  authorize_live-Prepared (some row) inside h =
      authorize_row-Prepared row row.status (inside row refl) h

logged-Edit :
    {db prepared : Registry} (rows : List AuditRow)
    → Edit db prepared
    → Edit db (record prepared { audit_log = rows })
logged-Edit rows (Edit.nothing e fresh) = Edit.nothing e fresh
logged-Edit rows (Edit.inserts row id free inside e fresh) = Edit.inserts row id free inside e fresh
logged-Edit rows (Edit.updates id f keeps e fresh) = Edit.updates id f keeps e fresh

-- The audit row is the last write of an operation.
pub audited-Effect :
    (row : AuditRow) (db prepared : Registry) {after : Registry}
    → Prepared db prepared
    → write_audit_log row prepared ≡ ok after
    → Effect (entry_of row) db after
audited-Effect row db prepared h logged = rw (← write_audit_log-ok row prepared logged) (record {
  edit = logged-Edit (prepared.audit_log ++ row ∷ []) h.edit;
  row = row;
  logged = rw h.logged refl;
  names = refl;
  operators = h.operators;
  leas = h.leas;
})
