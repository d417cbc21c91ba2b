-- ===== src/Connectors.antt =====
-- edlink_rostering/services/connector_authz.py: an operator authorizes, revokes or adjusts the
-- connector of an LEA. An operation is one transaction, so a refusal changes nothing.
pub mod Requests
pub mod Effects
pub mod Handling
pub mod Tables
pub mod Lifecycle
pub mod Outcomes
pub mod Listing
pub mod Examples
use edlink_rostering.Base.{
  ℕ, suc, String, Bool, true, false, not, ◌&&◌, ◌||◌, Option, none, some, List, [], ◌∷◌, ◌++◌, any,
  mem, keep, find, eqb, ltb, leb, ◌==◌, if◌then◌else◌, Result, ok, err, ◌>>=◌,
}
use edlink_rostering.Database.{update_where}
use edlink_rostering.Registry.{
  LeaEntry, ConnectorStatus, Authorization, Detail, authorize_detail, revoke_detail,
  interval_detail, AuditRow, Registry, is_null, is_operator,
}

-- The exceptions of the service, and what the database raises.
pub data AuthorizationError : Type 0 where
  authorization_not_found value_error integrity_error : AuthorizationError

pub record AuthorizeOutcome : Type 0 where
  pub id : ℕ
  pub lea_id : String
  pub partner : String
  pub status : ConnectorStatus
  pub poll_interval_seconds : ℕ
  pub created_new_row : Bool

pub record RevokeOutcome : Type 0 where
  pub id : ℕ
  pub lea_id : String
  pub partner : String
  pub revoked_at : ℕ

pub record AdjustPollIntervalOutcome : Type 0 where
  pub id : ℕ
  pub lea_id : String
  pub partner : String
  pub previous_poll_interval_seconds : ℕ
  pub new_poll_interval_seconds : ℕ

abbrev pub poll_interval_min : ℕ
poll_interval_min = 60

abbrev pub poll_interval_max : ℕ
poll_interval_max = 3600

-- A negative number of seconds is refused as zero is.
unfoldable pub validate_interval : ℕ → Result AuthorizationError ℕ
validate_interval seconds =
    if ltb seconds poll_interval_min || ltb poll_interval_max seconds
    then err value_error
    else ok seconds

-- `self._validate_interval(given) if given is not None else fallback`
abbrev pub interval_or : ℕ → Option ℕ → Result AuthorizationError ℕ
interval_or fallback none = ok fallback
interval_or fallback (some seconds) = validate_interval seconds

-- `COALESCE(:notes, notes)`
abbrev pub coalesce : Option String → Option String → Option String
coalesce none old = old
coalesce (some new) old = some new

unfoldable pub assert_lea_exists : Registry → String → Bool
assert_lea_exists db lea_id = any (λ l. l.id == lea_id && is_null l.deleted_at) db.leas

abbrev pub is_live_of : String → String → Authorization → Bool
is_live_of lea_id partner r = r.lea_id == lea_id && (r.partner == partner && is_null r.revoked_at)

unfoldable pub load_live_row : Registry → String → String → Option Authorization
load_live_row db lea_id partner = find (is_live_of lea_id partner) db.authorizations

-- The row that an action writes about an authorization.
abbrev pub audit_row : ℕ → String → ℕ → String → String → Detail → ℕ → AuditRow
audit_row operator_id action target_id lea_id reason detail created_at = record {
  operator_id = operator_id;
  action = action;
  target_kind = "connector_authorization";
  target_id = target_id;
  lea_id = some lea_id;
  reason = reason;
  detail = detail;
  created_at = created_at;
}

-- The foreign key on the operator may refuse the row; that on the LEA cannot, since an action has
-- met the LEA in `leas` or in an authorization.
unfoldable pub write_audit_log : AuditRow → Registry → Result AuthorizationError Registry
write_audit_log row db =
    if is_operator db row.operator_id
    then ok (record db { audit_log = db.audit_log ++ row ∷ [] })
    else err integrity_error

-- The row that `authorize` inserts, with the defaults of the columns that it does not name.
abbrev pub new_authorization : ℕ → String → String → ℕ → ℕ → ℕ → Option String → Authorization
new_authorization id lea_id partner operator_id interval now notes = record {
  id = id;
  lea_id = lea_id;
  partner = partner;
  status = ConnectorStatus.active;
  authorized_at = some now;
  authorized_by = some operator_id;
  revoked_at = none;
  revoked_by = none;
  poll_interval_seconds = interval;
  notes = notes;
  integration_status = "active";
  sharing_scope = none;
  integration_status_observed_at = none;
}

abbrev pub add_authorization : Authorization → Registry → Registry
add_authorization row db = record db {
  authorizations = db.authorizations ++ row ∷ [];
  fresh = suc db.fresh;
}

-- `INSERT INTO connector_authorization`, with the partial unique index on the live rows and the
-- foreign key on the operator.
unfoldable pub insert_authorization :
    String → String → ℕ → ℕ → ℕ → Option String → Registry → Result AuthorizationError Registry
insert_authorization lea_id partner operator_id interval now notes db =
    if is_operator db operator_id && not (any (is_live_of lea_id partner) db.authorizations)
    then ok (
        add_authorization (new_authorization db.fresh lea_id partner operator_id interval now notes)
          db)
    else err integrity_error

-- `UPDATE connector_authorization SET ... WHERE id = :id`
abbrev pub update_authorization : ℕ → (Authorization → Authorization) → Registry → Registry
update_authorization id f db = record db {
  authorizations = update_where (λ r. eqb r.id id) f db.authorizations;
}

-- An UPDATE that stores the operator, under the foreign key.
abbrev pub update_by_operator :
    ℕ → ℕ → (Authorization → Authorization) → Registry → Result AuthorizationError Registry
update_by_operator operator_id id f db =
    if is_operator db operator_id then ok (update_authorization id f db) else err integrity_error

-- The UPDATE that activates a pending row.
abbrev pub activate : ℕ → ℕ → ℕ → Option String → Authorization → Authorization
activate operator_id interval now notes r = record r {
  status = ConnectorStatus.active;
  authorized_at = some now;
  authorized_by = some operator_id;
  poll_interval_seconds = interval;
  notes = coalesce notes r.notes;
}

abbrev pub authorize_outcome : ℕ → String → String → ConnectorStatus → ℕ → Bool → AuthorizeOutcome
authorize_outcome id lea_id partner status interval created = record {
  id = id;
  lea_id = lea_id;
  partner = partner;
  status = status;
  poll_interval_seconds = interval;
  created_new_row = created;
}

-- What the three paths of `authorize` return: the outcome, the status before, and the database.
abbrev pub Authorized : Type 0
Authorized = AuthorizeOutcome × Option ConnectorStatus × Registry

abbrev pub authorize_row :
    Authorization
    → ConnectorStatus
    → String
    → String
    → ℕ
    → Option ℕ
    → Option String
    → ℕ
    → Registry
    → Result AuthorizationError Authorized
authorize_row row ConnectorStatus.pending lea_id partner operator_id given notes now db = do
  interval ← interval_or row.poll_interval_seconds given
  updated ← update_by_operator operator_id row.id (activate operator_id interval now notes) db
  ok (
    authorize_outcome row.id lea_id partner ConnectorStatus.active interval false,
    some ConnectorStatus.pending,
    updated,
  )
authorize_row row status lea_id partner operator_id given notes now db = ok (
  authorize_outcome row.id lea_id partner status row.poll_interval_seconds false,
  some status,
  db,
)

abbrev pub authorize_live :
    Option Authorization
    → String
    → String
    → ℕ
    → Option ℕ
    → Option String
    → ℕ
    → Registry
    → Result AuthorizationError Authorized
authorize_live none lea_id partner operator_id given notes now db = do
  interval ← interval_or 300 given
  inserted ← insert_authorization lea_id partner operator_id interval now notes db
  ok (
    authorize_outcome db.fresh lea_id partner ConnectorStatus.active interval true,
    none,
    inserted,
  )
authorize_live (some row) lea_id partner operator_id given notes now db =
    authorize_row row row.status lea_id partner operator_id given notes now db

abbrev pub audit_authorize :
    String
    → String
    → ℕ
    → String
    → ℕ
    → Authorized
    → Result AuthorizationError (AuthorizeOutcome × Registry)
audit_authorize lea_id partner operator_id reason now (outcome, previous_status, db) = do
  audited ←
      write_audit_log
        (audit_row operator_id "connector.authorized" outcome.id lea_id reason
          (authorize_detail partner previous_status outcome.created_new_row) now)
        db
  ok (outcome, audited)

unfoldable pub authorize :
    String
    → String
    → ℕ
    → String
    → Option ℕ
    → Option String
    → ℕ
    → Registry
    → Result AuthorizationError (AuthorizeOutcome × Registry)
authorize lea_id partner operator_id reason poll_interval_seconds notes now db =
    if assert_lea_exists db lea_id
    then authorize_live (load_live_row db lea_id partner) lea_id partner operator_id
        poll_interval_seconds notes now db
      >>= audit_authorize lea_id partner operator_id reason now
    else err authorization_not_found

abbrev pub revoke_row : ℕ → ℕ → Authorization → Authorization
revoke_row operator_id now r = record r {
  status = ConnectorStatus.revoked;
  revoked_at = some now;
  revoked_by = some operator_id;
}

abbrev pub revoke_live :
    Option Authorization
    → String
    → String
    → ℕ
    → String
    → ℕ
    → Registry
    → Result AuthorizationError (RevokeOutcome × Registry)
revoke_live none lea_id partner operator_id reason now db = err authorization_not_found
revoke_live (some current) lea_id partner operator_id reason now db = do
  updated ← update_by_operator operator_id current.id (revoke_row operator_id now) db
  audited ←
      write_audit_log
        (audit_row operator_id "connector.revoked" current.id lea_id reason
          (revoke_detail partner current.status) now)
        updated
  ok (record { id = current.id; lea_id = lea_id; partner = partner; revoked_at = now }, audited)

unfoldable pub revoke :
    String
    → String
    → ℕ
    → String
    → ℕ
    → Registry
    → Result AuthorizationError (RevokeOutcome × Registry)
revoke lea_id partner operator_id reason now db =
    revoke_live (load_live_row db lea_id partner) lea_id partner operator_id reason now db

abbrev pub set_interval : ℕ → Authorization → Authorization
set_interval interval r = record r { poll_interval_seconds = interval }

abbrev pub adjust_live :
    Option Authorization
    → String
    → String
    → ℕ
    → ℕ
    → String
    → ℕ
    → Registry
    → Result AuthorizationError (AdjustPollIntervalOutcome × Registry)
adjust_live none lea_id partner interval operator_id reason now db = err authorization_not_found
adjust_live (some current) lea_id partner interval operator_id reason now db = do
  audited ←
      write_audit_log
        (audit_row operator_id "connector.poll_interval_adjusted" current.id lea_id reason
          (interval_detail partner current.poll_interval_seconds interval) now)
        (update_authorization current.id (set_interval interval) db)
  ok (
    record {
      id = current.id;
      lea_id = lea_id;
      partner = partner;
      previous_poll_interval_seconds = current.poll_interval_seconds;
      new_poll_interval_seconds = interval;
    },
    audited,
  )

unfoldable pub adjust_poll_interval :
    String
    → String
    → ℕ
    → ℕ
    → String
    → ℕ
    → Registry
    → Result AuthorizationError (AdjustPollIntervalOutcome × Registry)
adjust_poll_interval lea_id partner new_poll_interval_seconds operator_id reason now db = do
  interval ← validate_interval new_poll_interval_seconds
  adjust_live (load_live_row db lea_id partner) lea_id partner interval operator_id reason now db
