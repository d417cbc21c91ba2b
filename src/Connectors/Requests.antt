-- ===== src/Connectors/Requests.antt =====
-- The requests to the service, and what serving a list of them does. A request that is refused
-- leaves the database.
use edlink_rostering.Base.{ℕ, String, Option, some, List, [], ◌∷◌, Result, ok, err}
use edlink_rostering.Registry.{AuditRow, Registry}
use edlink_rostering.Connectors.{AuthorizationError, authorize, revoke, adjust_poll_interval}

pub data Action : Type 0 where
  authorizes : Option ℕ → Option String → Action
  revokes : Action
  adjusts : ℕ → Action

pub record Request : Type 0 where
  pub lea_id : String
  pub partner : String
  pub operator_id : ℕ
  pub reason : String
  pub action : Action
  pub now : ℕ

abbrev pub database_of {ℓ} :
    {A : Type ℓ} → Result AuthorizationError (A × Registry) → Result AuthorizationError Registry
database_of (ok (a, db)) = ok db
database_of (err e) = err e

abbrev pub perform : Action → Request → Registry → Result AuthorizationError Registry
perform (authorizes given notes) q db =
    database_of (authorize q.lea_id q.partner q.operator_id q.reason given notes q.now db)
perform revokes q db = database_of (revoke q.lea_id q.partner q.operator_id q.reason q.now db)
perform (adjusts seconds) q db =
    database_of (adjust_poll_interval q.lea_id q.partner seconds q.operator_id q.reason q.now db)

unfoldable pub handle : Request → Registry → Result AuthorizationError Registry
handle q db = perform q.action q db

abbrev pub after : Registry → Result AuthorizationError Registry → Registry
after db (ok changed) = changed
after db (err e) = db

abbrev pub serve : List Request → Registry → Registry
serve [] db = db
serve (q ∷ requests) db = serve requests (after db (handle q db))

-- What an audit row says of the request that it records.
pub record Entry : Type 0 where
  pub by : ℕ
  pub action : String
  pub lea_id : Option String
  pub reason : String
  pub at : ℕ

abbrev pub entry_of : AuditRow → Entry
entry_of r = record {
  by = r.operator_id;
  action = r.action;
  lea_id = r.lea_id;
  reason = r.reason;
  at = r.created_at;
}

abbrev pub action_name : Action → String
action_name (authorizes given notes) = "connector.authorized"
action_name revokes = "connector.revoked"
action_name (adjusts seconds) = "connector.poll_interval_adjusted"

abbrev pub request_entry : Request → Entry
request_entry q = record {
  by = q.operator_id;
  action = action_name q.action;
  lea_id = some q.lea_id;
  reason = q.reason;
  at = q.now;
}

-- One entry for each request that was accepted, in order.
abbrev pub add_accepted : Request → Result AuthorizationError Registry → List Entry → List Entry
add_accepted q (ok db) entries = request_entry q ∷ entries
add_accepted q (err e) entries = entries

abbrev pub accepted : List Request → Registry → List Entry
accepted [] db = []
accepted (q ∷ requests) db =
    add_accepted q (handle q db) (accepted requests (after db (handle q db)))
