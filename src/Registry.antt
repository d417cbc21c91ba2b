-- ===== src/Registry.antt =====
-- The tables of the operators and of the connectors that they authorize: alembic/versions/0004,
-- 0005, 0009 and 0010, with the part of `leas` that is read with them. A table is the list of its
-- rows, oldest first, and a UUID a number from the counter `fresh`. A column that no code under
-- edlink_rostering reads is left out.
use edlink_rostering.Base.{ℕ, String, Bool, true, false, Option, none, some, List, any, eqb}

-- A row of `leas`.
pub record LeaEntry : Type 0 where
  pub id : String
  pub name : String
  pub edlink_integration_id : Option String
  pub deleted_at : Option ℕ

pub data OperatorStatus : Type 0 where
  active disabled locked : OperatorStatus

pub record OperatorRow : Type 0 where
  pub id : ℕ
  pub subject : String
  pub display_name : String
  pub email : String
  pub status : OperatorStatus
  pub last_seen_at : Option ℕ

pub data Role : Type 0 where
  operator admin owner auditor : Role

-- A row of `operator_role`.
pub record RoleRow : Type 0 where
  pub operator_id : ℕ
  pub role : Role
  pub revoked_at : Option ℕ

-- A row of `operator_lea_grant`.
pub record LeaGrant : Type 0 where
  pub operator_id : ℕ
  pub lea_id : String
  pub revoked_at : Option ℕ

pub data ConnectorStatus : Type 0 where
  pending active revoked locked : ConnectorStatus

-- A row of `connector_authorization`.
pub record Authorization : Type 0 where
  pub id : ℕ
  pub lea_id : String
  pub partner : String
  pub status : ConnectorStatus
  pub authorized_at : Option ℕ
  pub authorized_by : Option ℕ
  pub revoked_at : Option ℕ
  pub revoked_by : Option ℕ
  pub poll_interval_seconds : ℕ
  pub notes : Option String
  pub integration_status : String
  pub sharing_scope : Option String
  pub integration_status_observed_at : Option ℕ

-- The column `detail` of an audit row, by the action that wrote it.
pub data Detail : Type 0 where
  authorize_detail : String → Option ConnectorStatus → Bool → Detail
  revoke_detail : String → ConnectorStatus → Detail
  interval_detail : String → ℕ → ℕ → Detail

-- A row of `audit_log`.
pub record AuditRow : Type 0 where
  pub operator_id : ℕ
  pub action : String
  pub target_kind : String
  pub target_id : ℕ
  pub lea_id : Option String
  pub reason : String
  pub detail : Detail
  pub created_at : ℕ

pub record Registry : Type 0 where
  pub leas : List LeaEntry
  pub operators : List OperatorRow
  pub operator_roles : List RoleRow
  pub lea_grants : List LeaGrant
  pub authorizations : List Authorization
  pub audit_log : List AuditRow
  pub fresh : ℕ

-- `... IS NULL`
abbrev pub is_null {ℓ} : {A : Type ℓ} → Option A → Bool
is_null none = true
is_null (some a) = false

abbrev pub is_operator : Registry → ℕ → Bool
is_operator db id = any (λ r. eqb r.id id) db.operators
