-- ===== src/Operators.antt =====
-- edlink_rostering/api/auth.py: the operator behind a request, its role and its LEAs. The validator
-- of a token and the `lower` of PostgreSQL, under which emails are unique, are parameters. What a
-- request stores is committed also where it is refused.
pub mod Access
pub mod Gates
pub mod FirstSight
pub mod Endpoints
mod Examples
use Prim.Native.Char.{code}
use edlink_rostering.Base.{
  ℕ, suc, String, Bool, true, false, not, ◌&&◌, Option, none, some, List, [], ◌∷◌, ◌++◌, any, mem,
  keep, find, map, eqb, ◌==◌, if◌then◌else◌, Result, ok, err,
}
use edlink_rostering.Database.{update_where}
use edlink_rostering.Registry.{
  LeaEntry, OperatorStatus, OperatorRow, Role, RoleRow, LeaGrant, Registry, is_null,
}

-- The answers 401 and 403, and what the database raises.
pub data HttpError : Type 0 where
  unauthorized forbidden integrity_error : HttpError

pub record Operator : Type 0 where
  pub id : ℕ
  pub subject : String
  pub email : String
  pub display_name : String
  pub role : Role
  pub status : OperatorStatus
  pub authorized_leas : List String

abbrev pub rank : Role → ℕ
rank Role.auditor = 0
rank Role.operator = 1
rank Role.admin = 2
rank Role.owner = 3

abbrev pub same_role : Role → Role → Bool
same_role r s = eqb (rank r) (rank s)

-- The claims of a token that the code reads, as texts.
pub record Claims : Type 0 where
  pub sub : Option String
  pub email : Option String
  pub name : Option String

pub record Identity : Type 0 where
  pub subject : String
  pub email : String
  pub display_name : String

-- `a or b` on texts.
abbrev pub or_else : String → String → String
or_else String.[] b = b
or_else a b = a

abbrev pub text_or_empty : Option String → String
text_or_empty none = ""
text_or_empty (some s) = s

-- `email.split("@")[0]`
abbrev pub before_at : String → String
before_at String.[] = ""
before_at (String.◌∷◌ c s) =
    let rest = before_at s in if eqb (code c) 64 then "" else String.◌∷◌ c rest

abbrev pub identity_of : Claims → Result HttpError Identity
identity_of claims =
    let subject = text_or_empty claims.sub in
    let email = text_or_empty claims.email in
    if subject == ""
    then err unauthorized
    else ok (record {
      subject = subject;
      email = email;
      display_name = or_else (or_else (text_or_empty claims.name) (before_at email)) subject;
    })

abbrev pub claimed : Option Claims → Result HttpError Identity
claimed none = err unauthorized
claimed (some claims) = identity_of claims

-- The credentials of a request, through `validator.decode`.
abbrev pub identify : (String → Option Claims) → Option String → Result HttpError Identity
identify decode none = err unauthorized
identify decode (some String.[]) = err unauthorized
identify decode (some token) = claimed (decode token)

abbrev pub has_subject : String → OperatorRow → Bool
has_subject subject r = r.subject == subject

abbrev pub new_operator : ℕ → Identity → OperatorRow
new_operator id identity = record {
  id = id;
  subject = identity.subject;
  display_name = identity.display_name;
  email = identity.email;
  status = OperatorStatus.active;
  last_seen_at = none;
}

abbrev pub add_operator : Identity → Registry → Registry
add_operator identity db = record db {
  operators = db.operators ++ new_operator db.fresh identity ∷ [];
  fresh = suc db.fresh;
}

-- `UPDATE operator SET last_seen_at = now() WHERE id = :id`
abbrev pub touch : ℕ → ℕ → Registry → Registry
touch id now db = record db {
  operators =
      update_where (λ r. eqb r.id id) (λ r. record r { last_seen_at = some now }) db.operators;
}

abbrev pub is_active_role_of : ℕ → RoleRow → Bool
is_active_role_of operator_id r = eqb r.operator_id operator_id && is_null r.revoked_at

abbrev pub role_of : Option RoleRow → Option Role
role_of none = none
role_of (some r) = some r.role

unfoldable pub load_active_role : Registry → ℕ → Option Role
load_active_role db operator_id = role_of (find (is_active_role_of operator_id) db.operator_roles)

abbrev pub is_active_lea : Registry → String → Bool
is_active_lea db lea_id = any (λ l. l.id == lea_id && is_null l.deleted_at) db.leas

-- The rows of the join of the grants with the LEAs: `leas.id` is a primary key.
abbrev pub is_granted : Registry → ℕ → LeaGrant → Bool
is_granted db operator_id g =
    eqb g.operator_id operator_id && (is_null g.revoked_at && is_active_lea db g.lea_id)

abbrev pub active_leas : List LeaEntry → List String
active_leas leas = map (λ l. l.id) (keep (λ l. is_null l.deleted_at) leas)

unfoldable pub load_authorized_leas : Registry → Role → ℕ → List String
load_authorized_leas db Role.operator operator_id =
    map (λ g. g.lea_id) (keep (is_granted db operator_id) db.lea_grants)
load_authorized_leas db role operator_id = active_leas db.leas

abbrev pub operator_of : Identity → ℕ → Role → Registry → Operator
operator_of identity id role db = record {
  id = id;
  subject = identity.subject;
  email = identity.email;
  display_name = identity.display_name;
  role = role;
  status = OperatorStatus.active;
  authorized_leas = load_authorized_leas db role id;
}

-- The end of `current_operator`, from the operator's id: the row is seen, the role and the LEAs are
-- read.
abbrev pub with_role : Identity → ℕ → Option Role → Registry → Result HttpError Operator × Registry
with_role identity id none db = (err forbidden, db)
with_role identity id (some role) db = (ok (operator_of identity id role db), db)

abbrev pub seen : Identity → ℕ → ℕ → Registry → Result HttpError Operator × Registry
seen identity now id db =
    let touched = touch id now db in with_role identity id (load_active_role touched id) touched

abbrev pub with_status :
    Identity → ℕ → ℕ → OperatorStatus → Registry → Result HttpError Operator × Registry
with_status identity now id OperatorStatus.active db = seen identity now id db
with_status identity now id status db = (err unauthorized, db)

module _ (lower : String → String) where
  abbrev pub email_taken : Registry → String → Bool
  email_taken db email = any (λ r. lower r.email == lower email) db.operators

  -- `_load_or_create_operator` and what follows it. An INSERT that the unique index on the emails
  -- refuses is not committed.
  abbrev pub admit :
      Identity → ℕ → Registry → Option OperatorRow → Result HttpError Operator × Registry
  admit identity now db (some row) = with_status identity now row.id row.status db
  admit identity now db none =
      if email_taken db identity.email
      then (err integrity_error, db)
      else with_status identity now db.fresh OperatorStatus.active (add_operator identity db)

  abbrev pub authenticate :
      Result HttpError Identity → ℕ → Registry → Result HttpError Operator × Registry
  authenticate (err e) now db = (err e, db)
  authenticate (ok identity) now db =
      admit identity now db (find (has_subject identity.subject) db.operators)

  unfoldable pub current_operator :
      (String → Option Claims) → Option String → ℕ → Registry → Result HttpError Operator × Registry
  current_operator decode creds now db = authenticate (identify decode creds) now db

-- `_ROLES_SATISFYING`
abbrev pub roles_satisfying : Role → List Role
roles_satisfying Role.auditor = Role.auditor ∷ Role.operator ∷ Role.admin ∷ Role.owner ∷ []
roles_satisfying Role.operator = Role.operator ∷ Role.admin ∷ Role.owner ∷ []
roles_satisfying Role.admin = Role.admin ∷ Role.owner ∷ []
roles_satisfying Role.owner = Role.owner ∷ []

abbrev pub allowed : Role → Role → Bool
allowed min_role role = any (same_role role) (roles_satisfying min_role)

abbrev pub gate : Role → Result HttpError Operator → Result HttpError Operator
gate min_role (err e) = err e
gate min_role (ok op) = if allowed min_role op.role then ok op else err forbidden

-- `require(min_role)`, on what `current_operator` gave. The names of the roles are the type's, so
-- there is no unknown one.
unfoldable pub require :
    Role → Result HttpError Operator × Registry → Result HttpError Operator × Registry
require min_role (result, db) = (gate min_role result, db)

abbrev pub scope_gate : String → Result HttpError Operator → Result HttpError Operator
scope_gate lea_id (err e) = err e
scope_gate lea_id (ok op) =
    if same_role op.role Role.operator && not (mem lea_id op.authorized_leas)
    then err forbidden
    else ok op

unfoldable pub require_lea_scope_at :
    Role → String → Result HttpError Operator × Registry → Result HttpError Operator × Registry
require_lea_scope_at min_role lea_id (result, db) = (scope_gate lea_id (gate min_role result), db)
