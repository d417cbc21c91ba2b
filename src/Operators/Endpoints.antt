-- ===== src/Operators/Endpoints.antt =====
-- edlink_rostering/api/routers/connectors.py: the endpoints of the integrations page. A request that
-- changes something carries no Idempotency-Key here; Idempotency is about those that do.
use edlink_rostering.Base.{
  ℕ, String, ◌≡◌, refl, ◌⊎◌, Bool, true, false, Option, none, some, List, mem, arith, ◌==◌,
  if◌then◌else◌, Result, ok, err, inl, inr, Bool-cases, Result-cases, Memᴰ,
}
use edlink_rostering.Registry.{Role, Registry, LeaGrant, is_null}
use edlink_rostering.Connectors.Requests.{Request, handle}
use edlink_rostering.Connectors.{AuthorizationError}
use edlink_rostering.Connectors.Listing.{
  ConnectorAuthorizationRow, list_authorizations, list_authorizations_scope,
}
use edlink_rostering.Operators.{
  HttpError, Operator, Claims, Identity, current_operator, require, same_role, allowed,
  is_active_lea, load_authorized_leas,
}
use edlink_rostering.Operators.Access.{Vouched}
use edlink_rostering.Operators.Gates.{MadeBy, require_vouches, granted_row}

-- The scope of `list_connectors`.
abbrev pub scope_of : Operator → Option (List String)
scope_of op = if same_role op.role Role.operator then some op.authorized_leas else none

-- `LeaId(lea_id) if lea_id else None`
abbrev pub non_empty_filter : Option String → Option String
non_empty_filter none = none
non_empty_filter (some s) = if s == "" then none else some s

abbrev pub listed :
    Option String
    → Bool
    → Result HttpError Operator × Registry
    → Result HttpError (List ConnectorAuthorizationRow) × Registry
listed lea_id include_revoked (err e, db) = (err e, db)
listed lea_id include_revoked (ok op, db) =
    (ok (list_authorizations db (scope_of op) (non_empty_filter lea_id) include_revoked), db)

-- The answer to a request that changes a connector: refused by the gate, failed in the service, or
-- done by an operator.
pub data Answer : Type 0 where
  refused : HttpError → Answer
  failed : AuthorizationError → Answer
  done : Operator → Answer

abbrev pub answered : Operator → Registry → Result AuthorizationError Registry → Answer × Registry
answered op db (ok changed) = (done op, changed)
answered op db (err e) = (failed e, db)

abbrev pub performed : Request → Result HttpError Operator × Registry → Answer × Registry
performed q (err e, db) = (refused e, db)
performed q (ok op, db) = answered op db (handle (record q { operator_id = op.id }) db)

module _ (lower : String → String) (decode : String → Option Claims) where
  unfoldable pub list_connectors :
      Option String
      → Bool
      → Option String
      → ℕ
      → Registry
      → Result HttpError (List ConnectorAuthorizationRow) × Registry
  list_connectors lea_id include_revoked creds now db =
      listed lea_id include_revoked
        (require Role.auditor (current_operator lower decode creds now db))

  -- `authorize_connector`, `revoke_connector` and `adjust_poll_interval`, by the action of the
  -- request, whose operator is the one of the token.
  unfoldable pub change_connector : Request → Option String → ℕ → Registry → Answer × Registry
  change_connector q creds now db =
      performed q (require Role.admin (current_operator lower decode creds now db))

performed-done :
    (q : Request) (answer : Result HttpError Operator × Registry) {op : Operator}
    {changed : Registry}
    → performed q answer ≡ (done op, changed)
    → (db : Registry) × (answer ≡ (ok op, db))
      × (handle (record q { operator_id = op.id }) db ≡ ok changed)
performed-done q (err e, db) h = cc
performed-done q (ok who, db) {op} {changed} h =
    elim (Result-cases (handle (record q { operator_id = who.id }) db)) [
      | inl (next, run) ↦
          let e : who ≡ op = cc (rw run at h) in
          let c : next ≡ changed = cc (rw run at h) in (db, rw e refl, rw (← c, ← e) run)
      | inr (e, failure) ↦ cc (rw failure at h)
    ]

-- A request that changes a connector and is done was made by the subject of its token, an operator
-- whose row is active and to whom a role row that is not revoked gives the role `admin` or `owner`.
-- The service accepted the request in that operator's name, on tables that differ from those before
-- the request in the operators only.
pub change_needs_admin :
    (lower : String → String) (decode : String → Option Claims) (q : Request)
    (creds : Option String) (now : ℕ) (db : Registry) {op : Operator} {changed : Registry}
    → change_connector lower decode q creds now db ≡ (done op, changed)
    → (seen : Registry) × MadeBy lower decode creds now db op seen
      × ((op.role ≡ Role.admin) ⊎ (op.role ≡ Role.owner))
      × (handle (record q { operator_id = op.id }) seen ≡ ok changed)
unfolding change_connector
change_needs_admin lower decode q creds now db {op} h =
    let (seen, passed, e) =
      performed-done q (require Role.admin (current_operator lower decode creds now db)) h in
    let (made, may) = require_vouches lower decode Role.admin creds now db passed in
    (seen, made, admin_or_owner op.role may, e)
  where
    admin_or_owner :
        (role : Role) → allowed Role.admin role ≡ true → (role ≡ Role.admin) ⊎ (role ≡ Role.owner)
    admin_or_owner Role.admin may = inl refl
    admin_or_owner Role.owner may = inr refl
    admin_or_owner Role.operator may = cc
    admin_or_owner Role.auditor may = cc

same_role_operator : (role : Role) → same_role role Role.operator ≡ true → role ≡ Role.operator
same_role_operator Role.operator same = refl
same_role_operator Role.admin same = cc
same_role_operator Role.owner same = cc
same_role_operator Role.auditor same = cc

-- A row in the list of an operator of the role `operator`.
scoped_row :
    (identity : Identity) (op : Operator) (lea_id : Option String) (include_revoked : Bool)
    (before db : Registry) (x : ConnectorAuthorizationRow)
    → same_role op.role Role.operator ≡ true
    → Vouched identity op before db
    → Memᴰ x (list_authorizations db (scope_of op) lea_id include_revoked)
    → mem x.lea_id (load_authorized_leas before Role.operator op.id) ≡ true
scoped_row identity op lea_id include_revoked before db x is vouched m =
    let m₁ : Memᴰ x (list_authorizations db (some op.authorized_leas) lea_id include_revoked) =
      rw is at m in
    let (a, a_mem, shown, l, found, e, first) =
      list_authorizations_scope db (some op.authorized_leas) lea_id include_revoked x m₁ in
    let inside : mem a.lea_id op.authorized_leas ≡ true = ground (arith, shown) in
    let leas : op.authorized_leas ≡ load_authorized_leas before Role.operator op.id =
      rw (← same_role_operator op.role is) vouched.leas in
    rw (e, ← leas) inside

listed-ok :
    (lea_id : Option String) (include_revoked : Bool)
    (answer : Result HttpError Operator × Registry) {rows : List ConnectorAuthorizationRow}
    {seen : Registry}
    → listed lea_id include_revoked answer ≡ (ok rows, seen)
    → (op : Operator) × (answer ≡ (ok op, seen))
      × (rows ≡ list_authorizations seen (scope_of op) (non_empty_filter lea_id) include_revoked)
listed-ok lea_id include_revoked (err e, db) h = cc
listed-ok lea_id include_revoked (ok op, db) {rows} {seen} h =
    let d : db ≡ seen = cc in
    let r : list_authorizations db (scope_of op) (non_empty_filter lea_id) include_revoked ≡ rows =
      cc in
    (op, rw d refl, rw (← r, d) refl)

-- A request for the integrations page that succeeds shows a row of an LEA. The request was made by
-- the subject of its token, an operator whose row is active and who has a role that is not revoked,
-- and either that role is not `operator`, or the operator has, in the tables before the request, a
-- grant for the LEA that is not revoked, and the LEA is not deleted.
pub listed_rows_are_granted :
    (lower : String → String) (decode : String → Option Claims) (lea_id : Option String)
    (include_revoked : Bool) (creds : Option String) (now : ℕ) (db : Registry)
    {rows : List ConnectorAuthorizationRow} {seen : Registry} (x : ConnectorAuthorizationRow)
    → list_connectors lower decode lea_id include_revoked creds now db ≡ (ok rows, seen)
    → Memᴰ x rows
    → (op : Operator) × MadeBy lower decode creds now db op seen
      × ((same_role op.role Role.operator ≡ false)
          ⊎ ((g : LeaGrant) × Memᴰ g db.lea_grants
              × (g.operator_id ≡ op.id)
              × (g.lea_id ≡ x.lea_id)
              × (is_null g.revoked_at ≡ true)
              × (is_active_lea db x.lea_id ≡ true)))
unfolding list_connectors
listed_rows_are_granted lower decode lea_id include_revoked creds now db {rows} {seen} x h m =
    let (op, passed, e) =
      listed-ok lea_id include_revoked
        (require Role.auditor (current_operator lower decode creds now db)) h in
    let (made, may) = require_vouches lower decode Role.auditor creds now db passed in
    let (found, identity, known, vouched) = made in
    elim (Bool-cases (same_role op.role Role.operator)) [
      | inl is ↦ (
        op,
        made,
        inr (
            granted_row db op.id x.lea_id (
              scoped_row identity op (non_empty_filter lea_id) include_revoked db seen x is vouched
                (rw e at m))),
      )
      | inr other ↦ (op, made, inl other)
    ]
