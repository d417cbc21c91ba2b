-- ===== src/Operators/Examples.antt =====
-- The theorems about operators on the registry of the connectors' tests.
use edlink_rostering.Base.{
  String, ◌≡◌, refl, ◌⊎◌, Option, none, some, [], ◌∷◌, ok, err, Memᴰ, true, false,
}
use edlink_rostering.Registry.{Role, LeaGrant, Registry, is_null}
use edlink_rostering.Connectors.{revoke, load_live_row, write_audit_log}
use edlink_rostering.Connectors.Requests.{Request, revokes, handle}
use edlink_rostering.Connectors.Listing.{joined, list_authorizations}
use edlink_rostering.Connectors.Examples.{small_registry, live_connector, lea_1}
use edlink_rostering.Operators.{
  Claims, Identity, Operator, forbidden, integrity_error, current_operator, add_operator, touch,
  load_active_role, load_authorized_leas, require, same_role, is_active_lea, operator_of,
}
use edlink_rostering.Operators.Gates.{MadeBy}
use edlink_rostering.Operators.FirstSight.{first_request_persists}
use edlink_rostering.Operators.Endpoints.{
  change_connector, change_needs_admin, list_connectors, listed_rows_are_granted,
}

-- A token is the subject that it names, without an email.
abbrev decode : String → Option Claims
decode token = some (record { sub = some token; email = none; name = none })

abbrev lower : String → String
lower s = s

abbrev identity : String → Identity
identity subject = record { subject = subject; email = ""; display_name = subject }

first_request_persists_example :
    (current_operator lower decode (some "sub-9") 20 small_registry
      ≡ (err forbidden, touch 4 20 (add_operator (identity "sub-9") small_registry)))
    × (current_operator lower decode
          (some "sub-9")
          30
          (touch 4 20 (add_operator (identity "sub-9") small_registry))
        ≡ (err forbidden, touch 4 30 (touch 4 20 (add_operator (identity "sub-9") small_registry))))
unfolding load_active_role
first_request_persists_example =
    first_request_persists lower decode (some "sub-9") 20 30 small_registry (identity "sub-9") refl
      refl refl refl

-- A second subject without an email is not let in, nor refused as forbidden: the unique index on
-- the emails raises.
second_subject_without_email :
    (current_operator lower decode
      (some "sub-10")
      40
      (touch 4 20 (add_operator (identity "sub-9") small_registry))).0
    ≡ err integrity_error
unfolding current_operator
second_subject_without_email = refl

abbrev admin_registry : Registry
admin_registry = record small_registry {
  operator_roles = (record { operator_id = 1; role = Role.admin; revoked_at = none }) ∷ [];
}

abbrev revocation : Request
revocation = record {
  lea_id = "lea-1";
  partner = "edlink";
  operator_id = 0;
  reason = "left";
  action = revokes;
  now = 20;
}

abbrev ada_admin : Operator
ada_admin = operator_of (identity "sub-1") 1 Role.admin (touch 1 20 admin_registry)

abbrev outcome : Registry
outcome = (change_connector lower decode revocation (some "sub-1") 20 admin_registry).1

change_needs_admin_example :
    (seen : Registry) × MadeBy lower decode (some "sub-1") 20 admin_registry ada_admin seen
    × ((Role.admin ≡ Role.admin) ⊎ (Role.admin ≡ Role.owner))
    × (handle (record revocation { operator_id = 1 }) seen ≡ ok outcome)
unfolding change_connector require current_operator load_active_role handle load_authorized_leas
    revoke load_live_row write_audit_log
change_needs_admin_example =
    change_needs_admin lower decode revocation (some "sub-1") 20 admin_registry refl

listed_rows_are_granted_example :
    (op : Operator) × MadeBy lower decode
      (some "sub-1")
      20
      small_registry
      op
      (touch 1 20 small_registry)
    × ((same_role op.role Role.operator ≡ false)
        ⊎ ((g : LeaGrant) × Memᴰ g small_registry.lea_grants
            × (g.operator_id ≡ op.id)
            × (g.lea_id ≡ "lea-1")
            × (is_null g.revoked_at ≡ true)
            × (is_active_lea small_registry "lea-1" ≡ true)))
unfolding list_connectors require current_operator load_active_role list_authorizations
    load_authorized_leas
listed_rows_are_granted_example =
    listed_rows_are_granted lower decode none false (some "sub-1") 20 small_registry
      (joined small_registry live_connector lea_1) refl (Memᴰ.head refl)
