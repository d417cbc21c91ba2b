-- ===== src/Connectors/Examples.antt =====
-- The theorems about connector authorizations on a small registry, which other tests share.
use edlink_rostering.Base.{
  ℕ, ◌≡◌, refl, true, none, some, List, [], ◌∷◌, ◌++◌, map, arith, ok, Memᴰ, eqb_iff,
}
use edlink_rostering.Registry.{
  LeaEntry, OperatorStatus, Role, ConnectorStatus, Authorization, Registry,
}
use edlink_rostering.Connectors.{
  authorize, revoke, load_live_row, assert_lea_exists, authorize_outcome, new_authorization,
  revoke_row,
}
use edlink_rostering.Connectors.Requests.{
  Request, authorizes, revokes, adjusts, serve, accepted, entry_of,
}
use edlink_rostering.Connectors.Tables.{WellFormed, serve-WellFormed, serve-audit_log}
use edlink_rostering.Connectors.Lifecycle.{revoke_then_authorize}

abbrev pub live_connector : Authorization
live_connector = record {
  id = 3;
  lea_id = "lea-1";
  partner = "edlink";
  status = ConnectorStatus.active;
  authorized_at = some 10;
  authorized_by = some 1;
  revoked_at = none;
  revoked_by = none;
  poll_interval_seconds = 120;
  notes = none;
  integration_status = "active";
  sharing_scope = none;
  integration_status_observed_at = none;
}

abbrev pub lea_1 : LeaEntry
lea_1 = record {
  id = "lea-1";
  name = "Springfield";
  edlink_integration_id = some "int-1";
  deleted_at = none;
}

abbrev pub small_registry : Registry
small_registry = record {
  leas = lea_1 ∷ [];
  operators =
      (record {
        id = 1;
        subject = "sub-1";
        display_name = "Ada";
        email = "ada@example.org";
        status = OperatorStatus.active;
        last_seen_at = none;
      })
      ∷ [];
  operator_roles = (record { operator_id = 1; role = Role.operator; revoked_at = none }) ∷ [];
  lea_grants = (record { operator_id = 1; lea_id = "lea-1"; revoked_at = none }) ∷ [];
  authorizations = live_connector ∷ [];
  audit_log = [];
  fresh = 4;
}

small_registry-WellFormed : WellFormed small_registry
small_registry-WellFormed = record {
  one_live = λ lea_id partner. ground arith;
  one_id = λ i. ground arith;
  drawn = λ i above. ground (arith, eqb_iff 3 i);
  bounded = refl;
}

-- One request of each kind, and one that is refused.
abbrev request : ℕ → Request
request seconds = record {
  lea_id = "lea-1";
  partner = "edlink";
  operator_id = 1;
  reason = "review";
  action = adjusts seconds;
  now = 20;
}

abbrev day_of_requests : List Request
day_of_requests =
    request 600
    ∷ request 10
    ∷ record (request 0) { action = revokes }
    ∷ record (request 0) { action = authorizes none none }
    ∷ []

serve-WellFormed_example : WellFormed (serve day_of_requests small_registry)
serve-WellFormed_example = serve-WellFormed day_of_requests small_registry small_registry-WellFormed

serve-audit_log_example :
    map entry_of (serve day_of_requests small_registry).audit_log
    ≡ map entry_of small_registry.audit_log ++ accepted day_of_requests small_registry
serve-audit_log_example = serve-audit_log day_of_requests small_registry small_registry-WellFormed

revoke_then_authorize_example :
    (revoked : Registry) × (revoke "lea-1" "edlink" 1 "left" 20 small_registry
      ≡ ok (record { id = 3; lea_id = "lea-1"; partner = "edlink"; revoked_at = 20 }, revoked))
    × (load_live_row revoked "lea-1" "edlink" ≡ none)
    × (after : Registry) × (authorize "lea-1" "edlink" 1 "back" none none 30 revoked
        ≡ ok (authorize_outcome 4 "lea-1" "edlink" ConnectorStatus.active 300 true, after))
    × (load_live_row after "lea-1" "edlink"
        ≡ some (new_authorization 4 "lea-1" "edlink" 1 300 30 none))
    × Memᴰ (revoke_row 1 20 live_connector) after.authorizations
unfolding load_live_row assert_lea_exists
revoke_then_authorize_example =
    revoke_then_authorize "lea-1" "edlink" 1 "left" "back" none 20 30 small_registry live_connector
      small_registry-WellFormed refl refl refl
