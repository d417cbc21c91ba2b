-- ===== src/Operators/Gates.antt =====
-- The gates in front of an endpoint: by whom a request that passes was made.
use edlink_rostering.Base.{
  ℕ, String, ◌≡◌, refl, true, false, not, ◌&&◌, Option, List, [], ◌∷◌, map, arith, mem, keep,
  keep_mem, eqb_iff, ◌==◌, eq_iff, Memᴰ, Result, ok, err, inl, inr, Bool-cases,
}
use edlink_rostering.Registry.{Role, LeaGrant, Registry, is_null}
use edlink_rostering.Operators.{
  HttpError, Operator, Claims, Identity, identify, is_active_lea, is_granted, load_authorized_leas,
  current_operator, allowed, gate, require, scope_gate, require_lea_scope_at, same_role,
}
use edlink_rostering.Operators.Access.{Vouched, current_operator-Vouched}

listed_item {ℓ} :
    {A : Type ℓ} (f : A → String) (xs : List A) (s : String)
    → mem s (map f xs) ≡ true
    → (x : A) × Memᴰ x xs × (f x ≡ s)
listed_item f [] s h = cc
listed_item f (x ∷ xs) s h = elim (Bool-cases (s == f x)) [
  | inl here ↦ (x, Memᴰ.head refl, ground (arith, eq_iff s (f x)))
  | inr there ↦ let (y, m, e) = listed_item f xs s (rw there at h) in (y, Memᴰ.tail m, e)
]

gate-ok :
    (min_role : Role) (result : Result HttpError Operator) {op : Operator}
    → gate min_role result ≡ ok op
    → (result ≡ ok op) × (allowed min_role op.role ≡ true)
gate-ok min_role (err e) h = cc
gate-ok min_role (ok who) {op} h = elim (Bool-cases (allowed min_role who.role)) [
  | inl may ↦ let e : who ≡ op = cc (rw may at h) in (rw e refl, rw (← e) may)
  | inr may_not ↦ cc (rw may_not at h)
]

scope_gate-ok :
    (lea_id : String) (result : Result HttpError Operator) {op : Operator}
    → scope_gate lea_id result ≡ ok op
    → (result ≡ ok op)
      × ((same_role op.role Role.operator && not (mem lea_id op.authorized_leas)) ≡ false)
scope_gate-ok lea_id (err e) h = cc
scope_gate-ok lea_id (ok who) {op} h =
    elim (Bool-cases (same_role who.role Role.operator && not (mem lea_id who.authorized_leas))) [
      | inl outside ↦ cc (rw outside at h)
      | inr inside ↦ let e : who ≡ op = cc (rw inside at h) in (rw e refl, rw (← e) inside)
    ]

require-ok :
    (min_role : Role) (answer : Result HttpError Operator × Registry) {op : Operator}
    {after : Registry}
    → require min_role answer ≡ (ok op, after)
    → (answer ≡ (ok op, after)) × (allowed min_role op.role ≡ true)
unfolding require
require-ok min_role (result, db) {op} {after} h =
    let passed : gate min_role result ≡ ok op = cc in
    let (e, may) = gate-ok min_role result passed in
    let d : db ≡ after = cc in (rw (e, d) refl, may)

require_lea_scope_at-ok :
    (min_role : Role) (lea_id : String) (answer : Result HttpError Operator × Registry)
    {op : Operator} {after : Registry}
    → require_lea_scope_at min_role lea_id answer ≡ (ok op, after)
    → (require min_role answer ≡ (ok op, after))
      × ((same_role op.role Role.operator && not (mem lea_id op.authorized_leas)) ≡ false)
unfolding require require_lea_scope_at
require_lea_scope_at-ok min_role lea_id (result, db) {op} {after} h =
    let passed : scope_gate lea_id (gate min_role result) ≡ ok op = cc in
    let (e, inside) = scope_gate-ok lea_id (gate min_role result) passed in
    let d : db ≡ after = cc in (rw (e, d) refl, inside)

-- An LEA in the scope of an operator of the role `operator`.
pub granted_row :
    (db : Registry) (id : ℕ) (lea_id : String)
    → mem lea_id (load_authorized_leas db Role.operator id) ≡ true
    → (g : LeaGrant) × Memᴰ g db.lea_grants
      × (g.operator_id ≡ id)
      × (g.lea_id ≡ lea_id)
      × (is_null g.revoked_at ≡ true)
      × (is_active_lea db lea_id ≡ true)
unfolding load_authorized_leas
granted_row db id lea_id listed =
    let (g, m, at) =
      listed_item (λ g. g.lea_id) (keep (is_granted db id) db.lea_grants) lea_id listed in
    let (m₁, passes) = keep_mem (is_granted db id) db.lea_grants m in
    (
      g,
      m₁,
      ground (arith, passes, eqb_iff g.operator_id id),
      at,
      ground (arith, passes),
      rw (← at) (ground (arith, passes)),
    )

module _ (lower : String → String) (decode : String → Option Claims) where
  -- The request was made by the operator: the subject of its token, and the one that
  -- `current_operator` finds, which leaves the tables `after`.
  abbrev pub MadeBy : Option String → ℕ → Registry → Operator → Registry → Type 0
  MadeBy creds now db op after =
      (current_operator lower decode creds now db ≡ (ok op, after))
      × (identity : Identity) × (identify decode creds ≡ ok identity)
      × Vouched identity op db after

  -- A request that passes `require` was made by the subject of its token: an operator whose row is
  -- active, to whom a role row that is not revoked gives their role, which satisfies the minimum,
  -- and whose LEAs are those that the tables before the request give.
  pub require_vouches :
      (min_role : Role) (creds : Option String) (now : ℕ) (db : Registry) {op : Operator}
      {after : Registry}
      → require min_role (current_operator lower decode creds now db) ≡ (ok op, after)
      → MadeBy creds now db op after × (allowed min_role op.role ≡ true)
  require_vouches min_role creds now db h =
      let (e, may) = require-ok min_role (current_operator lower decode creds now db) h in
      let (identity, known, vouched) = current_operator-Vouched lower decode creds now db e in
      ((e, identity, known, vouched), may)

  -- A request about an LEA that passes `require_lea_scope_at`, by an operator of the role `operator`,
  -- has a grant for that LEA that is not revoked, and the LEA is not deleted.
  pub scope_is_granted :
      (min_role : Role) (lea_id : String) (creds : Option String) (now : ℕ) (db : Registry)
      {op : Operator} {after : Registry}
      → require_lea_scope_at min_role lea_id (current_operator lower decode creds now db)
        ≡ (ok op, after)
      → op.role ≡ Role.operator
      → (g : LeaGrant) × Memᴰ g db.lea_grants
        × (g.operator_id ≡ op.id)
        × (g.lea_id ≡ lea_id)
        × (is_null g.revoked_at ≡ true)
        × (is_active_lea db lea_id ≡ true)
  scope_is_granted min_role lea_id creds now db {op} {after} h role =
      let answer = current_operator lower decode creds now db in
      let (e, inside) = require_lea_scope_at-ok min_role lea_id answer h in
      let ((passed, identity, known, vouched), may) = require_vouches min_role creds now db e in
      let listed : mem lea_id op.authorized_leas ≡ true = ground (arith, rw role at inside) in
      let leas : op.authorized_leas ≡ load_authorized_leas db Role.operator op.id =
        rw role at vouched.leas in
      granted_row db op.id lea_id (rw leas at listed)
