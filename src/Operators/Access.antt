-- ===== src/Operators/Access.antt =====
-- Who passes: the operator that a request gets, by its token and by the tables.
use edlink_rostering.Base.{
  ℕ, String, ◌≡◌, refl, Bool, true, Option, none, some, List, [], ◌∷◌, ◌++◌, find, eqb, eqb_refl,
  eq_iff, Memᴰ, ok, Result-cases, inl, inr, Bool-cases, Option-cases,
}
use edlink_rostering.Database.{update_where}
use edlink_rostering.Registry.{OperatorStatus, OperatorRow, Role, RoleRow, Registry}
use edlink_rostering.Operators.{
  Operator, Claims, Identity, identify, has_subject, new_operator, add_operator, touch,
  is_active_role_of, load_active_role, load_authorized_leas, operator_of, seen, with_status,
  email_taken, admit, current_operator,
}

pub find_mem {ℓ} :
    {A : Type ℓ} (p : A → Bool) (xs : List A) {x : A}
    → find p xs ≡ some x
    → Memᴰ x xs × (p x ≡ true)
find_mem p [] h = cc
find_mem p (y ∷ ys) {x} h = elim (Bool-cases (p y)) [
  | inl here ↦ let e : y ≡ x = cc (rw here at h) in (Memᴰ.head (rw e refl), rw (← e) here)
  | inr there ↦ let r = find_mem p ys (rw there at h) in (Memᴰ.tail r.0, r.1)
]

update_where_mem {ℓ} :
    {A : Type ℓ} (p : A → Bool) (f : A → A) (xs : List A) {x : A}
    → p x ≡ true
    → Memᴰ x xs
    → Memᴰ (f x) (update_where p f xs)
update_where_mem p f [] passes m = elim m [ ]
update_where_mem p f (y ∷ ys) passes (Memᴰ.head here) = Memᴰ.head (rw (← here, passes) refl)
update_where_mem p f (y ∷ ys) passes (Memᴰ.tail there) =
    Memᴰ.tail (update_where_mem p f ys passes there)

mem_last {ℓ} : {A : Type ℓ} (xs : List A) (x : A) → Memᴰ x (xs ++ x ∷ [])
mem_last [] x = Memᴰ.head refl
mem_last (y ∷ ys) x = Memᴰ.tail (mem_last ys x)

-- What the token and the tables say of the operator that a request gets: `before` are the tables
-- before the request, `after` those after it. The operator is the subject of the token.
pub record Vouched (identity : Identity) (op : Operator) (before after : Registry) : Type 0 where
  pub subject : op.subject ≡ identity.subject
  pub row : OperatorRow
  pub row_mem : Memᴰ row after.operators
  pub row_id : row.id ≡ op.id
  pub row_subject : row.subject ≡ identity.subject
  pub row_active : row.status ≡ OperatorStatus.active
  pub grant : RoleRow
  pub grant_mem : Memᴰ grant before.operator_roles
  pub grant_of : is_active_role_of op.id grant ≡ true
  pub grant_role : grant.role ≡ op.role
  pub leas : op.authorized_leas ≡ load_authorized_leas before op.role op.id
  pub operators_only : after ≡ record before { operators = after.operators; fresh = after.fresh }

role_row :
    (db : Registry) (id : ℕ) {role : Role}
    → load_active_role db id ≡ some role
    → (r : RoleRow) × Memᴰ r db.operator_roles × (is_active_role_of id r ≡ true) × (r.role ≡ role)
unfolding load_active_role
role_row db id {role} h = elim (Option-cases (find (is_active_role_of id) db.operator_roles)) [
  | inl missing ↦ cc (rw missing at h)
  | inr (r, found) ↦
      let (m, passes) = find_mem (is_active_role_of id) db.operator_roles found in
      (r, m, passes, cc (rw found at h))
]

leas_without_operators :
    (db : Registry) (operators : List OperatorRow) (fresh : ℕ) (role : Role) (id : ℕ)
    → load_authorized_leas (record db { operators = operators; fresh = fresh }) role id
      ≡ load_authorized_leas db role id
unfolding load_authorized_leas
leas_without_operators db operators fresh Role.operator id = refl
leas_without_operators db operators fresh Role.auditor id = refl
leas_without_operators db operators fresh Role.admin id = refl
leas_without_operators db operators fresh Role.owner id = refl

-- The tables before, with other operators.
module _ (identity : Identity) (now : ℕ) (before : Registry) (operators : List OperatorRow)
    (fresh : ℕ) where
  abbrev with_operators : Registry
  with_operators = record before { operators = operators; fresh = fresh }

  seen-Vouched :
      (row : OperatorRow) {op : Operator} {after : Registry}
      → Memᴰ row operators
      → row.subject ≡ identity.subject
      → row.status ≡ OperatorStatus.active
      → seen identity now row.id with_operators ≡ (ok op, after)
      → Vouched identity op before after
  seen-Vouched row {op} {after} m named active h =
      let touched = touch row.id now with_operators in
      elim (Option-cases (load_active_role touched row.id)) [
        | inl missing ↦ cc (rw missing at h)
        | inr (role, found) ↦
            let o : operator_of identity row.id role touched ≡ op = cc (rw found at h) in
            let t : touched ≡ after = cc (rw found at h) in
            let (r, r_mem, r_of, r_role) = role_row touched row.id found in
            rw (← o, ← t)
              (record {
                subject = refl;
                row = record row { last_seen_at = some now };
                row_mem =
                    update_where_mem (λ r. eqb r.id row.id)
                      (λ r. record r { last_seen_at = some now }) operators (eqb_refl row.id) m;
                row_id = refl;
                row_subject = named;
                row_active = active;
                grant = r;
                grant_mem = r_mem;
                grant_of = r_of;
                grant_role = r_role;
                leas = leas_without_operators before touched.operators fresh role row.id;
                operators_only = refl;
              })
      ]

  with_status-Vouched :
      (row : OperatorRow) (status : OperatorStatus) {op : Operator} {after : Registry}
      → Memᴰ row operators
      → row.subject ≡ identity.subject
      → row.status ≡ status
      → with_status identity now row.id status with_operators ≡ (ok op, after)
      → Vouched identity op before after
  with_status-Vouched row OperatorStatus.active m named e h = seen-Vouched row m named e h
  with_status-Vouched row OperatorStatus.disabled m named e h = cc
  with_status-Vouched row OperatorStatus.locked m named e h = cc

module _ (lower : String → String) where
  admit-Vouched :
      (identity : Identity) (now : ℕ) (db : Registry) (found : Option OperatorRow) {op : Operator}
      {after : Registry}
      → find (has_subject identity.subject) db.operators ≡ found
      → admit lower identity now db found ≡ (ok op, after)
      → Vouched identity op db after
  admit-Vouched identity now db (some row) found h =
      let (m, named) = find_mem (has_subject identity.subject) db.operators found in
      with_status-Vouched identity now db db.operators db.fresh row row.status m
        ((eq_iff row.subject identity.subject).0 named) refl h
  admit-Vouched identity now db none found h =
      elim (Bool-cases (email_taken lower db identity.email)) [
        | inl taken ↦ cc (rw taken at h)
        | inr free ↦
            let added = add_operator identity db in
            let row = new_operator db.fresh identity in
            with_status-Vouched identity now db added.operators added.fresh row
              OperatorStatus.active (mem_last db.operators row) refl refl (rw free at h)
      ]

  -- The identity is the one that the token gives.
  pub current_operator-Vouched :
      (decode : String → Option Claims) (creds : Option String) (now : ℕ) (db : Registry)
      {op : Operator} {after : Registry}
      → current_operator lower decode creds now db ≡ (ok op, after)
      → (identity : Identity) × (identify decode creds ≡ ok identity) × Vouched identity op db after
  unfolding current_operator
  current_operator-Vouched decode creds now db h = elim (Result-cases (identify decode creds)) [
    | inl (identity, known) ↦ (
      identity,
      known,
      admit-Vouched identity now db (find (has_subject identity.subject) db.operators) refl
          (rw known at h),
    )
    | inr (e, unknown) ↦ cc (rw unknown at h)
  ]
