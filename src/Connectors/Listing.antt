-- ===== src/Connectors/Listing.antt =====
-- `list_authorizations`: the integrations page.
use edlink_rostering.Base.{
  ℕ, String, ◌≡◌, refl, Bool, true, false, not, ◌&&◌, ◌||◌, Option, none, some, List, [], ◌∷◌,
  arith, any, mem, keep, keep_mem, find, eqb, leb, ◌==◌, Memᴰ, cons_mem, swap_mem, if◌then◌else◌,
  inl, inr, Bool-cases, Option-cases,
}
use edlink_rostering.Base.Text.{str_leb}
use edlink_rostering.Registry.{
  ConnectorStatus, Authorization, LeaEntry, OperatorRow, Registry, is_null,
}

pub record ConnectorAuthorizationRow : Type 0 where
  pub id : ℕ
  pub lea_id : String
  pub lea_name : String
  pub partner : String
  pub status : ConnectorStatus
  pub authorized_at : Option ℕ
  pub authorized_by_email : Option String
  pub revoked_at : Option ℕ
  pub revoked_by_email : Option String
  pub edlink_integration_id : Option String
  pub poll_interval_seconds : ℕ
  pub notes : Option String
  pub integration_status : String
  pub sharing_scope : Option String
  pub integration_status_observed_at : Option ℕ

abbrev pub email_of_row : Option OperatorRow → Option String
email_of_row none = none
email_of_row (some r) = some r.email

-- `LEFT JOIN operator`
abbrev pub email_of : Registry → Option ℕ → Option String
email_of db none = none
email_of db (some id) = email_of_row (find (λ r. eqb r.id id) db.operators)

abbrev pub joined : Registry → Authorization → LeaEntry → ConnectorAuthorizationRow
joined db a l = record {
  id = a.id;
  lea_id = a.lea_id;
  lea_name = l.name;
  partner = a.partner;
  status = a.status;
  authorized_at = a.authorized_at;
  authorized_by_email = email_of db a.authorized_by;
  revoked_at = a.revoked_at;
  revoked_by_email = email_of db a.revoked_by;
  edlink_integration_id = l.edlink_integration_id;
  poll_interval_seconds = a.poll_interval_seconds;
  notes = a.notes;
  integration_status = a.integration_status;
  sharing_scope = a.sharing_scope;
  integration_status_observed_at = a.integration_status_observed_at;
}

-- `JOIN leas`: a row without its LEA is left out.
abbrev pub add_joined :
    Registry
    → Authorization
    → Option LeaEntry
    → List ConnectorAuthorizationRow
    → List ConnectorAuthorizationRow
add_joined db a none rows = rows
add_joined db a (some l) rows = joined db a l ∷ rows

abbrev pub lea_of : Registry → Authorization → Option LeaEntry
lea_of db a = find (λ l. l.id == a.lea_id) db.leas

abbrev pub join : Registry → List Authorization → List ConnectorAuthorizationRow
join db [] = []
join db (a ∷ rest) = add_joined db a (lea_of db a) (join db rest)

-- A filter that is not given lets every row pass.
abbrev pub in_scope : Option (List String) → Authorization → Bool
in_scope none a = true
in_scope (some leas) a = mem a.lea_id leas

abbrev pub is_of : Option String → Authorization → Bool
is_of none a = true
is_of (some lea_id) a = a.lea_id == lea_id

abbrev pub is_shown : Option (List String) → Option String → Bool → Authorization → Bool
is_shown authorized_leas lea_id include_revoked a =
    (include_revoked || is_null a.revoked_at) && (in_scope authorized_leas a && is_of lea_id a)

abbrev pub is_current : ConnectorAuthorizationRow → Bool
is_current r = is_null r.revoked_at

-- `revoked_at DESC`, where PostgreSQL has NULL first.
abbrev pub revoked_order : Option ℕ → Option ℕ → Bool
revoked_order none s = true
revoked_order (some t) none = false
revoked_order (some t) (some u) = leb u t

-- `l.name, ca.partner, ca.revoked_at DESC`
abbrev pub name_order : ConnectorAuthorizationRow → ConnectorAuthorizationRow → Bool
name_order r s =
    if r.lea_name == s.lea_name
    then if r.partner == s.partner
      then revoked_order r.revoked_at s.revoked_at
      else str_leb r.partner s.partner
    else str_leb r.lea_name s.lea_name

-- `(ca.revoked_at IS NULL) DESC` comes first.
abbrev pub row_order : ConnectorAuthorizationRow → ConnectorAuthorizationRow → Bool
row_order r s =
    if is_current r
    then if is_current s then name_order r s else true
    else if is_current s
    then false
    else name_order r s

abbrev pub insert_row :
    ConnectorAuthorizationRow → List ConnectorAuthorizationRow → List ConnectorAuthorizationRow
insert_row r [] = r ∷ []
insert_row r (s ∷ rows) =
    let later = insert_row r rows in if row_order r s then r ∷ s ∷ rows else s ∷ later

abbrev pub in_order : List ConnectorAuthorizationRow → List ConnectorAuthorizationRow
in_order [] = []
in_order (r ∷ rows) = insert_row r (in_order rows)

unfoldable pub list_authorizations :
    Registry → Option (List String) → Option String → Bool → List ConnectorAuthorizationRow
list_authorizations db authorized_leas lea_id include_revoked =
    in_order (join db (keep (is_shown authorized_leas lea_id include_revoked) db.authorizations))

insert_row_mem :
    (r : ConnectorAuthorizationRow) (rows : List ConnectorAuthorizationRow)
    {x : ConnectorAuthorizationRow}
    → Memᴰ x (insert_row r rows)
    → Memᴰ x (r ∷ rows)
insert_row_mem r [] m = m
insert_row_mem r (s ∷ rows) {x} m = elim (Bool-cases (row_order r s)) [
  | inl first ↦ rw first at m
  | inr second ↦ swap_mem (cons_mem (insert_row_mem r rows) (rw second at m))
]

in_order_mem :
    (rows : List ConnectorAuthorizationRow) {x : ConnectorAuthorizationRow}
    → Memᴰ x (in_order rows)
    → Memᴰ x rows
in_order_mem [] m = m
in_order_mem (r ∷ rows) m = cons_mem (in_order_mem rows) (insert_row_mem r (in_order rows) m)

-- What a joined row comes from.
abbrev pub JoinOf : Registry → ConnectorAuthorizationRow → List Authorization → Type 0
JoinOf db x rows =
    (a : Authorization) × Memᴰ a rows
    × (l : LeaEntry) × (lea_of db a ≡ some l)
    × (x ≡ joined db a l)

join_mem :
    (db : Registry) (rows : List Authorization) {x : ConnectorAuthorizationRow}
    → Memᴰ x (join db rows)
    → JoinOf db x rows
join_mem db [] m = elim m [ ]
join_mem db (a ∷ rest) {x} m = elim (Option-cases (lea_of db a)) [
  | inl missing ↦ further (join_mem db rest (rw missing at m))
  | inr (l, found) ↦ at_head (join_mem db rest) l found (rw found at m)
]
  where
    further : JoinOf db x rest → JoinOf db x (a ∷ rest)
    further (b, there, l, found, e) = (b, Memᴰ.tail there, l, found, e)

    at_head :
        (Memᴰ x (join db rest) → JoinOf db x rest)
        → (l : LeaEntry) → lea_of db a ≡ some l
        → Memᴰ x (joined db a l ∷ join db rest)
        → JoinOf db x (a ∷ rest)
    at_head below l found (Memᴰ.head here) = (a, Memᴰ.head refl, l, found, here)
    at_head below l found (Memᴰ.tail there) = further (below there)

-- No row that is not live stands before one that is.
abbrev pub live_first : List ConnectorAuthorizationRow → Bool
live_first [] = true
live_first (r ∷ rows) = (is_current r || not (any is_current rows)) && live_first rows

any-insert_row :
    (r : ConnectorAuthorizationRow) (rows : List ConnectorAuthorizationRow)
    → any is_current (insert_row r rows) ≡ (is_current r || any is_current rows)
any-insert_row r [] = refl
any-insert_row r (s ∷ rows) = ground (arith, any-insert_row r rows)

live_first-insert_row :
    (r : ConnectorAuthorizationRow) (rows : List ConnectorAuthorizationRow)
    → live_first rows ≡ true
    → live_first (insert_row r rows) ≡ true
live_first-insert_row r [] h = ground arith
live_first-insert_row r (s ∷ rows) h =
    ground (arith, live_first-insert_row r rows, any-insert_row r rows)

live_first-in_order : (rows : List ConnectorAuthorizationRow) → live_first (in_order rows) ≡ true
live_first-in_order [] = refl
live_first-in_order (r ∷ rows) = live_first-insert_row r (in_order rows) (live_first-in_order rows)

-- A row of the list comes from an authorization that is live, or revoked ones are asked for, whose
-- LEA is in the scope of the operator and is the one asked for, where these are given; and in the
-- list the live rows come first.
pub list_authorizations_scope :
    (db : Registry) (authorized_leas : Option (List String)) (lea_id : Option String)
    (include_revoked : Bool) (x : ConnectorAuthorizationRow)
    → Memᴰ x (list_authorizations db authorized_leas lea_id include_revoked)
    → (a : Authorization) × Memᴰ a db.authorizations
      × (is_shown authorized_leas lea_id include_revoked a ≡ true)
      × (l : LeaEntry) × (lea_of db a ≡ some l)
      × (x ≡ joined db a l)
      × (live_first (list_authorizations db authorized_leas lea_id include_revoked) ≡ true)
unfolding list_authorizations
list_authorizations_scope db authorized_leas lea_id include_revoked x m =
    let shown = keep (is_shown authorized_leas lea_id include_revoked) db.authorizations in
    let (a, m₁, l, found, e) = join_mem db shown (in_order_mem (join db shown) m) in
    let (m₂, passes) =
      keep_mem (is_shown authorized_leas lea_id include_revoked) db.authorizations m₁ in
    (a, m₂, passes, l, found, e, live_first-in_order (join db shown))
