-- ===== src/Connectors/Tables.antt =====
-- The authorizations stay well formed, and the audit log names every accepted request.
use edlink_rostering.Base.{
  ℕ, ◌+◌, ◌≤◌, String, ◌≡◌, refl, Bool, true, false, some, List, [], ◌∷◌, ◌++◌, map, arith, any,
  count, count-append, find, eqb, eqb_iff, eq_iff, Result-cases, inl, inr, Bool-cases,
}
use mathlib.Core.List.{append_assoc, append-nil, map-append}
use edlink_rostering.Database.{update_where}
use edlink_rostering.Registry.{Authorization, Registry}
use edlink_rostering.Connectors.{is_live_of, load_live_row}
use edlink_rostering.Connectors.Requests.{
  Request, handle, after, serve, entry_of, request_entry, add_accepted, accepted, Entry,
}
use edlink_rostering.Connectors.Effects.{out_of_bounds, Keeps, Edit}
use edlink_rostering.Connectors.Handling.{LiveInBounds, handle-Effect}

abbrev pub has_id : ℕ → Authorization → Bool
has_id i r = eqb r.id i

abbrev pub is_out_of_bounds : Authorization → Bool
is_out_of_bounds r = out_of_bounds r.poll_interval_seconds

-- At most one live row for an LEA and a partner, ids that are drawn from the counter and used once,
-- and every interval in the bounds.
pub record WellFormed (db : Registry) : Type 0 where
  pub one_live : (lea_id partner : String) → count (is_live_of lea_id partner) db.authorizations ≤ 1
  pub one_id : (i : ℕ) → count (has_id i) db.authorizations ≤ 1
  pub drawn : (i : ℕ) → db.fresh ≤ i → count (has_id i) db.authorizations ≡ 0
  pub bounded : count is_out_of_bounds db.authorizations ≡ 0

count-any {ℓ} : {A : Type ℓ} (p : A → Bool) (xs : List A) → any p xs ≡ false → count p xs ≡ 0
count-any p [] h = refl
count-any p (x ∷ xs) h = ground (arith, count-any p xs)

-- The found row passes the test, and is counted.
pub find_counted {ℓ} :
    {A : Type ℓ} (p q : A → Bool) (xs : List A) {x : A}
    → find p xs ≡ some x
    → q x ≡ true
    → 1 ≤ count q xs
find_counted p q [] h k = cc
find_counted p q (y ∷ ys) {x} h k = elim (Bool-cases (p y)) [
  | inl here ↦ let e : y ≡ x = cc (rw here at h) in rw (e, k) (omega arith)
  | inr there ↦ ground (arith, find_counted p q ys (rw there at h) k)
]

pub find_passes {ℓ} :
    {A : Type ℓ} (p : A → Bool) (xs : List A) {x : A} → find p xs ≡ some x → p x ≡ true
find_passes p [] h = cc
find_passes p (y ∷ ys) {x} h = elim (Bool-cases (p y)) [
  | inl here ↦ let e : y ≡ x = cc (rw here at h) in rw (← e) here
  | inr there ↦ find_passes p ys (rw there at h)
]

pub WellFormed-LiveInBounds : (db : Registry) → WellFormed db → LiveInBounds db
unfolding load_live_row
WellFormed-LiveInBounds db wf lea_id partner r found = elim (Bool-cases (is_out_of_bounds r)) [
  | inl outside ↦
      let counted =
        find_counted (is_live_of lea_id partner) is_out_of_bounds db.authorizations found outside in
      ground (arith, counted, wf.bounded)
  | inr inside ↦ inside
]

module _ (id : ℕ) (f : Authorization → Authorization) (keeps : Keeps f) where
  -- An update makes no count grow whose test it does not make true.
  pub count-update_where :
      (p : Authorization → Bool) (xs : List Authorization)
      → ((r : Authorization) → p (f r) ≡ true → p r ≡ true)
      → count p (update_where (λ r. eqb r.id id) f xs) ≤ count p xs
  count-update_where p [] h = omega arith
  count-update_where p (x ∷ xs) h = ground (arith, count-update_where p xs h, h x)

  live_before :
      (lea_id partner : String) (r : Authorization)
      → is_live_of lea_id partner (f r) ≡ true
      → is_live_of lea_id partner r ≡ true
  live_before lea_id partner r h = ground (arith, keeps.lea_id r, keeps.partner r, keeps.live r)

  outside_before : (r : Authorization) → is_out_of_bounds (f r) ≡ true → is_out_of_bounds r ≡ true
  outside_before r h = elim (Bool-cases (is_out_of_bounds r)) [
    | inl outside ↦ outside
    | inr inside ↦ cc (rw (keeps.bounds r inside) at h)
  ]

  id_before : (i : ℕ) (r : Authorization) → has_id i (f r) ≡ true → has_id i r ≡ true
  id_before i r h = rw (← keeps.id r) h

live_added :
    (row : Authorization) (db : Registry)
    → any (is_live_of row.lea_id row.partner) db.authorizations ≡ false
    → WellFormed db
    → (lea_id partner : String)
    → count (is_live_of lea_id partner) db.authorizations
        + count (is_live_of lea_id partner) (row ∷ [])
      ≤ 1
live_added row db free wf lea_id partner = elim (Bool-cases (is_live_of lea_id partner row)) [
  | inl same ↦
      let l : row.lea_id ≡ lea_id = ground (arith, eq_iff row.lea_id lea_id) in
      let p : row.partner ≡ partner = ground (arith, eq_iff row.partner partner) in
      let zero_before =
        count-any (is_live_of lea_id partner) db.authorizations (rw (← l, ← p) free) in
      rw (same, zero_before) (omega arith)
  | inr other ↦ rw other (omega (arith, wf.one_live lea_id partner))
]

Edit-WellFormed : (db db' : Registry) → Edit db db' → WellFormed db → WellFormed db'
Edit-WellFormed db db' (Edit.nothing e fresh) wf = record {
  one_live = rw e wf.one_live;
  one_id = rw e wf.one_id;
  drawn = rw (e, fresh) wf.drawn;
  bounded = rw e wf.bounded;
}
Edit-WellFormed db db' (Edit.inserts row id free inside e fresh) wf = record {
  one_live = λ lea_id partner.
      rw (e, count-append (is_live_of lea_id partner) db.authorizations (row ∷ []))
        (live_added row db free wf lea_id partner);
  one_id = λ i.
      rw (e, count-append (has_id i) db.authorizations (row ∷ []))
        (ground (arith, wf.one_id i, wf.drawn i, eqb_iff row.id i));
  drawn = λ i above.
      rw (e, count-append (has_id i) db.authorizations (row ∷ []))
        (ground (arith, wf.drawn i, eqb_iff row.id i));
  bounded =
      rw (e, count-append is_out_of_bounds db.authorizations (row ∷ []))
        (ground (arith, wf.bounded));
}
Edit-WellFormed db db' (Edit.updates id f keeps e fresh) wf = record {
  one_live = λ lea_id partner.
      let less =
        count-update_where id f keeps (is_live_of lea_id partner) db.authorizations
          (live_before id f keeps lea_id partner) in
      rw e (omega (arith, less, wf.one_live lea_id partner));
  one_id = λ i.
      let less =
        count-update_where id f keeps (has_id i) db.authorizations (id_before id f keeps i) in
      rw e (omega (arith, less, wf.one_id i));
  drawn = λ i above.
      let less =
        count-update_where id f keeps (has_id i) db.authorizations (id_before id f keeps i) in
      rw e (omega (arith, less, wf.drawn i (rw (← fresh) above)));
  bounded =
      let less =
        count-update_where id f keeps is_out_of_bounds db.authorizations
          (outside_before id f keeps) in
      rw e (omega (arith, less, wf.bounded));
}

handle-WellFormed :
    (q : Request) (db : Registry) → WellFormed db → WellFormed (after db (handle q db))
handle-WellFormed q db wf = elim (Result-cases (handle q db)) [
  | inl (changed, run) ↦
      rw run (
        Edit-WellFormed db changed (handle-Effect q db (WellFormed-LiveInBounds db wf) run).edit wf)
  | inr (e, refused) ↦ rw refused wf
]

-- Whatever requests to authorize, revoke and adjust are served, accepted or refused, a table in
-- which every LEA has at most one live row for a partner, every id occurs once and was drawn from
-- the counter, and every poll interval lies between 60 and 3600 seconds, stays such a table.
pub serve-WellFormed :
    (requests : List Request) (db : Registry) → WellFormed db → WellFormed (serve requests db)
serve-WellFormed [] db wf = wf
serve-WellFormed (q ∷ requests) db wf =
    serve-WellFormed requests (after db (handle q db)) (handle-WellFormed q db wf)

handle-logs :
    (q : Request) (db : Registry) (entries : List Entry)
    → WellFormed db
    → map entry_of (after db (handle q db)).audit_log ++ entries
      ≡ map entry_of db.audit_log ++ add_accepted q (handle q db) entries
handle-logs q db entries wf = elim (Result-cases (handle q db)) [
  | inl (changed, run) ↦
      let effect = handle-Effect q db (WellFormed-LiveInBounds db wf) run in
      rw (run, effect.logged, map-append entry_of db.audit_log (effect.row ∷ []), effect.names)
        (append_assoc (map entry_of db.audit_log) (request_entry q ∷ []) entries)
  | inr (e, refused) ↦ rw refused refl
]

-- While requests are served on a well-formed table, the audit log grows by one row for each request
-- that is accepted, in order, which names its operator, action, LEA, reason and time, and by
-- nothing else.
pub serve-audit_log :
    (requests : List Request) (db : Registry)
    → WellFormed db
    → map entry_of (serve requests db).audit_log ≡ map entry_of db.audit_log ++ accepted requests db
serve-audit_log [] db wf = rw (append-nil (map entry_of db.audit_log)) refl
serve-audit_log (q ∷ requests) db wf =
    let next = after db (handle q db) in
    rw (serve-audit_log requests next (handle-WellFormed q db wf))
      (handle-logs q db (accepted requests next) wf)
