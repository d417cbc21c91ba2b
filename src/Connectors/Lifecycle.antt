-- ===== src/Connectors/Lifecycle.antt =====
-- The life of a connector: revoked and authorized again.
use edlink_rostering.Base.{
  ℕ, suc, ◌≤◌, ◌<◌, String, ◌≡◌, refl, Bool, true, false, Option, none, some, List, [], ◌∷◌, ◌++◌,
  arith, any, count, find, eqb_refl, eq_refl, Memᴰ, ok, inl, inr, Bool-cases,
}
use edlink_rostering.Database.{update_where}
use edlink_rostering.Registry.{
  ConnectorStatus, Authorization, Registry, is_operator, revoke_detail, authorize_detail,
}
use edlink_rostering.Connectors.{
  is_live_of, load_live_row, assert_lea_exists, authorize, revoke, revoke_row, authorize_outcome,
  new_authorization, insert_authorization, write_audit_log, audit_row,
}
use edlink_rostering.Connectors.Tables.{WellFormed, has_id}

found_nothing {ℓ} : {A : Type ℓ} (p : A → Bool) (xs : List A) → count p xs ≤ 0 → find p xs ≡ none
found_nothing p [] h = refl
found_nothing p (x ∷ xs) h = ground (arith, found_nothing p xs)

nothing_passes {ℓ} : {A : Type ℓ} (p : A → Bool) (xs : List A) → find p xs ≡ none → any p xs ≡ false
nothing_passes p [] h = refl
nothing_passes p (x ∷ xs) h = ground (arith, nothing_passes p xs)

pub find_last {ℓ} :
    {A : Type ℓ} (p : A → Bool) (xs : List A) (x : A)
    → find p xs ≡ none
    → p x ≡ true
    → find p (xs ++ x ∷ []) ≡ some x
find_last p [] x h k = rw k
find_last p (y ∷ ys) x h k = ground (arith, find_last p ys x)

module _ (p : Authorization → Bool) (f : Authorization → Authorization) where
  -- An update of the row that a lookup finds, by its id, leaves it found.
  pub find_updated :
      (xs : List Authorization) {r : Authorization}
      → ((x : Authorization) → p (f x) ≡ p x)
      → find p xs ≡ some r
      → find p (update_where (has_id r.id) f xs) ≡ some (f r)
  find_updated [] k h = cc
  find_updated (y ∷ ys) {r} k h = elim (Bool-cases (p y)) [
    | inl here ↦ let e : y ≡ r = cc (rw here at h) in rw (← e, eqb_refl y.id, k y, here) refl
    | inr there ↦ let below = find_updated ys k (rw there at h) in ground (arith, below, k y, there)
  ]

  -- If the update makes the test fail, there is one fewer.
  count_updated :
      (xs : List Authorization) {r : Authorization}
      → ((x : Authorization) → p (f x) ≡ false)
      → find p xs ≡ some r
      → count p (update_where (has_id r.id) f xs) < count p xs
  count_updated [] k h = cc
  count_updated (y ∷ ys) {r} k h = elim (Bool-cases (p y)) [
    | inl here ↦
        let e : y ≡ r = cc (rw here at h) in
        rw (← e, eqb_refl y.id, k y, here) (omega (arith, not_more r.id ys))
    | inr there ↦
        let below = count_updated ys k (rw there at h) in ground (arith, below, k y, there)
  ]
    where
      not_more :
          (id : ℕ) (zs : List Authorization) → count p (update_where (has_id id) f zs) ≤ count p zs
      not_more id [] = omega arith
      not_more id (z ∷ zs) = ground (arith, not_more id zs, k z)

  updated_mem :
      (xs : List Authorization) {r : Authorization}
      → find p xs ≡ some r
      → Memᴰ (f r) (update_where (has_id r.id) f xs)
  updated_mem [] h = cc
  updated_mem (y ∷ ys) {r} h = elim (Bool-cases (p y)) [
    | inl here ↦ let e : y ≡ r = cc (rw here at h) in rw (← e, eqb_refl y.id) (Memᴰ.head refl)
    | inr there ↦ Memᴰ.tail (updated_mem ys (rw there at h))
  ]

mem_more {ℓ} : {A : Type ℓ} (xs ys : List A) {a : A} → Memᴰ a xs → Memᴰ a (xs ++ ys)
mem_more [] ys m = elim m [ ]
mem_more (x ∷ xs) ys (Memᴰ.head here) = Memᴰ.head here
mem_more (x ∷ xs) ys (Memᴰ.tail there) = Memᴰ.tail (mem_more xs ys there)

module _ (lea_id partner : String) where
  pub same_live :
      (id op interval now : ℕ) (notes : Option String)
      → is_live_of lea_id partner (new_authorization id lea_id partner op interval now notes) ≡ true
  same_live id op interval now notes = rw (eq_refl lea_id, eq_refl partner) refl

-- When a well-formed table has a live row for an LEA that is not deleted, an operator can revoke it;
-- then there is no live row, and authorizing again without an interval succeeds with a new active
-- row of 300 seconds under a fresh id, while the revoked row stays in the table as history.
pub revoke_then_authorize :
    (lea_id partner : String) (operator_id : ℕ) (reason again : String) (notes : Option String)
    (now later : ℕ) (db : Registry) (current : Authorization)
    → WellFormed db
    → load_live_row db lea_id partner ≡ some current
    → is_operator db operator_id ≡ true
    → assert_lea_exists db lea_id ≡ true
    → (revoked : Registry) × (revoke lea_id partner operator_id reason now db
        ≡ ok (
          record { id = current.id; lea_id = lea_id; partner = partner; revoked_at = now },
          revoked,
        ))
      × (load_live_row revoked lea_id partner ≡ none)
      × (after : Registry) × (authorize lea_id partner operator_id again none notes later revoked
          ≡ ok (authorize_outcome db.fresh lea_id partner ConnectorStatus.active 300 true, after))
      × (load_live_row after lea_id partner
          ≡ some (new_authorization db.fresh lea_id partner operator_id 300 later notes))
      × Memᴰ (revoke_row operator_id now current) after.authorizations
unfolding revoke authorize load_live_row insert_authorization write_audit_log assert_lea_exists
revoke_then_authorize lea_id partner operator_id reason again notes now later db current wf found
      known there =
    let p = is_live_of lea_id partner in
    let rows = update_where (has_id current.id) (revoke_row operator_id now) db.authorizations in
    let fewer =
      count_updated p (revoke_row operator_id now) db.authorizations (λ x. ground arith) found in
    let gone : find p rows ≡ none =
      found_nothing p rows (omega (arith, fewer, wf.one_live lea_id partner)) in
    let revoked = record db {
      authorizations = rows;
      audit_log =
          db.audit_log
          ++ audit_row operator_id "connector.revoked" current.id lea_id reason
              (revoke_detail partner current.status) now
            ∷ [];
    } in
    let after = record revoked {
      authorizations =
          rows ++ new_authorization db.fresh lea_id partner operator_id 300 later notes ∷ [];
      audit_log =
          revoked.audit_log
          ++ audit_row operator_id "connector.authorized" db.fresh lea_id again
              (authorize_detail partner none true) later
            ∷ [];
      fresh = suc db.fresh;
    } in
    let new = new_authorization db.fresh lea_id partner operator_id 300 later notes in
    (
      revoked,
      rw (found, known, known) refl,
      gone,
      after,
      rw (there, gone, known, nothing_passes p rows gone, known) refl,
      find_last p rows new gone (same_live lea_id partner db.fresh operator_id 300 later notes),
      mem_more rows (new ∷ []) (updated_mem p (revoke_row operator_id now) db.authorizations found),
    )
