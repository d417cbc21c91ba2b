-- ===== src/Operators/FirstSight.antt =====
-- The first request of a subject.
use edlink_rostering.Base.{
  ℕ, String, ◌≡◌, refl, Bool, true, false, Option, none, some, List, [], ◌∷◌, ◌++◌, arith, find,
  eqb, eqb_refl, eq_refl, ok, err,
}
use edlink_rostering.Database.{update_where}
use edlink_rostering.Registry.{Registry}
use edlink_rostering.Operators.{
  forbidden, Claims, Identity, identify, has_subject, new_operator, add_operator, touch,
  load_active_role, email_taken, current_operator,
}

find_after_update {ℓ} :
    {A : Type ℓ} (q p : A → Bool) (f : A → A) (xs : List A) (x : A)
    → ((y : A) → q (f y) ≡ q y)
    → find q xs ≡ none
    → q x ≡ true
    → p x ≡ true
    → find q (update_where p f (xs ++ x ∷ [])) ≡ some (f x)
find_after_update q p f [] x keeps h k l = rw (l, keeps x, k) refl
find_after_update q p f (y ∷ ys) x keeps h k l =
    ground (arith, find_after_update q p f ys x keeps, keeps y, h, k, l)

-- A subject that the table does not know makes a first request with a valid token, whose email no
-- operator has, and no role stands under the next free id. The request is answered 403, and adds
-- one active operator; a later request is answered 403 as well and adds none, and neither changes
-- another table.
pub first_request_persists :
    (lower : String → String) (decode : String → Option Claims) (creds : Option String)
    (now later : ℕ) (db : Registry) (identity : Identity)
    → identify decode creds ≡ ok identity
    → find (has_subject identity.subject) db.operators ≡ none
    → email_taken lower db identity.email ≡ false
    → load_active_role db db.fresh ≡ none
    → (current_operator lower decode creds now db
        ≡ (err forbidden, touch db.fresh now (add_operator identity db)))
      × (current_operator lower decode creds later (touch db.fresh now (add_operator identity db))
          ≡ (err forbidden, touch db.fresh later (touch db.fresh now (add_operator identity db))))
unfolding current_operator load_active_role
first_request_persists lower decode creds now later db identity known new free roleless =
    let again : find (has_subject identity.subject)
          (touch db.fresh now (add_operator identity db)).operators
        ≡ some (record (new_operator db.fresh identity) { last_seen_at = some now }) =
      find_after_update (has_subject identity.subject) (λ r. eqb r.id db.fresh)
        (λ r. record r { last_seen_at = some now }) db.operators (new_operator db.fresh identity)
        (λ y. refl) new (eq_refl identity.subject) (eqb_refl db.fresh) in
    (rw (known, new, free, roleless) refl, rw (known, again, roleless) refl)
