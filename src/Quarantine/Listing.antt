-- ===== src/Quarantine/Listing.antt =====
-- What an operator is shown: unresolved rows of the LEAs in scope, the oldest first, up to a limit.
use edlink_rostering.Base.{
  ℕ, zero, suc, ◌≤◌, String, ◌≡◌, inl, inr, true, Option, List, [], ◌∷◌, arith, keep, keep_mem,
  take, leb, Memᴰ, Bool-cases, length,
}
use edlink_rostering.Database.{Db, Quarantined}
use edlink_rostering.Quarantine.Release.{
  is_unresolved, in_lea, in_leas, is_listed, insert_oldest, oldest_first, list_unresolved,
}

take_mem {ℓ} : {A : Type ℓ} (n : ℕ) (xs : List A) {x : A} → Memᴰ x (take n xs) → Memᴰ x xs
take_mem zero xs m = elim m [ ]
take_mem (suc n) [] m = elim m [ ]
take_mem (suc n) (y ∷ ys) (Memᴰ.head here) = Memᴰ.head here
take_mem (suc n) (y ∷ ys) (Memᴰ.tail there) = Memᴰ.tail (take_mem n ys there)

length-take-le {ℓ} : {A : Type ℓ} (n : ℕ) (xs : List A) → length (take n xs) ≤ n
length-take-le zero xs = omega arith
length-take-le (suc n) [] = omega arith
length-take-le (suc n) (y ∷ ys) = omega (arith, length-take-le n ys)

-- A member behind the first of a list, when a row is put in front of it.
swap_mem {ℓ} :
    {A : Type ℓ} (r s : A) (rows rest : List A) {x : A}
    → (Memᴰ x rest → Memᴰ x (r ∷ rows))
    → Memᴰ x (s ∷ rest)
    → Memᴰ x (r ∷ s ∷ rows)
swap_mem r s rows rest inner (Memᴰ.head here) = Memᴰ.tail (Memᴰ.head here)
swap_mem r s rows rest inner (Memᴰ.tail there) = elim (inner there) [
  | Memᴰ.head here ↦ Memᴰ.head here
  | Memᴰ.tail below ↦ Memᴰ.tail (Memᴰ.tail below)
]

insert_oldest_mem :
    (r : Quarantined) (rows : List Quarantined) {x : Quarantined}
    → Memᴰ x (insert_oldest r rows)
    → Memᴰ x (r ∷ rows)
insert_oldest_mem r [] m = m
insert_oldest_mem r (s ∷ rows) m = elim (Bool-cases (leb r.created_at s.created_at)) [
  | inl older ↦ rw older at m
  | inr newer ↦ swap_mem r s rows (insert_oldest r rows) (insert_oldest_mem r rows) (rw newer at m)
]

oldest_first_mem :
    (rows : List Quarantined) {x : Quarantined} → Memᴰ x (oldest_first rows) → Memᴰ x rows
oldest_first_mem [] m = m
oldest_first_mem (r ∷ rows) m = elim (insert_oldest_mem r (oldest_first rows) m) [
  | Memᴰ.head here ↦ Memᴰ.head here
  | Memᴰ.tail there ↦ Memᴰ.tail (oldest_first_mem rows there)
]

-- No row of the list is older than this one.
abbrev pub NoneOlder : Quarantined → List Quarantined → Type 0
NoneOlder r [] = Unit
NoneOlder r (s ∷ rows) = (r.created_at ≤ s.created_at) × NoneOlder r rows

abbrev pub OldestFirst : List Quarantined → Type 0
OldestFirst [] = Unit
OldestFirst (r ∷ rows) = NoneOlder r rows × OldestFirst rows

NoneOlder-trans :
    (r s : Quarantined) (rows : List Quarantined)
    → r.created_at ≤ s.created_at
    → NoneOlder s rows
    → NoneOlder r rows
NoneOlder-trans r s [] h n = tt
NoneOlder-trans r s (t ∷ rows) h n = (omega (arith, h, n.0), NoneOlder-trans r s rows h n.1)

NoneOlder-insert_oldest :
    (t r : Quarantined) (rows : List Quarantined)
    → t.created_at ≤ r.created_at
    → NoneOlder t rows
    → NoneOlder t (insert_oldest r rows)
NoneOlder-insert_oldest t r [] h n = (h, tt)
NoneOlder-insert_oldest t r (s ∷ rows) h n = elim (Bool-cases (leb r.created_at s.created_at)) [
  | inl older ↦ rw older (h, n)
  | inr newer ↦ rw newer (n.0, NoneOlder-insert_oldest t r rows h n.1)
]

OldestFirst-insert_oldest :
    (r : Quarantined) (rows : List Quarantined)
    → OldestFirst rows
    → OldestFirst (insert_oldest r rows)
OldestFirst-insert_oldest r [] o = (tt, tt)
OldestFirst-insert_oldest r (s ∷ rows) o = elim (Bool-cases (leb r.created_at s.created_at)) [
  | inl older ↦
      let le : r.created_at ≤ s.created_at = ground arith in
      rw older ((le, NoneOlder-trans r s rows le o.0), o)
  | inr newer ↦
      let le : s.created_at ≤ r.created_at = ground arith in
      rw newer (NoneOlder-insert_oldest s r rows le o.0, OldestFirst-insert_oldest r rows o.1)
]

oldest_first-OldestFirst : (rows : List Quarantined) → OldestFirst (oldest_first rows)
oldest_first-OldestFirst [] = tt
oldest_first-OldestFirst (r ∷ rows) =
    OldestFirst-insert_oldest r (oldest_first rows) (oldest_first-OldestFirst rows)

NoneOlder-take :
    (r : Quarantined) (n : ℕ) (rows : List Quarantined)
    → NoneOlder r rows
    → NoneOlder r (take n rows)
NoneOlder-take r zero rows h = tt
NoneOlder-take r (suc n) [] h = tt
NoneOlder-take r (suc n) (s ∷ rows) h = (h.0, NoneOlder-take r n rows h.1)

OldestFirst-take : (n : ℕ) (rows : List Quarantined) → OldestFirst rows → OldestFirst (take n rows)
OldestFirst-take zero rows h = tt
OldestFirst-take (suc n) [] h = tt
OldestFirst-take (suc n) (r ∷ rows) h = (NoneOlder-take r n rows h.0, OldestFirst-take n rows h.1)

module _ (db : Db) (lea_id : Option String) (authorized_leas : Option (List String))
    (limit : ℕ) where
  abbrev pub listed : List Quarantined
  listed = list_unresolved db lea_id authorized_leas limit

  -- The listing is no longer than its limit and has the oldest rows first. Every row of it is an
  -- unresolved row of the table, of the LEA that is asked for, if one is, and of the LEAs in the
  -- operator's scope, if that is a list.
  pub list_unresolved_scope :
      (length listed ≤ limit)
      × OldestFirst listed
      × ((r : Quarantined)
          → Memᴰ r listed
          → Memᴰ r db.quarantine
            × (is_unresolved r ≡ true)
            × (in_lea lea_id r ≡ true)
            × (in_leas authorized_leas r ≡ true))
  unfolding list_unresolved
  list_unresolved_scope =
      let rows = keep (is_listed lea_id authorized_leas) db.quarantine in
      (
        length-take-le limit (oldest_first rows),
        OldestFirst-take limit (oldest_first rows) (oldest_first-OldestFirst rows),
        λ r m.
            let k =
              keep_mem (is_listed lea_id authorized_leas) db.quarantine
                (oldest_first_mem rows (take_mem limit (oldest_first rows) m)) in
            (k.0, ground (arith, k.1), ground (arith, k.1), ground (arith, k.1)),
      )
