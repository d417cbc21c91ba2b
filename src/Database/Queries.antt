-- ===== src/Database/Queries.antt =====
-- Statements of SQL as functions on the rows of a table, and their laws.
use edlink_rostering.Base.{
  ◌≡◌, refl, Bool, true, false, Option, none, some, List, [], ◌∷◌, ◌++◌, arith, any, find, length,
  if◌then◌else◌, Bool-cases, inl, inr,
}

module _ {ℓ} {A : Type ℓ} where
  -- `UPDATE ... SET ... WHERE ...`
  abbrev pub update_where : (A → Bool) → (A → A) → List A → List A
  update_where p f [] = []
  update_where p f (x ∷ xs) = (if p x then f x else x) ∷ update_where p f xs

  -- `INSERT ... ON CONFLICT (...) DO UPDATE SET ...`: `p` tells the rows that conflict.
  abbrev pub upsert : (A → Bool) → A → (A → A) → List A → List A
  upsert p row f xs = if any p xs then update_where p f xs else xs ++ row ∷ []

  pub length-update_where :
      (p : A → Bool) (f : A → A) (xs : List A) → length (update_where p f xs) ≡ length xs
  length-update_where p f [] = refl
  length-update_where p f (x ∷ xs) = ground (arith, length-update_where p f xs)

  find_of_any-false : (p : A → Bool) (xs : List A) → any p xs ≡ false → find p xs ≡ none
  find_of_any-false p [] h = refl
  find_of_any-false p (x ∷ xs) h = ground (arith, find_of_any-false p xs)

  find-append_miss :
      (p : A → Bool) (row : A) (xs : List A)
      → p row ≡ true
      → any p xs ≡ false
      → find p (xs ++ row ∷ []) ≡ some row
  find-append_miss p row [] h m = rw h
  find-append_miss p row (x ∷ xs) h m = ground (arith, find-append_miss p row xs)

  -- The row that an upsert leaves under its key: the new one, or the old one updated.
  abbrev pub upserted : A → (A → A) → Option A → A
  upserted row f none = row
  upserted row f (some x) = f x

  find-update_where :
      (p : A → Bool) (row : A) (f : A → A) (xs : List A)
      → ((x : A) → p (f x) ≡ p x)
      → any p xs ≡ true
      → find p (update_where p f xs) ≡ some (upserted row f (find p xs))
  find-update_where p row f [] k h = cc
  find-update_where p row f (x ∷ xs) k h = elim (Bool-cases (p x)) [
    | inl at ↦ rw (at, k x, at)
    | inr other ↦
        let below : any p xs ≡ true = ground arith in
        rw (other, other) (find-update_where p row f xs k below)
  ]

  pub find-upsert :
      (p : A → Bool) (row : A) (f : A → A) (xs : List A)
      → p row ≡ true
      → ((x : A) → p (f x) ≡ p x)
      → find p (upsert p row f xs) ≡ some (upserted row f (find p xs))
  find-upsert p row f xs h k = elim (Bool-cases (any p xs)) [
    | inl hit ↦ rw hit (find-update_where p row f xs k hit)
    | inr miss ↦ rw (miss, find_of_any-false p xs miss) (find-append_miss p row xs h miss)
  ]

  find-append_ne :
      (q : A → Bool) (row : A) (xs : List A) → q row ≡ false → find q (xs ++ row ∷ []) ≡ find q xs
  find-append_ne q row [] h = rw h
  find-append_ne q row (x ∷ xs) h = ground (arith, find-append_ne q row xs)

  find-update_where_ne :
      (p q : A → Bool) (f : A → A) (xs : List A)
      → ((x : A) → p x ≡ true → q x ≡ false)
      → ((x : A) → p x ≡ true → q (f x) ≡ false)
      → find q (update_where p f xs) ≡ find q xs
  find-update_where_ne p q f [] h k = refl
  find-update_where_ne p q f (x ∷ xs) h k = elim (Bool-cases (p x)) [
    | inl at ↦ rw (at, k x at, h x at) (find-update_where_ne p q f xs h k)
    | inr other ↦ rw other (ground (arith, find-update_where_ne p q f xs h k))
  ]

  -- A row under another key is found as before.
  pub find-upsert_ne :
      (p q : A → Bool) (row : A) (f : A → A) (xs : List A)
      → q row ≡ false
      → ((x : A) → p x ≡ true → q x ≡ false)
      → ((x : A) → p x ≡ true → q (f x) ≡ false)
      → find q (upsert p row f xs) ≡ find q xs
  find-upsert_ne p q row f xs h k l = elim (Bool-cases (any p xs)) [
    | inl hit ↦ rw hit (find-update_where_ne p q f xs k l)
    | inr miss ↦ rw miss (find-append_ne q row xs h)
  ]

  -- An update of the row that is found leaves it found, updated.
  pub find-update_where-some :
      (p : A → Bool) (f : A → A) (xs : List A) {x : A}
      → ((y : A) → p (f y) ≡ p y)
      → find p xs ≡ some x
      → find p (update_where p f xs) ≡ some (f x)
  find-update_where-some p f [] k h = cc
  find-update_where-some p f (y ∷ ys) k h = elim (Bool-cases (p y)) [
    | inl at ↦ rw (at, k y, at) (cc (rw at at h))
    | inr other ↦ rw (other, other) (find-update_where-some p f ys k (rw other at h))
  ]
