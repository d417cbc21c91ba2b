-- ===== src/Idempotency/Replays.antt =====
-- A key runs its handler once.
use edlink_rostering.Base.{
  ℕ, String, ◌≡◌, refl, inl, inr, true, none, some, List, [], ◌∷◌, ◌++◌, arith, find, ◌==◌,
  if◌then◌else◌, Result, ok, err, Bool-cases, eq_refl, eqb_refl,
}
use edlink_rostering.Database.{find-update_where-some}
use edlink_rostering.Idempotency.{
  Slot, KeyRow, Raised, conflict, in_flight, by_handler, same_slot, is_at, get_or_register, discard,
  store_response, Endpoint, with_idempotency,
}

same_slot_refl : (s : Slot) → same_slot s s ≡ true
same_slot_refl s = ground (arith, eqb_refl s.operator_id, eq_refl s.route, eq_refl s.key)

module _ {Body : Type 0} (slot : Slot) where
  abbrev pub reserved : String → ℕ → KeyRow Body
  reserved hash now = record {
    slot = slot;
    request_hash = hash;
    response_status = none;
    response_body = none;
    created_at = now;
    completed_at = none;
  }

  find-reserved :
      (hash : String) (now : ℕ) (rows : List (KeyRow Body))
      → find (is_at slot) rows ≡ none
      → find (is_at slot) (rows ++ reserved hash now ∷ []) ≡ some (reserved hash now)
  find-reserved hash now [] free = ground (arith, same_slot_refl slot)
  find-reserved hash now (r ∷ rows) free = ground (arith, find-reserved hash now rows)

  -- What a handler's response makes of the row.
  abbrev pub completed : String → ℕ → ℕ → Body → KeyRow Body
  completed hash now done body = record (reserved hash now) {
    response_status = some 200;
    response_body = some body;
    completed_at = some done;
  }

  find-store_response :
      (hash : String) (now done : ℕ) (body : Body) (rows : List (KeyRow Body))
      → find (is_at slot) rows ≡ some (reserved hash now)
      → find (is_at slot) (store_response slot 200 body done rows)
        ≡ some (completed hash now done body)
  unfolding store_response
  find-store_response hash now done body rows h =
      find-update_where-some (is_at slot)
        (λ r. record r {
          response_status = some 200;
          response_body = some body;
          completed_at = some done;
        })
        rows (λ r. refl) h

  discard-reserved :
      (hash : String) (now : ℕ) (rows : List (KeyRow Body))
      → find (is_at slot) rows ≡ none
      → discard slot (rows ++ reserved hash now ∷ []) ≡ rows
  unfolding discard
  discard-reserved hash now [] free = ground (arith, same_slot_refl slot)
  discard-reserved hash now (r ∷ rows) free = ground (arith, discard-reserved hash now rows)

module _ {W Body Model Exc : Type 0} (endpoint : Endpoint W Body Model Exc) (slot : Slot)
    (hash : String) (now : ℕ) (w : W) (rows : List (KeyRow Body))
    (free : find (is_at slot) rows ≡ none) where
  -- The world and the table that the first request with the key leaves.
  abbrev pub first : Result (Raised Exc) Model × W × List (KeyRow Body)
  first = with_idempotency endpoint slot hash now (w, rows)

  -- If the key is free, the handler of the first request returns, and the response model reads back
  -- what it dumps, then the request returns what the handler did, and each later request with the
  -- key changes nothing and runs no handler: with the same hash it returns the same response, and
  -- with another hash it is refused.
  pub with_idempotency_runs_once :
      {m : Model} {w' : W}
      → endpoint.handler w ≡ (ok m, w')
      → endpoint.model_validate (endpoint.model_dump m) ≡ ok m
      → (first.0 ≡ ok m)
        × (first.1 ≡ w')
        × ((hash' : String) (now' : ℕ) (v : W)
            → with_idempotency endpoint slot hash' now' (v, first.2)
              ≡ (if hash == hash' then ok m else err conflict, v, first.2))
  unfolding with_idempotency get_or_register
  with_idempotency_runs_once {m} {w'} returned round_trip =
      let row =
        find-store_response slot hash now now (endpoint.model_dump m)
          (rows ++ reserved slot hash now ∷ []) (find-reserved slot hash now rows free) in
      rw (free, returned)
        (
          refl,
          refl,
          λ hash' now' v. elim (Bool-cases (hash == hash')) [
            | inl same ↦ rw (row, same, round_trip) refl
            | inr other ↦ rw (row, other) refl
          ],
        )

  -- If the key is free and the handler of the first request raises, the request raises the same,
  -- and the key is free again: the table is as it was.
  pub with_idempotency_frees :
      {e : Exc} {w' : W} → endpoint.handler w ≡ (err e, w') → first ≡ (err (by_handler e), w', rows)
  unfolding with_idempotency get_or_register
  with_idempotency_frees raised = rw (free, raised, discard-reserved slot hash now rows free)

  -- Between the reservation of a free key and the end of the request that reserved it, any other
  -- request with the key is refused and changes nothing.
  pub get_or_register_excludes :
      (hash' : String) (now' : ℕ) (v : W)
      → let held = (get_or_register {Exc = Exc} endpoint.empty_body slot hash now rows).1 in
        with_idempotency endpoint slot hash' now' (v, held)
        ≡ (err (if hash == hash' then in_flight else conflict), v, held)
  unfolding with_idempotency get_or_register
  get_or_register_excludes hash' now' v = elim (Bool-cases (hash == hash')) [
    | inl same ↦ rw (free, find-reserved slot hash now rows free, same) refl
    | inr other ↦ rw (free, find-reserved slot hash now rows free, other) refl
  ]
