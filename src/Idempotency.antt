-- ===== src/Idempotency.antt =====
-- edlink_rostering/services/idempotency.py: a mutating request with an Idempotency-Key runs its
-- handler once, and later requests with the key get the stored response. Each method is one
-- transaction, so the row that stops the INSERT of `get_or_register` is there for its SELECT.
-- The handler, the response model and the hash of a request are parameters.
pub mod Replays
pub mod Examples
use edlink_rostering.Base.{
  ℕ, ◌+◌, String, Bool, true, false, not, ◌&&◌, Option, none, some, List, [], ◌∷◌, ◌++◌, find, keep,
  count, length, eqb, ltb, ◌==◌, if◌then◌else◌, Result, ok, err,
}
use edlink_rostering.Database.{update_where}

-- `(operator_id, route, key)`, the primary key of the table.
pub record Slot : Type 0 where
  pub operator_id : ℕ
  pub route : String
  pub key : String

pub record KeyRow (Body : Type 0) : Type 0 where
  pub slot : Slot
  pub request_hash : String
  pub response_status : Option ℕ
  pub response_body : Option Body
  pub created_at : ℕ
  pub completed_at : Option ℕ

-- What a request that is wrapped can raise.
pub data Raised (Exc : Type 0) : Type 0 where
  conflict in_flight : Raised Exc
  by_handler : Exc → Raised Exc

pub record Replay (Body : Type 0) : Type 0 where
  pub response_status : ℕ
  pub response_body : Body

abbrev pub same_slot : Slot → Slot → Bool
same_slot s t = eqb s.operator_id t.operator_id && (s.route == t.route && s.key == t.key)

module _ {Body : Type 0} where
  abbrev pub is_at : Slot → KeyRow Body → Bool
  is_at slot r = same_slot r.slot slot

  abbrev pub is_pending : KeyRow Body → Bool
  is_pending r = elim r.response_status [ none ↦ true | some _ ↦ false ]

  abbrev pub body_or : Body → Option Body → Body
  body_or empty none = empty
  body_or empty (some b) = b

  unfoldable pub discard : Slot → List (KeyRow Body) → List (KeyRow Body)
  discard slot rows = keep (λ r. not (is_at slot r && is_pending r)) rows

  unfoldable pub store_response : Slot → ℕ → Body → ℕ → List (KeyRow Body) → List (KeyRow Body)
  store_response slot status body now rows =
      update_where (is_at slot)
        (λ r. record r {
          response_status = some status;
          response_body = some body;
          completed_at = some now;
        })
        rows

  abbrev pub is_stale_key : ℕ → ℕ → KeyRow Body → Bool
  is_stale_key older_than now r = ltb (r.created_at + older_than) now

  -- The number of rows that are deleted, and the table.
  unfoldable pub sweep_stale : ℕ → ℕ → List (KeyRow Body) → ℕ × List (KeyRow Body)
  sweep_stale older_than now rows = (
    count (is_stale_key older_than now) rows,
    keep (λ r. not (is_stale_key older_than now r)) rows,
  )

module _ {Body Exc : Type 0} where
  abbrev pub cached : Body → Option ℕ → Option Body → Result (Raised Exc) (Option (Replay Body))
  cached empty none body = err in_flight
  cached empty (some status) body =
      ok (some (record { response_status = status; response_body = body_or empty body }))

  abbrev pub registered :
      Body
      → Slot
      → String
      → ℕ
      → List (KeyRow Body)
      → Option (KeyRow Body)
      → Result (Raised Exc) (Option (Replay Body)) × List (KeyRow Body)
  registered empty slot hash now rows none = (
    ok none,
    rows
        ++ (record {
          slot = slot;
          request_hash = hash;
          response_status = none;
          response_body = none;
          created_at = now;
          completed_at = none;
        })
          ∷ [],
  )
  registered empty slot hash now rows (some r) =
      if r.request_hash == hash
      then (cached empty r.response_status r.response_body, rows)
      else (err conflict, rows)

  -- The answer, and the table: `none` where the slot was free and is now reserved.
  unfoldable pub get_or_register :
      Body
      → Slot
      → String
      → ℕ
      → List (KeyRow Body)
      → Result (Raised Exc) (Option (Replay Body)) × List (KeyRow Body)
  get_or_register empty slot hash now rows =
      registered empty slot hash now rows (find (is_at slot) rows)

abbrev pub lift : {Model Exc : Type 0} → Result Exc Model → Result (Raised Exc) Model
lift (ok m) = ok m
lift (err e) = err (by_handler e)

-- The response model, and a handler: it works on the rest of the world, and may raise.
pub record Endpoint (W Body Model Exc : Type 0) : Type 0 where
  pub handler : W → Result Exc Model × W
  pub model_dump : Model → Body
  pub model_validate : Body → Result Exc Model
  pub empty_body : Body

module _ {W Body Model Exc : Type 0} where
  -- The end of a request that reserved the slot, by what its handler did.
  abbrev pub finish :
      Endpoint W Body Model Exc
      → Slot
      → ℕ
      → Result Exc Model × W
      → List (KeyRow Body)
      → Result (Raised Exc) Model × W × List (KeyRow Body)
  finish endpoint slot now (ok m, w) rows =
      (ok m, w, store_response slot 200 (endpoint.model_dump m) now rows)
  finish endpoint slot now (err e, w) rows = (err (by_handler e), w, discard slot rows)

  abbrev pub answer :
      Endpoint W Body Model Exc
      → Slot
      → ℕ
      → W
      → Result (Raised Exc) (Option (Replay Body)) × List (KeyRow Body)
      → Result (Raised Exc) Model × W × List (KeyRow Body)
  answer endpoint slot now w (err e, rows) = (err e, w, rows)
  answer endpoint slot now w (ok none, rows) = finish endpoint slot now (endpoint.handler w) rows
  answer endpoint slot now w (ok (some replay), rows) =
      (lift (endpoint.model_validate replay.response_body), w, rows)

  -- A request whose header names a key. `hash` is `_compute_request_hash` of its path and body.
  unfoldable pub with_idempotency :
      Endpoint W Body Model Exc
      → Slot
      → String
      → ℕ
      → W × List (KeyRow Body)
      → Result (Raised Exc) Model × W × List (KeyRow Body)
  with_idempotency endpoint slot hash now (w, rows) =
      answer endpoint slot now w (get_or_register endpoint.empty_body slot hash now rows)
