-- ===== src/Idempotency/Examples.antt =====
-- A counter behind an endpoint: a request increments it and returns the new value, and raises at 9.
use edlink_rostering.Base.{
  ℕ, suc, String, ◌≡◌, refl, List, [], ◌==◌, eqb, if◌then◌else◌, Result, ok, err,
}
use edlink_rostering.Idempotency.{
  Slot, KeyRow, Raised, conflict, in_flight, by_handler, Endpoint, get_or_register,
  with_idempotency,
}
use edlink_rostering.Idempotency.Replays.{
  with_idempotency_runs_once, with_idempotency_frees, get_or_register_excludes,
}

abbrev counter : Endpoint ℕ ℕ ℕ String
counter = record {
  handler = λ n. if eqb n 9 then (err "full", n) else (ok (suc n), suc n);
  model_dump = λ n. n;
  model_validate = λ n. ok n;
  empty_body = 0;
}

abbrev slot : Slot
slot = record { operator_id = 1; route = "retry"; key = "k" }

abbrev answered : Result (Raised String) ℕ × ℕ × List (KeyRow ℕ)
answered = with_idempotency counter slot "h" 5 (3, [])

with_idempotency_runs_once_example :
    (answered.0 ≡ ok 4)
    × (answered.1 ≡ 4)
    × ((hash' : String) (now' : ℕ) (v : ℕ)
        → with_idempotency counter slot hash' now' (v, answered.2)
          ≡ (if "h" == hash' then ok 4 else err conflict, v, answered.2))
with_idempotency_runs_once_example =
    with_idempotency_runs_once counter slot "h" 5 3 [] refl refl refl

with_idempotency_frees_example :
    with_idempotency counter slot "h" 5 (9, []) ≡ (err (by_handler "full"), 9, [])
with_idempotency_frees_example = with_idempotency_frees counter slot "h" 5 9 [] refl refl

abbrev held : List (KeyRow ℕ)
held = (get_or_register {Exc = String} 0 slot "h" 5 []).1

get_or_register_excludes_example :
    with_idempotency counter slot "h" 6 (3, held) ≡ (err in_flight, 3, held)
get_or_register_excludes_example = get_or_register_excludes counter slot "h" 5 3 [] refl "h" 6 3
