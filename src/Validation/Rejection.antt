-- ===== src/Validation/Rejection.antt =====
-- What the set of rejected event ids says of the events, after Layers 2 and 3.
use edlink_rostering.Base.{
  String, ◌≡◌, refl, ap, true, false, not, ◌&&◌, inl, inr, Result, ok, err, List, [], ◌∷◌, arith,
  mem, Memᴰ, Bool-cases, eq_refl,
}
use edlink_rostering.Entities.{NormalizedEvent, Failure}
use edlink_rostering.Validation.Issues.{ValidationIssue}
use edlink_rostering.Validation.Schema.{check_schema}
use edlink_rostering.Validation.Parse.{check_parse, raises}
use edlink_rostering.Validation.Pipeline.{
  Layer, issues_of, layer_3_raises, run_layer, reject, layer_2, layer_3,
}

pub mem-cons_self : (s : String) (l : List String) → mem s (s ∷ l) ≡ true
mem-cons_self s l = ground (arith, eq_refl s)

mem-reject :
    (found : List ValidationIssue) (s id : String) (rejected : List String)
    → mem s rejected ≡ true
    → mem s (reject found id rejected) ≡ true
mem-reject [] s id rejected h = h
mem-reject (i ∷ is) s id rejected h = ground arith

-- What is rejected stays rejected.
pub mem-run_layer :
    (check : Layer) (events : List NormalizedEvent) (rejected : List String) (s : String)
    → mem s rejected ≡ true
    → mem s (run_layer check events rejected).1 ≡ true
unfolding run_layer
mem-run_layer check [] rejected s h = h
mem-run_layer check (event ∷ rest) rejected s h =
    mem-run_layer check rest (reject (check event rejected) event.event_id rejected) s
      (mem-reject (check event rejected) s event.event_id rejected h)

pub not-mem_of_not-mem-run_layer :
    (check : Layer) (events : List NormalizedEvent) (rejected : List String) (s : String)
    → mem s (run_layer check events rejected).1 ≡ false
    → mem s rejected ≡ false
not-mem_of_not-mem-run_layer check events rejected s h =
    ground (arith, mem-run_layer check events rejected s, Bool-cases (mem s rejected))

not-mem_of_not-mem-reject :
    (found : List ValidationIssue) (id : String) (rejected : List String)
    → mem id (reject found id rejected) ≡ false
    → mem id rejected ≡ false
not-mem_of_not-mem-reject [] id rejected h = h
not-mem_of_not-mem-reject (i ∷ is) id rejected h = ground arith

still_fresh :
    (found : List ValidationIssue) (s id : String) (rejected : List String)
    → mem s (reject found id rejected) ≡ false
    → mem s rejected ≡ false
still_fresh [] s id rejected h = h
still_fresh (i ∷ is) s id rejected h = ground arith

nil_of_not-mem-reject :
    (found : List ValidationIssue) (id : String) (rejected : List String)
    → mem id (reject found id rejected) ≡ false
    → found ≡ []
nil_of_not-mem-reject [] id rejected h = refl
nil_of_not-mem-reject (i ∷ is) id rejected h = ground (arith, eq_refl id)

-- An event that the loop has not rejected passed the layer's check, at some set that did not hold
-- it either.
pub passed_of_not-mem :
    (check : Layer) (events : List NormalizedEvent) (rejected : List String) (e : NormalizedEvent)
    → Memᴰ e events
    → mem e.event_id (run_layer check events rejected).1 ≡ false
    → (before : List String) × (mem e.event_id before ≡ false) × (check e before ≡ [])
unfolding run_layer
passed_of_not-mem check [] rejected e m h = elim m [ ]
passed_of_not-mem check (event ∷ rest) rejected e (Memᴰ.head here) h =
    let found = check event rejected in
    let now =
      not-mem_of_not-mem-run_layer check rest (reject found event.event_id rejected) event.event_id
        (rw here at h) in
    (
      rejected,
      rw here (not-mem_of_not-mem-reject found event.event_id rejected now),
      rw here (nil_of_not-mem-reject found event.event_id rejected now),
    )
passed_of_not-mem check (event ∷ rest) rejected e (Memᴰ.tail there) h =
    passed_of_not-mem check rest (reject (check event rejected) event.event_id rejected) e there h

layer_3_passed :
    (e : NormalizedEvent) (before : List String)
    → mem e.event_id before ≡ false
    → layer_3 e before ≡ []
    → issues_of (check_parse e) ≡ []
layer_3_passed e before absent p = rw absent at p

-- An event of the page whose id no layer rejected has no issue in Layer 2 and none in Layer 3.
pub clean_of_not-rejected :
    (events : List NormalizedEvent) (e : NormalizedEvent)
    → Memᴰ e events
    → let rejected_2 = (run_layer layer_2 events []).1 in
      mem e.event_id (run_layer layer_3 events rejected_2).1 ≡ false
      → (check_schema e ≡ []) × (issues_of (check_parse e) ≡ [])
clean_of_not-rejected events e m h =
    let rejected_2 = (run_layer layer_2 events []).1 in
    let kept_2 = not-mem_of_not-mem-run_layer layer_3 events rejected_2 e.event_id h in
    let schema = passed_of_not-mem layer_2 events [] e m kept_2 in
    let parse = passed_of_not-mem layer_3 events rejected_2 e m h in
    (schema.2, layer_3_passed e parse.0 parse.1 parse.2)

-- An event that the loop of Layer 3 has not rejected did not raise in it, if nothing did.
not-raises_of_not-mem :
    (events : List NormalizedEvent) (rejected : List String) (e : NormalizedEvent)
    → layer_3_raises events rejected ≡ false
    → Memᴰ e events
    → mem e.event_id (run_layer layer_3 events rejected).1 ≡ false
    → raises (check_parse e) ≡ false
unfolding layer_3_raises run_layer
not-raises_of_not-mem [] rejected e quiet m h = elim m [ ]
not-raises_of_not-mem (event ∷ rest) rejected e quiet (Memᴰ.head here) h =
    let found = layer_3 event rejected in
    let now =
      not-mem_of_not-mem-run_layer layer_3 rest (reject found event.event_id rejected)
        event.event_id (rw here at h) in
    let fresh = not-mem_of_not-mem-reject found event.event_id rejected now in
    rw here (ground (arith, quiet, fresh))
not-raises_of_not-mem (event ∷ rest) rejected e quiet (Memᴰ.tail there) h =
    not-raises_of_not-mem rest (reject (layer_3 event rejected) event.event_id rejected) e
      (ground (arith, quiet)) there h

-- What a check returns that does not raise and has no issue.
returned_nil :
    (r : Result Failure (List ValidationIssue)) → raises r ≡ false → issues_of r ≡ [] → r ≡ ok []
returned_nil (ok issues) quiet none_found = ap ok none_found
returned_nil (err e) quiet none_found = cc

-- An event that no layer rejected parses, if Layer 3 does not raise.
pub parsed_of_not-rejected :
    (events : List NormalizedEvent) (e : NormalizedEvent)
    → let rejected_2 = (run_layer layer_2 events []).1 in
      layer_3_raises events rejected_2 ≡ false
      → Memᴰ e events
      → mem e.event_id (run_layer layer_3 events rejected_2).1 ≡ false
      → check_parse e ≡ ok []
parsed_of_not-rejected events e quiet m h =
    let rejected_2 = (run_layer layer_2 events []).1 in
    returned_nil (check_parse e) (not-raises_of_not-mem events rejected_2 e quiet m h)
      (clean_of_not-rejected events e m h).1

-- The event on which Layer 3 raises was not rejected before.
pub event_of_raises :
    (events : List NormalizedEvent) (rejected : List String)
    → layer_3_raises events rejected ≡ true
    → (e : NormalizedEvent) × Memᴰ e events
      × (mem e.event_id rejected ≡ false)
      × (raises (check_parse e) ≡ true)
unfolding layer_3_raises
event_of_raises [] rejected h = cc
event_of_raises (event ∷ rest) rejected h =
    elim (Bool-cases (not (mem event.event_id rejected) && raises (check_parse event))) [
      | inl here ↦ (event, Memᴰ.head refl, ground (arith, here), ground (arith, here))
      | inr passed ↦
          let later = reject (layer_3 event rejected) event.event_id rejected in
          let (e, m, fresh, raised) = event_of_raises rest later (ground (arith, h, passed)) in
          (
            e,
            Memᴰ.tail m,
            still_fresh (layer_3 event rejected) e.event_id event.event_id rejected fresh,
            raised,
          )
    ]
