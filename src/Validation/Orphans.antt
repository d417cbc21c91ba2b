-- ===== src/Validation/Orphans.antt =====
-- Which events Layer 4 sends to quarantine.
use edlink_rostering.Base.{
  String, ◌≡◌, refl, sym, ap, ◌↔◌, ◌⊎◌, inl, inr, true, false, Option, none, some, List, [], ◌∷◌,
  ◌++◌, arith, mem, any, Bool-cases, ◌==◌, eq_iff, eq_refl, ok,
}
use edlink_rostering.Entities.{enrollment, of_enrollment, Enrollment, NormalizedEvent}
use edlink_rostering.Validation.Referential.{add_known, Routed, route, check_referential}
use edlink_rostering.Validation.Routing.{
  Round-of, is_student_with, OrphanAt, mem-add_known, orphan_ref-some, orphan_ref_of,
}

-- From an orphan further on in the list, known students included, to one in the longer list.
OrphanAt-cons :
    (id : String) (known : List String) (e : NormalizedEvent) (rest : List NormalizedEvent)
    → OrphanAt id (add_known e.entity_type e.entity known) rest
    → OrphanAt id known (e ∷ rest)
OrphanAt-cons id known e rest a =
    let new = mem-add_known e.entity_type e.entity known a.row.student_id in
    record {
      before = e ∷ a.before;
      event = a.event;
      after = a.after;
      row = a.row;
      split = ap (◌∷◌ e) a.split;
      event_id = a.event_id;
      entity_type = a.entity_type;
      entity = a.entity;
      unknown = ground (arith, new, a.unknown);
      not_earlier = ground (arith, new, a.unknown, a.not_earlier);
    }

orphan_of_mem-route :
    (e : NormalizedEvent) (o : Option String) (later : Routed) (id : String)
    → mem id (route e o later).1 ≡ true
    → (mem id later.1 ≡ true) ⊎ ((ref : String) × (o ≡ some ref) × (e.event_id ≡ id))
unfolding route
orphan_of_mem-route e none later id h = inl h
orphan_of_mem-route e (some ref) later id h = elim (Bool-cases (id == e.event_id)) [
  | inl same ↦ inr (ref, refl, sym ((eq_iff id e.event_id).0 same))
  | inr other ↦ inl (ground (arith, h, other))
]

OrphanAt-of_mem :
    (events : List NormalizedEvent) (known : List String) (id : String) {routed : Routed}
    → check_referential events known ≡ ok routed
    → mem id routed.1 ≡ true
    → OrphanAt id known events
unfolding check_referential
OrphanAt-of_mem [] known id h m = ground arith
OrphanAt-of_mem (e ∷ rest) known id h m =
    let r = Round-of e rest known h in
    elim (orphan_of_mem-route e r.orphan r.later id (rw r.routes at m)) [
      | inl below ↦
          OrphanAt-cons id known e rest
            (OrphanAt-of_mem rest (add_known e.entity_type e.entity known) id r.below below)
      | inr (ref, found, same) ↦
          let w = orphan_ref-some e.entity_type e.entity known (rw found at (r.looked_up)) in
          record {
            before = [];
            event = e;
            after = rest;
            row = w.0;
            split = refl;
            event_id = same;
            entity_type = w.1;
            entity = w.2;
            unknown = w.4;
            not_earlier = refl;
          }
    ]

mem-route_later :
    (e : NormalizedEvent) (o : Option String) (later : Routed) (id : String)
    → mem id later.1 ≡ true
    → mem id (route e o later).1 ≡ true
unfolding route
mem-route_later e none later id h = h
mem-route_later e (some ref) later id h = ground arith

mem-route_self :
    (e : NormalizedEvent) (ref : String) (later : Routed)
    → mem e.event_id (route e (some ref) later).1 ≡ true
unfolding route
mem-route_self e ref later = ground (arith, eq_refl e.event_id)

mem_of_OrphanAt :
    (before : List NormalizedEvent) (e : NormalizedEvent) (after : List NormalizedEvent)
    (row : Enrollment) (known : List String) {routed : Routed}
    → check_referential (before ++ e ∷ after) known ≡ ok routed
    → e.entity_type ≡ enrollment
    → e.entity ≡ of_enrollment row
    → mem row.student_id known ≡ false
    → any (is_student_with row.student_id) before ≡ false
    → mem e.event_id routed.1 ≡ true
mem_of_OrphanAt [] e after row known h t c unknown earlier =
    let r = Round-of e after known h in
    let found : r.orphan ≡ some row.student_id =
      cc (r.looked_up, orphan_ref_of row known unknown) in
    rw (r.routes, found) (mem-route_self e row.student_id r.later)
mem_of_OrphanAt (b ∷ before) e after row known h t c unknown earlier =
    let r = Round-of b (before ++ e ∷ after) known h in
    let new = mem-add_known b.entity_type b.entity known row.student_id in
    rw r.routes (
      mem-route_later b r.orphan r.later e.event_id (
        mem_of_OrphanAt before e after row (add_known b.entity_type b.entity known) r.below t c
          (ground (arith, new)) (ground arith)))

-- Layer 4 quarantines an event id exactly when an event with that id stands in the list, is an
-- enrollment, and refers to a student that is not known and that no earlier event of the list is
-- about.
pub check_referential-mem_iff :
    (events : List NormalizedEvent) (known : List String) (id : String) {routed : Routed}
    → check_referential events known ≡ ok routed
    → (mem id routed.1 ≡ true) ↔ OrphanAt id known events
check_referential-mem_iff events known id {routed} h = (
  OrphanAt-of_mem events known id h,
  λ a. rw (← a.event_id) (
      mem_of_OrphanAt a.before a.event a.after a.row known (rw a.split at h) a.entity_type a.entity
        a.unknown a.not_earlier),
)
