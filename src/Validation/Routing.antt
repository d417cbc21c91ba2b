-- ===== src/Validation/Routing.antt =====
-- Layer 4 as a property of positions in the page: an enrollment is quarantined exactly when its
-- student is neither known nor carried by an earlier student event.
use edlink_rostering.Base.{
  String, ◌≡◌, refl, inl, inr, Bool, true, false, ◌&&◌, ◌||◌, ◌==◌, Option, none, some, List, [],
  ◌∷◌, ◌++◌, arith, mem, any, Memᴰ, Bool-cases, if◌then◌else◌, ok, ◌>>=◌, >>=-eq-ok,
}
use edlink_rostering.Entities.{
  EntityType, lea, student, enrollment, CanonicalEntity, of_enrollment, Enrollment, NormalizedEvent,
  has_type, same_type, entity_id,
}
use edlink_rostering.Validation.Referential.{
  student_ref, add_known, orphan_ref, Routed, route, check_referential,
}
use edlink_rostering.Validation.Pipeline.{is_page_error}

orphan_ref_total :
    (t : EntityType) (e : CanonicalEntity) (known : List String)
    → has_type t e ≡ true
    → (o : Option String) × (orphan_ref t e known ≡ ok o)
unfolding orphan_ref student_ref
orphan_ref_total student e known h = (none, refl)
orphan_ref_total lea e known h = (none, refl)
orphan_ref_total enrollment (of_enrollment r) known h =
    (if mem r.student_id known then none else some r.student_id, refl)
orphan_ref_total enrollment e known h = cc

-- On events of the classes that they claim, Layer 4 raises nothing.
pub check_referential_total :
    (events : List NormalizedEvent) (known : List String)
    → ((e : NormalizedEvent) → Memᴰ e events → has_type e.entity_type e.entity ≡ true)
    → (routed : Routed) × (check_referential events known ≡ ok routed)
unfolding check_referential
check_referential_total [] known h = (([], []), refl)
check_referential_total (event ∷ rest) known h =
    let o = orphan_ref_total event.entity_type event.entity known (h event (Memᴰ.head refl)) in
    let r =
      check_referential_total rest (add_known event.entity_type event.entity known)
        (λ e m. h e (Memᴰ.tail m)) in
    (route event o.0 r.0, rw (o.1, r.1))

-- One round of the loop.
pub record Round (event : NormalizedEvent) (rest : List NormalizedEvent) (known : List String)
    (routed : Routed) : Type 0 where
  pub orphan : Option String
  pub later : Routed
  pub looked_up : orphan_ref event.entity_type event.entity known ≡ ok orphan
  pub below : check_referential rest (add_known event.entity_type event.entity known) ≡ ok later
  pub routes : routed ≡ route event orphan later

pub Round-of :
    (event : NormalizedEvent) (rest : List NormalizedEvent) (known : List String) {routed : Routed}
    → check_referential (event ∷ rest) known ≡ ok routed
    → Round event rest known routed
unfolding check_referential
Round-of event rest known h =
    let later = check_referential rest (add_known event.entity_type event.entity known) in
    let o =
      >>=-eq-ok (orphan_ref event.entity_type event.entity known)
        (λ orphan. later >>= λ routed. ok (route event orphan routed)) h in
    let l = >>=-eq-ok later (λ routed. ok (route event o.0 routed)) o.2 in
    record { orphan = o.0; later = l.0; looked_up = o.1; below = l.1; routes = cc (l.2) }

not-page_error-route :
    (event : NormalizedEvent) (o : Option String) (r : Routed)
    → any is_page_error (route event o r).0 ≡ any is_page_error r.0
unfolding route
not-page_error-route event none r = refl
not-page_error-route event (some ref) r = refl

pub not-page_error-check_referential :
    (events : List NormalizedEvent) (known : List String) {routed : Routed}
    → check_referential events known ≡ ok routed
    → any is_page_error routed.0 ≡ false
unfolding check_referential
not-page_error-check_referential [] known h = ground arith
not-page_error-check_referential (event ∷ rest) known h =
    let r = Round-of event rest known h in
    rw (r.routes, not-page_error-route event r.orphan r.later)
      (not-page_error-check_referential rest (add_known event.entity_type event.entity known)
        r.below)

-- An event about the student with this id.
abbrev pub is_student_with : String → NormalizedEvent → Bool
is_student_with s e = same_type e.entity_type student && s == entity_id e.entity

-- The event with this id is an enrollment whose student is not known, and no event before it in
-- the list is about that student.
pub record OrphanAt (id : String) (known : List String) (events : List NormalizedEvent)
    : Type 0 where
  pub before : List NormalizedEvent
  pub event : NormalizedEvent
  pub after : List NormalizedEvent
  pub row : Enrollment
  pub split : events ≡ before ++ event ∷ after
  pub event_id : event.event_id ≡ id
  pub entity_type : event.entity_type ≡ enrollment
  pub entity : event.entity ≡ of_enrollment row
  pub unknown : mem row.student_id known ≡ false
  pub not_earlier : any (is_student_with row.student_id) before ≡ false

pub mem-add_known :
    (t : EntityType) (e : CanonicalEntity) (known : List String) (s : String)
    → mem s (add_known t e known) ≡ ((same_type t student && s == entity_id e) || mem s known)
unfolding add_known
mem-add_known student e known s = ground arith
mem-add_known lea e known s = refl
mem-add_known enrollment e known s = refl

-- The reference that `orphan_ref` gives is that of an enrollment, and is not known.
pub orphan_ref-some :
    (t : EntityType) (e : CanonicalEntity) (known : List String) {ref : String}
    → orphan_ref t e known ≡ ok (some ref)
    → (row : Enrollment) × (t ≡ enrollment)
      × (e ≡ of_enrollment row)
      × (row.student_id ≡ ref)
      × (mem row.student_id known ≡ false)
unfolding orphan_ref student_ref
orphan_ref-some student e known h = cc
orphan_ref-some lea e known h = cc
orphan_ref-some enrollment (of_enrollment r) known h = elim (Bool-cases (mem r.student_id known)) [
  | inl seen ↦ cc (rw seen at h)
  | inr new ↦ (r, refl, refl, cc (rw new at h), new)
]
orphan_ref-some enrollment e known h = cc

pub orphan_ref_of :
    (row : Enrollment) (known : List String)
    → mem row.student_id known ≡ false
    → orphan_ref enrollment (of_enrollment row) known ≡ ok (some row.student_id)
unfolding orphan_ref student_ref
orphan_ref_of row known h = rw h
