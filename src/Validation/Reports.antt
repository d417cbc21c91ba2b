-- ===== src/Validation/Reports.antt =====
-- What a report promises to the sync worker: when it is made, that it loses no event silently, and
-- what it clears has passed the layers before.
use edlink_rostering.Base.{
  String, ◌≡◌, refl, inl, inr, true, false, ◌&&◌, ◌||◌, not, List, [], ◌∷◌, ◌++◌, arith, mem, any,
  any-append, keep, keep_mem, map, Memᴰ, Bool-cases, ◌==◌, eq_iff, eq_refl, ok, err, ◌⊎◌,
}
use edlink_rostering.Entities.{
  EntityType, lea, student, enrollment, CanonicalEntity, of_lea, of_student, of_enrollment,
  NormalizedEvent, EventPage, has_type, type_error,
}
use edlink_rostering.Validation.Schema.{EntityMeetsSchema, MeetsSchema, check_schema-eq-nil_iff}
use edlink_rostering.Validation.Parse.{
  EntityParses, MixesDates, check_parse_mix, check_parse-eq-nil_iff,
}
use edlink_rostering.Validation.Referential.{Routed, check_referential}
use edlink_rostering.Validation.Routing.{check_referential_total, not-page_error-check_referential}
use edlink_rostering.Validation.Thresholds.{
  LeaState, ThresholdConfig, default_config, check_thresholds, threshold_trips,
}
use edlink_rostering.Validation.Pipeline.{
  ValidationReport, run_layer, gather, layer_3_raises, failed_integrity, rejected_by_2, rejected_in,
  layer_2, layer_3, surviving, Findings, is_page_error, is_cleared, report_of, run_pipeline,
  sort_texts, insert_text,
}
use edlink_rostering.Validation.Rejection.{
  clean_of_not-rejected, parsed_of_not-rejected, event_of_raises, passed_of_not-mem,
}
use edlink_rostering.Validation.Naming.{
  names, layer_2-NamesItsEvent, layer_3-NamesItsEvent, not-page_error-run_layer,
  named_of_mem-run_layer,
}

has_type_of_MeetsSchema :
    (t : EntityType) (e : CanonicalEntity) (l : String)
    → EntityMeetsSchema t e l
    → has_type t e ≡ true
has_type_of_MeetsSchema student (of_student s) l m = refl
has_type_of_MeetsSchema enrollment (of_enrollment r) l m = refl
has_type_of_MeetsSchema lea (of_lea x) l m = refl
has_type_of_MeetsSchema t e l m = elim m [ ]

surviving-has_type :
    (events : List NormalizedEvent) (e : NormalizedEvent)
    → Memᴰ e (surviving events (rejected_in events))
    → has_type e.entity_type e.entity ≡ true
surviving-has_type events e m =
    let k = keep_mem (λ x. not (mem x.event_id (rejected_in events))) events m in
    let clean = clean_of_not-rejected events e k.0 (ground (arith, k.1)) in
    has_type_of_MeetsSchema e.entity_type e.entity e.lea_id
      ((check_schema-eq-nil_iff e).0 clean.0).entity

-- Validation makes a report, or ends with a TypeError. It does the latter only on a page that passed
-- Layer 1, for an event of the page that meets Layer 2 and is an enrollment with two dates of
-- different kinds: a day, a naive and an aware datetime have no order among each other.
pub run_pipeline_ends :
    (page : EventPage) (s : LeaState)
    → ((r : ValidationReport) × (run_pipeline page s ≡ ok r))
      ⊎ ((run_pipeline page s ≡ err type_error)
          × (page.layer_1_check.passed ≡ true)
          × (e : NormalizedEvent) × Memᴰ e page.events
          × MeetsSchema e
          × MixesDates e.entity)
unfolding run_pipeline
run_pipeline_ends page s =
    let r =
      check_referential_total (surviving page.events (rejected_in page.events)) s.known_student_ids
        (surviving-has_type page.events) in
    elim (Bool-cases page.layer_1_check.passed) [
      | inr bad ↦
          inl (report_of false page.events (failed_integrity page.layer_1_check), rw bad refl)
      | inl good ↦ elim (Bool-cases (layer_3_raises page.events (rejected_by_2 page.events))) [
        | inr quiet ↦
            inl (report_of true page.events (gather page.events s r.0), rw (good, quiet, r.1) refl)
        | inl raised ↦
            let (e, m, fresh, at) =
              event_of_raises page.events (rejected_by_2 page.events) raised in
            let (before, absent, schema) = passed_of_not-mem layer_2 page.events [] e m fresh in
            inr (
              rw (good, raised) refl,
              good,
              e,
              m,
              (check_schema-eq-nil_iff e).0 schema,
              check_parse_mix e at,
            )
      ]
    ]

-- How a report came about, for a page that passed Layer 1.
pub record Reported (page : EventPage) (s : LeaState) (r : ValidationReport) : Type 0 where
  pub routed : Routed
  pub quiet : layer_3_raises page.events (rejected_by_2 page.events) ≡ false
  pub layer_4 :
      check_referential (surviving page.events (rejected_in page.events)) s.known_student_ids
      ≡ ok routed
  pub report : r ≡ report_of true page.events (gather page.events s routed)

pub Reported-by :
    (page : EventPage) (s : LeaState) {r : ValidationReport}
    → page.layer_1_check.passed ≡ true
    → run_pipeline page s ≡ ok r
    → Reported page s r
unfolding run_pipeline
Reported-by page s {r} good h =
    let t =
      check_referential_total (surviving page.events (rejected_in page.events)) s.known_student_ids
        (surviving-has_type page.events) in
    elim (Bool-cases (layer_3_raises page.events (rejected_by_2 page.events))) [
      | inl raised ↦ cc (rw (good, raised) at h)
      | inr quiet ↦ record {
        routed = t.0;
        quiet = quiet;
        layer_4 = t.1;
        report = cc (rw (good, quiet, t.1) at h);
      }
    ]

not-page_error-check_thresholds :
    (events : List NormalizedEvent) (s : LeaState) (config : ThresholdConfig)
    → any is_page_error (check_thresholds events s config) ≡ false
unfolding check_thresholds threshold_trips
not-page_error-check_thresholds events s config = ground arith

not-page_error-gather :
    (events : List NormalizedEvent) (s : LeaState) (routed : Routed)
    → any is_page_error routed.0 ≡ false
    → any is_page_error (gather events s routed).issues ≡ false
unfolding gather
not-page_error-gather events s routed h =
    let issues_2 = (run_layer layer_2 events []).0 in
    let issues_3 = (run_layer layer_3 events (rejected_by_2 events)).0 in
    let issues_5 = check_thresholds events s default_config in
    rw (
      any-append is_page_error issues_2 (issues_3 ++ (routed.0 ++ issues_5)),
      any-append is_page_error issues_3 (routed.0 ++ issues_5),
      any-append is_page_error routed.0 issues_5,
      not-page_error-run_layer layer_2 events [] layer_2-NamesItsEvent,
      not-page_error-run_layer layer_3 events (rejected_by_2 events) layer_3-NamesItsEvent,
      h,
      not-page_error-check_thresholds events s default_config,
    )

-- A page is blocked exactly when Layer 1 failed: no issue of the other layers blocks it.
pub page_blocked-run_pipeline :
    (page : EventPage) (s : LeaState) {r : ValidationReport}
    → run_pipeline page s ≡ ok r
    → r.page_blocked ≡ not page.layer_1_check.passed
unfolding run_pipeline
page_blocked-run_pipeline page s {r} h = elim (Bool-cases page.layer_1_check.passed) [
  | inl good ↦
      let p = Reported-by page s good h in
      let clear = not-page_error-gather page.events s p.routed (
        not-page_error-check_referential (surviving page.events (rejected_in page.events))
          s.known_student_ids p.layer_4) in
      rw (p.report, clear, good)
  | inr bad ↦
      let e : r ≡ report_of false page.events (failed_integrity page.layer_1_check) =
        cc (rw bad at h) in
      rw (e, bad)
]

mem-insert_text : (s t : String) (l : List String) → mem s (insert_text t l) ≡ (s == t || mem s l)
mem-insert_text s t [] = refl
mem-insert_text s t (u ∷ l) = ground (arith, mem-insert_text s t l, eq_iff t u)

mem-sort_texts : (s : String) (l : List String) → mem s (sort_texts l) ≡ mem s l
mem-sort_texts s [] = refl
mem-sort_texts s (t ∷ l) = rw (mem-insert_text s t (sort_texts l), mem-sort_texts s l)

-- The ids of the events that a report clears.
abbrev cleared_ids : Findings → List NormalizedEvent → List String
cleared_ids f events = map (λ e. e.event_id) (keep (is_cleared f) events)

cleared_of_mem :
    (f : Findings) (events : List NormalizedEvent) (id : String)
    → mem id (cleared_ids f events) ≡ true
    → (mem id f.rejected ≡ false) × (mem id f.quarantined ≡ false)
cleared_of_mem f [] id h = cc
cleared_of_mem f (e ∷ events) id h =
    ground (arith, cleared_of_mem f events id, eq_iff id e.event_id)

mem_of_cleared :
    (f : Findings) (events : List NormalizedEvent) (e : NormalizedEvent)
    → Memᴰ e events
    → mem e.event_id f.rejected ≡ false
    → mem e.event_id f.quarantined ≡ false
    → mem e.event_id (cleared_ids f events) ≡ true
mem_of_cleared f [] e m p q = elim m [ ]
mem_of_cleared f (x ∷ events) e (Memᴰ.head here) p q = ground (arith, eq_refl e.event_id)
mem_of_cleared f (x ∷ events) e (Memᴰ.tail there) p q =
    ground (arith, mem_of_cleared f events e there p q)

named_of_rejected :
    (events : List NormalizedEvent) (s : LeaState) (routed : Routed) (id : String)
    → mem id (rejected_in events) ≡ true
    → any (names id) (gather events s routed).issues ≡ true
unfolding gather
named_of_rejected events s routed id h =
    let issues_2 = (run_layer layer_2 events []).0 in
    let issues_3 = (run_layer layer_3 events (rejected_by_2 events)).0 in
    let rest = routed.0 ++ check_thresholds events s default_config in
    let by_2 = named_of_mem-run_layer layer_2 events [] id layer_2-NamesItsEvent in
    let by_3 =
      named_of_mem-run_layer layer_3 events (rejected_by_2 events) id layer_3-NamesItsEvent h in
    rw (any-append (names id) issues_2 (issues_3 ++ rest), any-append (names id) issues_3 rest)
      (ground (arith, by_2, by_3))

module _ (page : EventPage) (s : LeaState) {r : ValidationReport}
    (passed : page.layer_1_check.passed ≡ true) (reported : run_pipeline page s ≡ ok r)
    (e : NormalizedEvent) (member : Memᴰ e page.events) where
  -- No event of a page that passed Layer 1 is lost silently: it is cleared, or quarantined, or an
  -- issue of the report names it. None is both cleared and quarantined.
  pub run_pipeline_accounts :
      ((mem e.event_id r.ok_event_ids
          || (mem e.event_id r.quarantined_event_ids || any (names e.event_id) r.issues))
        ≡ true)
      × ((mem e.event_id r.ok_event_ids && mem e.event_id r.quarantined_event_ids) ≡ false)
  unfolding report_of gather
  run_pipeline_accounts =
      let p = Reported-by page s passed reported in
      let f = gather page.events s p.routed in
      let id = e.event_id in
      rw (p.report, mem-sort_texts id p.routed.1)
        (ground (
          arith,
          mem_of_cleared f page.events e member,
          cleared_of_mem f page.events id,
          named_of_rejected page.events s p.routed id,
        ))

  -- An event of a page that passed Layer 1, if the report clears its id, meets what Layers 2 and 3
  -- ask of it.
  pub cleared_is_clean :
      mem e.event_id r.ok_event_ids ≡ true → MeetsSchema e × EntityParses e.entity_type e.entity
  unfolding report_of gather
  cleared_is_clean h =
      let p = Reported-by page s passed reported in
      let f = gather page.events s p.routed in
      let c = cleared_of_mem f page.events e.event_id (rw p.report at h) in
      let clean = clean_of_not-rejected page.events e member c.0 in
      (
        (check_schema-eq-nil_iff e).0 clean.0,
        (check_parse-eq-nil_iff e).0 (parsed_of_not-rejected page.events e p.quiet member c.0),
      )
