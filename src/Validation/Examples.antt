-- ===== src/Validation/Examples.antt =====
-- The theorems about validation on a small page.
use edlink_rostering.Base.{
  ℕ, List, ◌∷◌, ◌≡◌, refl, ◌↔◌, true, false, ◌&&◌, ◌||◌, [], mem, any, Memᴰ, ok, err, some, ◌⊎◌,
}
use mathlib.Core.List.{Permᴰ}
use edlink_rostering.Validation.Thresholds.{LeaState, default_config, check_thresholds}
use edlink_rostering.Validation.Orders.{check_thresholds-Perm}
use edlink_rostering.Entities.{
  NormalizedEvent, EventPage, enrollment, of_enrollment, naive, type_error,
}
use edlink_rostering.Validation.Schema.{MeetsSchema, check_schema, check_schema-eq-nil_iff}
use edlink_rostering.Validation.Parse.{
  EntityParses, MixesDates, check_parse, check_parse-eq-nil_iff,
}
use edlink_rostering.Validation.Referential.{
  Routed, route, add_known, student_ref, orphan_ref, check_referential,
}
use edlink_rostering.Validation.Routing.{OrphanAt}
use edlink_rostering.Validation.Orphans.{check_referential-mem_iff}
use edlink_rostering.Validation.Naming.{names}
use edlink_rostering.Validation.Pipeline.{ValidationReport, run_layer, run_pipeline}
use edlink_rostering.Validation.Reports.{
  run_pipeline_ends, page_blocked-run_pipeline, run_pipeline_accounts, cleared_is_clean,
}
use edlink_rostering.Scenario.{
  event_of, enrollment_of, ada_created, ada_enrolled, orphan_enrolled, small_page, bad_page,
  new_lea,
}

check_schema-eq-nil_iff_example : (check_schema ada_enrolled ≡ []) ↔ MeetsSchema ada_enrolled
check_schema-eq-nil_iff_example = check_schema-eq-nil_iff ada_enrolled

check_parse-eq-nil_iff_example :
    (check_parse ada_created ≡ ok []) ↔ EntityParses ada_created.entity_type ada_created.entity
check_parse-eq-nil_iff_example = check_parse-eq-nil_iff ada_created

-- What Layer 4 returns for the page.
abbrev small_routed : Routed
unfolding check_referential
small_routed = elim (check_referential small_page.events []) [ ok r ↦ r | _ ↦ ([], []) ]

small_routed_returned : check_referential small_page.events [] ≡ ok small_routed
unfolding check_referential orphan_ref student_ref
small_routed_returned = refl

check_referential-mem_iff_example :
    (mem "0003" small_routed.1 ≡ true) ↔ OrphanAt "0003" [] small_page.events
check_referential-mem_iff_example =
    check_referential-mem_iff small_page.events [] "0003" small_routed_returned

-- An enrollment that begins on a day and ends at a datetime.
abbrev mixed_page : EventPage
mixed_page = record small_page {
  events =
      event_of "0004" enrollment
        (of_enrollment (record (enrollment_of "n3" "s1") { end_date = some (naive 21000) }))
      ∷ [];
}

run_pipeline_ends_example :
    ((r : ValidationReport) × (run_pipeline mixed_page new_lea ≡ ok r))
    ⊎ ((run_pipeline mixed_page new_lea ≡ err type_error)
        × (mixed_page.layer_1_check.passed ≡ true)
        × (e : NormalizedEvent) × Memᴰ e mixed_page.events
        × MeetsSchema e
        × MixesDates e.entity)
run_pipeline_ends_example = run_pipeline_ends mixed_page new_lea

mixed_page_raises : run_pipeline mixed_page new_lea ≡ err type_error
unfolding run_pipeline check_referential run_layer check_schema check_parse
mixed_page_raises = refl

no_report : ValidationReport
no_report = record {
  issues = [];
  ok_event_ids = [];
  quarantined_event_ids = [];
  page_blocked = false;
}

-- What the pipeline returns for a page.
abbrev report_on : EventPage → ValidationReport
report_on page = elim (run_pipeline page new_lea) [ ok r ↦ r | _ ↦ no_report ]

small_page_returns : run_pipeline small_page new_lea ≡ ok (report_on small_page)
unfolding run_pipeline check_referential run_layer check_schema check_parse orphan_ref student_ref
small_page_returns = refl

bad_page_returns : run_pipeline bad_page new_lea ≡ ok (report_on bad_page)
unfolding run_pipeline
bad_page_returns = refl

page_blocked-run_pipeline_example : (report_on bad_page).page_blocked ≡ true
page_blocked-run_pipeline_example = page_blocked-run_pipeline bad_page new_lea bad_page_returns

orphan_is_member : Memᴰ orphan_enrolled small_page.events
orphan_is_member = Memᴰ.tail (Memᴰ.tail (Memᴰ.head refl))

run_pipeline_accounts_example :
    ((mem "0003" (report_on small_page).ok_event_ids
        || (mem "0003" (report_on small_page).quarantined_event_ids
            || any (names "0003") (report_on small_page).issues))
      ≡ true)
    × ((mem "0003" (report_on small_page).ok_event_ids
          && mem "0003" (report_on small_page).quarantined_event_ids)
        ≡ false)
run_pipeline_accounts_example =
    run_pipeline_accounts small_page new_lea refl small_page_returns orphan_enrolled
      orphan_is_member

student_is_cleared : mem "0001" (report_on small_page).ok_event_ids ≡ true
unfolding run_pipeline check_referential run_layer check_schema check_parse orphan_ref student_ref
    route add_known
student_is_cleared = refl

cleared_is_clean_example :
    MeetsSchema ada_created × EntityParses ada_created.entity_type ada_created.entity
cleared_is_clean_example =
    cleared_is_clean small_page new_lea refl small_page_returns ada_created (Memᴰ.head refl)
      student_is_cleared

abbrev page_in_order : List NormalizedEvent
page_in_order = ada_created ∷ ada_enrolled ∷ orphan_enrolled ∷ []

abbrev page_swapped : List NormalizedEvent
page_swapped = ada_enrolled ∷ ada_created ∷ orphan_enrolled ∷ []

abbrev state_with : List ℕ → LeaState
state_with counts = record new_lea {
  live_student_count = 4;
  recent_event_counts = counts;
  recent_deletion_counts = 0 ∷ 0 ∷ 1 ∷ [];
}

check_thresholds-Perm_example :
    check_thresholds page_in_order (state_with (1 ∷ 5 ∷ 2 ∷ [])) default_config
    ≡ check_thresholds page_swapped (state_with (5 ∷ 1 ∷ 2 ∷ [])) default_config
check_thresholds-Perm_example =
    check_thresholds-Perm page_in_order page_swapped (state_with (1 ∷ 5 ∷ 2 ∷ []))
      (state_with (5 ∷ 1 ∷ 2 ∷ [])) default_config (Permᴰ.swap refl refl) (Permᴰ.swap refl refl)
      (Permᴰ.swap refl refl) refl refl refl
