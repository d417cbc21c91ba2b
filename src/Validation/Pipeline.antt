-- ===== src/Validation/Pipeline.antt =====
-- edlink_rostering/services/validation/pipeline.py
use edlink_rostering.Base.{
  ℕ, String, Bool, true, false, not, ◌&&◌, ◌||◌, none, some, List, [], ◌∷◌, ◌++◌, mem, any, keep,
  count, map, ◌==◌, if◌then◌else◌, Result, ok, err, ◌>>=◌,
}
use edlink_rostering.Base.Text.{str_leb}
use edlink_rostering.Entities.{NormalizedEvent, Layer1Result, EventPage, Failure, type_error}
use edlink_rostering.Validation.Issues.{
  text, number, truth, optional_text, error, warning, ValidationIssue, issue,
}
use edlink_rostering.Validation.Schema.{check_schema}
use edlink_rostering.Validation.Parse.{check_parse, raises}
use edlink_rostering.Validation.Referential.{Routed, check_referential}
use edlink_rostering.Validation.Thresholds.{LeaState, default_config, check_thresholds}

pub record ValidationReport : Type 0 where
  pub issues : List ValidationIssue
  pub ok_event_ids : List String
  pub quarantined_event_ids : List String
  pub page_blocked : Bool

abbrev pub is_error : ValidationIssue → Bool
is_error i = elim i.severity [ error ↦ true | _ ↦ false ]

abbrev pub is_warning : ValidationIssue → Bool
is_warning i = elim i.severity [ warning ↦ true | _ ↦ false ]

unfoldable pub error_count : ValidationReport → ℕ
error_count r = count is_error r.issues

unfoldable pub warning_count : ValidationReport → ℕ
warning_count r = count is_warning r.issues

unfoldable pub integrity_issue : Layer1Result → ValidationIssue
integrity_issue c =
    issue 1 "HTTP_INTEGRITY_FAILED" error
      (("http_status", number c.http_status)
        ∷ ("content_type", text c.content_type)
        ∷ ("body_well_formed", truth c.body_well_formed)
        ∷ ("error", optional_text c.error)
        ∷ [])
      none

-- `rejected.add(event.event_id)`, once for each issue that was found
abbrev pub reject : List ValidationIssue → String → List String → List String
reject [] id rejected = rejected
reject (i ∷ is) id rejected = id ∷ rejected

-- A loop over the events that collects the issues of one layer, and the ids that are rejected by
-- then. `check` is given the set so far, for the layer that skips events.
abbrev pub Layer : Type 0
Layer = NormalizedEvent → List String → List ValidationIssue

unfoldable pub run_layer :
    Layer → List NormalizedEvent → List String → List ValidationIssue × List String
run_layer check [] rejected = ([], rejected)
run_layer check (event ∷ rest) rejected =
    let found = check event rejected in
    let (issues, rejected') = run_layer check rest (reject found event.event_id rejected) in
    (found ++ issues, rejected')

abbrev pub layer_2 : Layer
layer_2 event rejected = check_schema event

abbrev pub issues_of : Result Failure (List ValidationIssue) → List ValidationIssue
issues_of (ok issues) = issues
issues_of (err e) = []

-- Layer 3 skips events already rejected.
abbrev pub layer_3 : Layer
layer_3 event rejected = if mem event.event_id rejected then [] else issues_of (check_parse event)

-- Does the loop of Layer 3 meet an event on which the check raises? What the loop collects is used
-- only if it does not.
unfoldable pub layer_3_raises : List NormalizedEvent → List String → Bool
layer_3_raises [] rejected = false
layer_3_raises (event ∷ rest) rejected =
    (not (mem event.event_id rejected) && raises (check_parse event))
    || layer_3_raises rest (reject (layer_3 event rejected) event.event_id rejected)

-- `sorted` of a set: in order, and each text once.
abbrev pub insert_text : String → List String → List String
insert_text s [] = s ∷ []
insert_text s (t ∷ ts) =
    let later = t ∷ insert_text s ts in
    if s == t then t ∷ ts else if str_leb s t then s ∷ t ∷ ts else later

abbrev pub sort_texts : List String → List String
sort_texts [] = []
sort_texts (s ∷ ss) = insert_text s (sort_texts ss)

-- What Layers 2 to 5 find.
pub record Findings : Type 0 where
  pub issues : List ValidationIssue
  pub rejected : List String
  pub quarantined : List String

abbrev pub surviving : List NormalizedEvent → List String → List NormalizedEvent
surviving events rejected = keep (λ e. not (mem e.event_id rejected)) events

-- The ids that Layer 2, and then Layer 3, has rejected.
abbrev pub rejected_by_2 : List NormalizedEvent → List String
rejected_by_2 events = (run_layer layer_2 events []).1

abbrev pub rejected_in : List NormalizedEvent → List String
rejected_in events = (run_layer layer_3 events (rejected_by_2 events)).1

unfoldable pub gather : List NormalizedEvent → LeaState → Routed → Findings
gather events lea_state routed = record {
  issues =
      (run_layer layer_2 events []).0
      ++ ((run_layer layer_3 events (rejected_by_2 events)).0
          ++ (routed.0 ++ check_thresholds events lea_state default_config));
  rejected = rejected_in events;
  quarantined = routed.1;
}

unfoldable pub layers_2_to_5 : List NormalizedEvent → LeaState → Result Failure Findings
unfolding gather layer_3_raises
layers_2_to_5 events lea_state =
    if layer_3_raises events (rejected_by_2 events) then err type_error else do
      routed ← check_referential (surviving events (rejected_in events)) lea_state.known_student_ids
      ok (gather events lea_state routed)

unfoldable pub failed_integrity : Layer1Result → Findings
unfolding integrity_issue
failed_integrity check = record {
  issues = integrity_issue check ∷ [];
  rejected = [];
  quarantined = [];
}

abbrev pub is_page_error : ValidationIssue → Bool
is_page_error i = is_error i && elim i.event_id [ none ↦ true | some _ ↦ false ]

abbrev pub is_cleared : Findings → NormalizedEvent → Bool
is_cleared f e = not (mem e.event_id f.rejected) && not (mem e.event_id f.quarantined)

unfoldable pub report_of : Bool → List NormalizedEvent → Findings → ValidationReport
report_of passed events f = record {
  issues = f.issues;
  ok_event_ids = map (λ e. e.event_id) (keep (is_cleared f) events);
  quarantined_event_ids = sort_texts f.quarantined;
  page_blocked = any is_page_error f.issues || not passed;
}

-- On a failure of Layer 1 the other layers are skipped.
unfoldable pub findings : EventPage → LeaState → Result Failure Findings
unfolding layers_2_to_5 failed_integrity
findings page lea_state =
    if page.layer_1_check.passed
    then layers_2_to_5 page.events lea_state
    else ok (failed_integrity page.layer_1_check)

unfoldable pub run_pipeline : EventPage → LeaState → Result Failure ValidationReport
unfolding findings report_of
run_pipeline page lea_state = do
  f ← findings page lea_state
  ok (report_of page.layer_1_check.passed page.events f)
