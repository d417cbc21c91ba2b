-- ===== src/Alerts/Examples.antt =====
-- The alerts of small tables.
use edlink_rostering.Base.{
  ℕ, ◌*◌, String, ◌≡◌, refl, Option, none, some, [], ◌∷◌, map, true, false, count,
}
use edlink_rostering.Entities.{student}
use edlink_rostering.Database.{Db, Quarantined, CursorRow}
use edlink_rostering.Scenario.{empty_db}
use edlink_rostering.Validation.Issues.{issue, error}
use edlink_rostering.Validation.Pipeline.{error_count}
use edlink_rostering.Alerts.{
  Printer, AlertLimits, default_thresholds, one_hour, one_day, evaluate_quarantine_growth,
  evaluate_cursor_lag, evaluate_sync_outcome,
}
use edlink_rostering.Alerts.Growth.{names_lea, growth_alert_per_lea}

abbrev terse : Printer
terse = record { id = λ n. "id"; number = λ n. "n"; isoformat = λ t. "t" }

abbrev one_allowed : AlertLimits
one_allowed = record default_thresholds { quarantine = 1 }

abbrev held : String → ℕ → Option ℕ → Quarantined
held lea_id created_at resolved_at = record {
  id = 1;
  sync_job_id = 1;
  lea_id = lea_id;
  entity_type = student;
  entity_id = "s1";
  reason = "reason";
  raw_payload = [];
  created_at = created_at;
  resolved_at = resolved_at;
  resolution_status = none;
  resolution_operator = none;
}

-- Two rows of one LEA that count, one that is resolved, one of another LEA and one that is too old.
abbrev growing : Db
growing = record empty_db {
  quarantine =
      held "l1" (30 * one_hour) none
      ∷ held "l1" (40 * one_hour) none
      ∷ held "l2" (40 * one_hour) none
      ∷ held "l2" (41 * one_hour) (some (42 * one_hour))
      ∷ held "l2" (10 * one_hour) none
      ∷ [];
}

growth_alert_per_lea_example :
    count (names_lea "l1") (evaluate_quarantine_growth terse one_allowed 24 (48 * one_hour) growing)
    ≡ 1
unfolding evaluate_quarantine_growth
growth_alert_per_lea_example =
    growth_alert_per_lea terse one_allowed 24 (48 * one_hour) growing "l1"

growth_keys :
    map (λ a. a.dedup_key) (evaluate_quarantine_growth terse one_allowed 24 (48 * one_hour) growing)
    ≡ "alert.quarantine_growth:l1" ∷ []
unfolding evaluate_quarantine_growth
growth_keys = refl

abbrev cursor_at : String → Option ℕ → CursorRow
cursor_at lea_id last_event_at = record {
  lea_id = lea_id;
  partner = "edlink";
  last_event_id = none;
  last_event_at = last_event_at;
  last_poll_at = none;
  cold_start_required = false;
  updated_at = 0;
}

-- Twenty days behind is not yet late, and the LEA that is furthest behind comes first.
lag_keys :
    map
      (λ a. a.dedup_key)
      (evaluate_cursor_lag terse default_thresholds (30 * one_day) (record empty_db {
        cursor_state =
            cursor_at "l1" (some (9 * one_day))
            ∷ cursor_at "l2" (some (10 * one_day))
            ∷ cursor_at "l3" none
            ∷ cursor_at "l4" (some one_day)
            ∷ [];
      }))
    ≡ "alert.cursor_lag_20_day:l4:edlink" ∷ "alert.cursor_lag_20_day:l1:edlink" ∷ []
unfolding evaluate_cursor_lag
lag_keys = refl

-- A failed page with a Layer 2 error raises both alerts.
outcome_keys :
    map
      (λ a. a.dedup_key)
      (evaluate_sync_outcome terse default_thresholds 7 "l1" "edlink" "failed"
        (record {
          issues = issue 2 "missing_field" error [] (some "e1") ∷ [];
          ok_event_ids = [];
          quarantined_event_ids = [];
          page_blocked = true;
        })
        none)
    ≡ "alert.sync_failure:id" ∷ "alert.schema_drift:l1:edlink:missing_field" ∷ []
unfolding evaluate_sync_outcome error_count
outcome_keys = refl
