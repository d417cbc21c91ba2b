-- ===== src/Alerts.antt =====
-- The alerts of edlink_rostering/services/alerts.py on the tables of the worker. A time counts
-- microseconds, and how Python prints an id, a number and a time is a parameter.
mod Growth
mod Examples
use Prim.Native.String.{◌++◌ as ◌<>◌}
use edlink_rostering.Base.{
  ℕ, ◌+◌, ◌-◌, ◌*◌, ◌≤◌, String, Bool, true, false, ◌&&◌, Option, none, some, List, [], ◌∷◌, ◌++◌,
  map, length, count, keep, eqb, leb, ltb, mem, ◌==◌, if◌then◌else◌,
}
use edlink_rostering.Validation.Issues.{ValidationIssue}
use edlink_rostering.Validation.Pipeline.{ValidationReport, is_error, error_count}
use edlink_rostering.Database.{Db, Quarantined, CursorRow}
use edlink_rostering.Idempotency.{KeyRow}

-- A `float` that is a whole number, or the quotient of two.
pub data Measure : Type 0 where
  whole : ℕ → Measure
  quotient : ℕ → ℕ → Measure

pub record AlertRecord : Type 0 where
  pub code : String
  pub severity : String
  pub dedup_key : String
  pub properties : List (String × String)
  pub measurements : List (String × Measure)

-- What an `AlertService` is built with.
pub record AlertLimits : Type 0 where
  pub cursor_lag_days : ℕ
  pub quarantine : ℕ
  pub idempotency : ℕ

abbrev pub default_thresholds : AlertLimits
default_thresholds = record { cursor_lag_days = 20; quarantine = 25; idempotency = 100000 }

pub record Printer : Type 0 where
  pub id : ℕ → String
  pub number : ℕ → String
  pub isoformat : ℕ → String

abbrev pub emit :
    String → String → String → List (String × String) → List (String × Measure) → AlertRecord
emit code severity dedup_key properties measurements = record {
  code = code;
  severity = severity;
  dedup_key = dedup_key;
  properties =
      properties
      ++ ("alert_code", code) ∷ ("alert_severity", severity) ∷ ("dedup_key", dedup_key) ∷ [];
  measurements = measurements;
}

abbrev pub fire_integration_degraded : String → String → String → AlertRecord
fire_integration_degraded lea_id partner status =
    emit "alert.integration_degraded" "critical"
      ("alert.integration_degraded:" <> (lea_id <> (":" <> partner)))
      (("lea_id", lea_id) ∷ ("partner", partner) ∷ ("integration_status", status) ∷ []) []

-- `x or ""`
abbrev pub or_empty : Option String → String
or_empty none = ""
or_empty (some s) = s

abbrev pub one_hour : ℕ
one_hour = 3600000000

abbrev pub one_day : ℕ
one_day = 24 * one_hour

-- `created_at >= NOW() - hours`
abbrev pub is_recent : ℕ → ℕ → Quarantined → Bool
is_recent hours now r = elim r.resolved_at [
  | none ↦ leb now (r.created_at + hours * one_hour)
  | some _ ↦ false
]

abbrev pub is_of_lea : String → Quarantined → Bool
is_of_lea lea_id r = r.lea_id == lea_id

-- The groups of `GROUP BY lea_id`.
abbrev pub leas_of : List Quarantined → List String
leas_of [] = []
leas_of (r ∷ rows) = let rest = leas_of rows in if mem r.lea_id rest then rest else r.lea_id ∷ rest

-- `HAVING COUNT(*) > threshold`
abbrev pub is_over : ℕ → List Quarantined → String → Bool
is_over threshold rows lea_id = ltb threshold (count (is_of_lea lea_id) rows)

module _ (p : Printer) (limits : AlertLimits) where
  abbrev pub growth_alert : ℕ → List Quarantined → String → AlertRecord
  growth_alert window_hours rows lea_id =
      emit "alert.quarantine_growth" "warning" ("alert.quarantine_growth:" <> lea_id)
        (("lea_id", lea_id)
          ∷ ("window_hours", p.number window_hours)
          ∷ ("threshold", p.number limits.quarantine)
          ∷ [])
        (("unresolved_count", Measure.whole (count (is_of_lea lea_id) rows)) ∷ [])

  unfoldable pub evaluate_quarantine_growth : ℕ → ℕ → Db → List AlertRecord
  evaluate_quarantine_growth window_hours now db =
      let rows = keep (is_recent window_hours now) db.quarantine in
      map (growth_alert window_hours rows) (keep (is_over limits.quarantine rows) (leas_of rows))

  abbrev pub sync_failure : ℕ → String → String → Option String → ValidationReport → AlertRecord
  sync_failure sync_job_id lea_id partner error_summary report =
      emit "alert.sync_failure" "critical" ("alert.sync_failure:" <> p.id sync_job_id)
        (("sync_job_id", p.id sync_job_id)
          ∷ ("lea_id", lea_id)
          ∷ ("partner", partner)
          ∷ ("error_summary", or_empty error_summary)
          ∷ [])
        (("error_count", Measure.whole (error_count report)) ∷ [])

  abbrev pub schema_drift : ℕ → String → String → List ValidationIssue → List AlertRecord
  schema_drift sync_job_id lea_id partner [] = []
  schema_drift sync_job_id lea_id partner (sample ∷ others) =
      emit "alert.schema_drift" "warning"
        ("alert.schema_drift:" <> lea_id <> ":" <> partner <> ":" <> sample.code)
        (("sync_job_id", p.id sync_job_id)
          ∷ ("lea_id", lea_id)
          ∷ ("partner", partner)
          ∷ ("sample_code", sample.code)
          ∷ ("sample_event_id", or_empty sample.event_id)
          ∷ [])
        (("layer_2_error_count", Measure.whole (length (sample ∷ others))) ∷ [])
      ∷ []

  unfoldable pub evaluate_sync_outcome :
      ℕ → String → String → String → ValidationReport → Option String → List AlertRecord
  evaluate_sync_outcome sync_job_id lea_id partner status report error_summary =
      let drift =
        schema_drift sync_job_id lea_id partner
          (keep (λ i. eqb i.layer 2 && is_error i) report.issues) in
      if status == "failed"
      then sync_failure sync_job_id lea_id partner error_summary report ∷ drift
      else drift

  abbrev pub lag_alert : ℕ → CursorRow → ℕ → AlertRecord
  lag_alert moment row last_event_at =
      emit "alert.cursor_lag_20_day" "warning"
        ("alert.cursor_lag_20_day:" <> row.lea_id <> ":" <> row.partner)
        (("lea_id", row.lea_id)
          ∷ ("partner", row.partner)
          ∷ ("last_event_id", or_empty row.last_event_id)
          ∷ ("last_event_at", p.isoformat last_event_at)
          ∷ ("threshold_days", p.number limits.cursor_lag_days)
          ∷ [])
        (("days_behind", Measure.quotient (moment - last_event_at) one_day) ∷ [])

  -- `last_event_at IS NOT NULL AND last_event_at < moment - days`, and the alert of such a row.
  abbrev pub lagging : ℕ → CursorRow → Option ℕ → List (ℕ × AlertRecord)
  lagging moment row none = []
  lagging moment row (some at) =
      if ltb (at + limits.cursor_lag_days * one_day) moment
      then (at, lag_alert moment row at) ∷ []
      else []

  -- `ORDER BY last_event_at ASC`
  abbrev pub insert_by_time : ℕ × AlertRecord → List (ℕ × AlertRecord) → List (ℕ × AlertRecord)
  insert_by_time a [] = a ∷ []
  insert_by_time a (b ∷ rest) =
      let later = insert_by_time a rest in if leb a.0 b.0 then a ∷ b ∷ rest else b ∷ later

  abbrev pub insert_lagging :
      List (ℕ × AlertRecord) → List (ℕ × AlertRecord) → List (ℕ × AlertRecord)
  insert_lagging [] sorted = sorted
  insert_lagging (a ∷ rest) sorted = insert_by_time a (insert_lagging rest sorted)

  abbrev pub by_time : ℕ → List CursorRow → List (ℕ × AlertRecord)
  by_time moment [] = []
  by_time moment (row ∷ rows) =
      insert_lagging (lagging moment row row.last_event_at) (by_time moment rows)

  unfoldable pub evaluate_cursor_lag : ℕ → Db → List AlertRecord
  evaluate_cursor_lag moment db = map (λ a. a.1) (by_time moment db.cursor_state)

  unfoldable pub evaluate_idempotency_table_size :
      {Body : Type 0} → List (KeyRow Body) → List AlertRecord
  evaluate_idempotency_table_size rows =
      let n = length rows in
      if leb n limits.idempotency
      then []
      else emit "alert.idempotency_table_growth" "warning" "alert.idempotency_table_growth"
          (("threshold", p.number limits.idempotency) ∷ []) (("row_count", Measure.whole n) ∷ [])
        ∷ []
