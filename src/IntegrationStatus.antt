-- ===== src/IntegrationStatus.antt =====
-- edlink_rostering/services/integration_status.py: before a drain the worker asks the partner how
-- the integration stands, stores the answer on the live authorization, and skips the drain where
-- the partner has paused it. The connector's `get_integration_status` is a parameter. The alerts
-- that the poller and the worker's loop send, each if it has an alert service, are returned.
pub mod Drains
mod Examples
use edlink_rostering.Base.{
  ℕ, String, Bool, true, false, not, ◌&&◌, Option, none, some, List, [], ◌∷◌, ◌++◌, any, mem, find,
  ◌==◌, if◌then◌else◌, Result, ok, err,
}
use edlink_rostering.Database.{Db, update_where}
use edlink_rostering.Registry.{Authorization, Registry}
use edlink_rostering.Connectors.{AuthorizationError, integrity_error, is_live_of}
use edlink_rostering.Database.{
  JobStatus, running, success, failed, quarantine_release, ErrorSummary,
}
use edlink_rostering.Alerts.{
  AlertRecord, Printer, AlertLimits, fire_integration_degraded, evaluate_sync_outcome,
}
use edlink_rostering.SyncWorker.Pages.{Connector, PageReport, Drained, drain_lea}

abbrev pub degraded_statuses : List String
degraded_statuses = "inactive" ∷ "disabled" ∷ "destroyed" ∷ []

abbrev pub is_degraded_status : String → Bool
is_degraded_status status = mem status degraded_statuses

pub record IntegrationStatusSnapshot : Type 0 where
  pub status : String
  pub sharing_scope : String
  pub observed_at : ℕ

pub record IntegrationStatusRecord : Type 0 where
  pub lea_id : String
  pub partner : String
  pub status : String
  pub sharing_scope : Option String
  pub observed_at : Option ℕ
  pub is_degraded : Bool

-- A connector's name, and `get_integration_status` where it has that method.
pub record Probe : Type 0 where
  pub name : String
  pub get_integration_status : Option (String → IntegrationStatusSnapshot)

-- The texts that the check constraint on the column allows.
abbrev pub known_statuses : List String
known_statuses = "inactive" ∷ "active" ∷ "requested" ∷ "disabled" ∷ "destroyed" ∷ []

abbrev pub observe : IntegrationStatusSnapshot → Authorization → Authorization
observe snapshot r = record r {
  integration_status = snapshot.status;
  sharing_scope = some snapshot.sharing_scope;
  integration_status_observed_at = some snapshot.observed_at;
}

-- The record of the row that `RETURNING` gives.
abbrev pub record_of : String → String → Option Authorization → Option IntegrationStatusRecord
record_of lea_id partner none = none
record_of lea_id partner (some r) = some (record {
  lea_id = lea_id;
  partner = partner;
  status = r.integration_status;
  sharing_scope = r.sharing_scope;
  observed_at = r.integration_status_observed_at;
  is_degraded = is_degraded_status r.integration_status;
})

-- What a poll returns: the record, the database, and the alerts that it fires.
pub record Polled : Type 0 where
  pub result : Option IntegrationStatusRecord
  pub db : Registry
  pub fired : List AlertRecord

-- `if self._alerts is not None`
abbrev pub alert_of : Bool → Option IntegrationStatusRecord → List AlertRecord
alert_of alerts none = []
alert_of alerts (some r) =
    if r.is_degraded && alerts
    then fire_integration_degraded r.lea_id r.partner r.status ∷ []
    else []

abbrev pub persist :
    String → Bool → String → IntegrationStatusSnapshot → Registry → Result AuthorizationError Polled
persist name alerts lea_id snapshot db =
    let rows = update_where (is_live_of lea_id name) (observe snapshot) db.authorizations in
    let result = record_of lea_id name (find (is_live_of lea_id name) rows) in
    if not (mem snapshot.status known_statuses) && any (is_live_of lea_id name) db.authorizations
    then err integrity_error
    else ok (record {
      result = result;
      db = record db { authorizations = rows };
      fired = alert_of alerts result;
    })

abbrev pub poll_with :
    String
    → Option (String → IntegrationStatusSnapshot)
    → Bool
    → String
    → Registry
    → Result AuthorizationError Polled
poll_with name none alerts lea_id db = ok (record { result = none; db = db; fired = [] })
poll_with name (some get) alerts lea_id db = persist name alerts lea_id (get lea_id) db

-- The poller has an alert service or not.
unfoldable pub poll_and_persist :
    Probe → Bool → String → Registry → Result AuthorizationError Polled
poll_and_persist probe alerts lea_id db =
    poll_with probe.name probe.get_integration_status alerts lea_id db

-- What the worker reads of the record.
abbrev pub degraded_of : Option IntegrationStatusRecord → Option Bool
degraded_of none = none
degraded_of (some r) = some r.is_degraded

-- The alert service of a worker: how it prints, its thresholds, and how the parts of an error
-- summary are joined to a text.
pub record WorkerAlerts : Type 0 where
  pub printer : Printer
  pub limits : AlertLimits
  pub summary_text : ErrorSummary → String

abbrev pub status_text : JobStatus → String
status_text running = "running"
status_text success = "success"
status_text failed = "failed"
status_text JobStatus.revert = "revert"
status_text quarantine_release = "quarantine_release"

abbrev pub text_of : (ErrorSummary → String) → Option ErrorSummary → Option String
text_of summary_text none = none
text_of summary_text (some summary) = some (summary_text summary)

-- `evaluate_sync_outcome` on what the loop hands on of a page.
abbrev pub page_alerts : WorkerAlerts → String → String → PageReport → List AlertRecord
page_alerts alerts lea_id partner (outcome, report, error_summary) =
    evaluate_sync_outcome alerts.printer alerts.limits outcome.sync_job_id lea_id partner
      (status_text outcome.status) report (text_of alerts.summary_text error_summary)

abbrev pub pages_alerts : WorkerAlerts → String → String → List PageReport → List AlertRecord
pages_alerts alerts lea_id partner [] = []
pages_alerts alerts lea_id partner (r ∷ reports) =
    page_alerts alerts lea_id partner r ++ pages_alerts alerts lea_id partner reports

-- The alerts of a drain, where the worker has an alert service.
abbrev pub drain_alerts : Option WorkerAlerts → String → String → Drained → List AlertRecord
drain_alerts none lea_id partner drained = []
drain_alerts (some alerts) lea_id partner drained =
    pages_alerts alerts lea_id partner drained.reports

-- A drain after a poll, with the alerts of both in the order in which they are sent.
pub record PolledDrain : Type 0 where
  pub drained : Drained
  pub polled : Polled
  pub alerts : List AlertRecord

-- `drain_lea` of a worker that has a poller.
abbrev pub drain_polled :
    Option WorkerAlerts
    → Connector
    → (ℕ → ℕ)
    → ℕ
    → String
    → Db
    → Result AuthorizationError Polled
    → Result AuthorizationError PolledDrain
drain_polled alerts connector clock max_pages lea_id db (err e) = err e
drain_polled alerts connector clock max_pages lea_id db (ok polled) =
    let drained = drain_lea connector (degraded_of polled.result) clock max_pages lea_id db in
    ok (record {
      drained = drained;
      polled = polled;
      alerts = polled.fired ++ drain_alerts alerts lea_id connector.name drained;
    })

unfoldable pub poll_and_drain :
    Probe
    → Bool
    → Option WorkerAlerts
    → Connector
    → (ℕ → ℕ)
    → ℕ
    → String
    → Db
    → Registry
    → Result AuthorizationError PolledDrain
unfolding poll_and_persist
poll_and_drain probe poller_alerts alerts connector clock max_pages lea_id db registry =
    drain_polled alerts connector clock max_pages lea_id db
      (poll_and_persist probe poller_alerts lea_id registry)
