-- ===== src/Lib.antt =====
-- The rostering service polls the change feed of each school agency (LEA) from a connector,
-- validates a page of events in five layers, and writes the page in one transaction: a snapshot
-- and a canonical row for each event, a quarantine row for each enrollment whose student is not
-- known, and the cursor of the feed. This library models that path, the operators' actions on what
-- it leaves, the store of their repeated requests, the operators and connectors themselves, and the
-- queue that stands in for the Service Bus.
--
-- Entities: the canonical entities, the event envelope and the page of a connector
--   (edlink_rostering/canonical/entities.py, edlink_rostering/events/envelope.py,
--   edlink_rostering/core/types.py, edlink_rostering/connectors/protocol.py).
-- Validation: edlink_rostering/services/validation/. `check_schema`, `check_parse`,
--   `check_referential` and `check_thresholds` are the four layers, each a function to the list of
--   its issues, in a result where it can raise; `run_pipeline` composes them,
--   with the early return on Layer 1, and raises where the comparison of Layer 3 does.
-- Database: edlink_rostering/infrastructure/db/models.py. `Db` is a record of tables, a table the
--   list of its rows. An INSERT with a conflict clause is `upsert`, an UPDATE `update_where`, and a
--   foreign key that the database refuses is the failure `integrity_error`.
-- SyncWorker: edlink_rostering/services/sync_worker.py. Reads and Writes hold the statements,
--   Events `_apply_event` and the loop over the events of a page, and Pages `_process_one_page` and
--   `drain_lea`. The other modules are proofs. A function that writes returns the new `Db`; one
--   that can raise returns a `Result`, and what raises commits nothing.
-- Quarantine: edlink_rostering/services/quarantine.py. Release holds the operations of
--   `QuarantineService` on the same tables, with each exception as a value of `Refusal`; Runs,
--   Resolving and Listing are proofs.
-- Retry: edlink_rostering/services/retry.py, on the same tables; Retry/Rewind is its proof.
-- Revert: edlink_rostering/services/revert.py, on the same tables. Canonical holds the rewinding of
--   the canonical rows; Steps, Rows, Tables, Twice, Superseding and Restores are proofs.
-- Idempotency: edlink_rostering/services/idempotency.py. Its table stands alone; the handler of a
--   request, its response model and the hash of a request are parameters.
-- ServiceBus: edlink_rostering/infrastructure/azure_mocks/service_bus.py. A method that holds the
--   lock of a queue is a function on `SessionQueue`; System interleaves any number of receivers as
--   a step relation, whose runs are `Reach`. Sessions, Exclusion, Conservation, Progress and Fifo
--   are proofs, Fifo with the abstract queue that a client sees.
-- Registry: the tables of operators, roles, grants, connector authorizations and the audit log
--   (alembic/versions, with `leas`).
-- Operators: edlink_rostering/api/auth.py on these tables; Operators/Endpoints is
--   edlink_rostering/api/routers/connectors.py, with the gates in front of the service.
-- Connectors: edlink_rostering/services/connector_authz.py; Requests serves a list of requests, and
--   Listing has `list_authorizations`.
-- IntegrationStatus: edlink_rostering/services/integration_status.py, with the drain after a poll.
-- Alerts: edlink_rostering/services/alerts.py without the alert on reconciliation; Growth is a proof.
-- Scenario: the page and the database of the tests, which stand in the modules Examples.
--
-- Interaction: `drain_lea` calls `process_one_page` on the database that the page before left, at
-- most `max_pages` times, so it needs no fuel of its own. A page reads the cursor and the state of
-- the LEA from the tables, asks the connector for the next events, has `run_pipeline` judge them,
-- and applies the events that the report clears. `poll_and_drain` polls the status of the
-- integration first, and evaluates the alerts of the poll and of the pages. An endpoint passes the
-- operator that `current_operator` finds to the service.
--
-- Bounds: counters and ids are natural numbers. A median is kept doubled and a share as a fraction,
-- in place of floats. UUIDs come from a counter that only grows. Texts compare by code points.
--
-- Parameters: the connector is a function from a time, an LEA and a cursor to the page that it
-- returns, and the clock is a function from the pages left to a time. The validator of a token,
-- `lower` of PostgreSQL, the connector's `get_integration_status` and the way an alert prints ids,
-- numbers and times are functions too.
--
-- Not modelled: telemetry, locks between concurrent workers (a transaction is one step), that a
-- column of the type DATE drops the time of a datetime, the policy of the send with retry, which is
-- a library's, and the services other than those above.
pub mod Base
pub mod Entities
pub mod Validation
pub mod Database
pub mod SyncWorker
pub mod Quarantine
pub mod Retry
pub mod Idempotency
pub mod Revert
pub mod ServiceBus
pub mod Registry
pub mod Operators
pub mod Connectors
pub mod IntegrationStatus
pub mod Alerts
pub mod Scenario
