-- ===== src/Validation.antt =====
-- edlink_rostering/services/validation: the five layers, each in a module of its own, and the
-- pipeline that runs them. Proofs are in Validation/Laws and below the layers.
pub mod Issues
pub mod Schema
pub mod Parse
pub mod Referential
pub mod Thresholds
pub mod Pipeline
pub mod Rejection
pub mod Naming
pub mod Reports
pub mod Routing
pub mod Orphans
pub mod Orders
pub mod Examples
