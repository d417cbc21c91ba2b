-- ===== src/Quarantine.antt =====
-- edlink_rostering/services/quarantine.py: an operator lists, releases or rejects quarantine rows.
-- An operation is one transaction; a refusal changes nothing.
pub mod Release
pub mod Runs
pub mod Resolving
pub mod Listing
pub mod Examples
