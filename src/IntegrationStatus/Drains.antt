-- ===== src/IntegrationStatus/Drains.antt =====
-- A poll and the drain after it.
use edlink_rostering.Base.{String}
use edlink_rostering.Database.{update_where}
use edlink_rostering.Registry.{Registry}
use edlink_rostering.Connectors.{is_live_of}
use edlink_rostering.IntegrationStatus.{IntegrationStatusSnapshot, Probe, observe}

-- What a poll leaves on a live authorization.
abbrev pub observed_registry : Probe → String → IntegrationStatusSnapshot → Registry → Registry
observed_registry probe lea_id snapshot registry = record registry {
  authorizations =
      update_where (is_live_of lea_id probe.name) (observe snapshot) registry.authorizations;
}
