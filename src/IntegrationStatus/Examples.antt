-- ===== src/IntegrationStatus/Examples.antt =====
-- A poll that finds an integration paused, before a drain of one page.
use edlink_rostering.Base.{String, some}
use edlink_rostering.IntegrationStatus.{IntegrationStatusSnapshot, Probe}

abbrev paused : String → IntegrationStatusSnapshot
paused lea_id = record { status = "disabled"; sharing_scope = "all"; observed_at = 30 }

abbrev probe : Probe
probe = record { name = "edlink"; get_integration_status = some paused }
