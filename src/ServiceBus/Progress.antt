-- ===== src/ServiceBus/Progress.antt =====
-- A message that waits in a free session can be taken.
use edlink_rostering.ServiceBus.{Sessions}
use edlink_rostering.ServiceBus.System.{System}
