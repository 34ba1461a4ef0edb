-- ===== src/Notifications/Relations/Complete.antt =====
-- The claims of `complete_relations` hold throughout: the provider and what starts it.
use icingadb.Notifications.Relations.{Relations}
use icingadb.Notifications.Relations.Claims.{Claims}
