-- ===== src/Notifications.antt =====
-- The Icinga Notifications source: pkg/notifications.
pub mod Sorter
pub mod Relations
pub mod Events
pub mod Incidents
pub mod CheckOutputs
