-- ===== src/History.antt =====
-- The synchronisation of the history: pkg/icingadb/history/sync.go.
pub mod Stage
