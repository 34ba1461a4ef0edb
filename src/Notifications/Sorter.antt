-- ===== src/Notifications/Sorter.antt =====
-- The stream sorter: pkg/notifications/sorter.go.
pub mod StreamId
pub mod Callback
pub mod Submission
pub mod Heap
pub mod Worker
mod Tests
