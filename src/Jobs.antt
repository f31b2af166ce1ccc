-- ===== src/Jobs.antt =====
-- internal/server/jobs_service.go: the asynchronous job service.
pub mod Types
pub mod Options
pub mod Persist
pub mod Service
pub mod Threads
pub mod Slots
pub mod Outcome
pub mod Run
pub mod World
pub mod Laws
pub mod Counts
pub mod Exclusion
pub mod Retry
pub mod Kept
pub mod Restart
pub mod Cancel
mod Tests
