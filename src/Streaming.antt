-- ===== src/Streaming.antt =====
-- internal/server/streaming_inserts.go: the insertAll requests, which append rows to a table, with the
-- store of the insert IDs that were seen.
pub mod Rows
pub mod Insert
pub mod Retry
pub mod Resend
mod Tests
