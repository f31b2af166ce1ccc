-- ===== src/StorageWrite.antt =====
-- internal/server/storage_write_service.go: the streams of the Storage Write API.
pub mod Names
pub mod Service
pub mod Requests
pub mod Kept
pub mod BatchCommit
pub mod Decode
pub mod Append
pub mod Offsets
pub mod Atomic
mod Tests
