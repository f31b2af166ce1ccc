-- ===== src/Tables.antt =====
-- internal/server/tables_service.go: the tables of every dataset, with their rows.
pub mod Types
pub mod Partitions
pub mod Ingestion
pub mod Schemas
pub mod Service
pub mod Requests
pub mod Versioned
pub mod Upsert
pub mod Laws
pub mod Commits
pub mod Conflicts
pub mod Writes
pub mod Expiry
pub mod Tests
pub mod Options
pub mod Accepted
