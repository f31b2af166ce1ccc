-- ===== src/Pruning.antt =====
-- internal/server/partition_pruning.go: the partition of a row, and the rows that a query can skip.
pub mod Rows
pub mod Counted
pub mod Targets
pub mod Safety
pub mod Results
pub mod Counts
mod Tests
pub mod Buckets
