-- ===== src/Lib.antt =====
-- LocaQL, an emulator of BigQuery: the services that hold its state, with what makes them correct.
--
-- The program is one HTTP server (internal/server). Its handlers decode a request and call a service;
-- each service guards its maps with a mutex. An operation that holds it throughout is atomic, and a
-- history is a list of operations in the order in which they take the lock. A few requests take several
-- locks one after another: the batch commit of StorageWrite, a streaming insert and a control statement of
-- a session. They are modelled as one step, so what is proved of them holds where no other request comes
-- between their parts; the run of a job, the longest of them, is cut into its parts (Jobs/Run.antt).
-- The services modelled here:
--
-- * Jobs, internal/server/jobs_service.go. `JobService` is jobService, field by field, with the file
--   that it persists to. Jobs/Service.antt has insert, get and cancel with what they call
--   (resolveJobIDLocked, cleanupExpiredRequestIDsLocked); Jobs/Options.antt the normalized options;
--   Jobs/Persist.antt persistLocked and loadPersistence, where each call of the operating system
--   answers with an argument. `run` is a goroutine: a `Thread` (Jobs/Threads.antt) whose `Phase` says
--   which statement is next, and Jobs/Run.antt has one step per section between two points at which
--   it can wait: the three semaphores (Jobs/Slots.antt), the executor, the outcome
--   (Jobs/Outcome.antt), and the deferred releases with recoverJobPanic. A step that cannot take its
--   semaphore changes nothing. Jobs/World.antt puts the service and the goroutines together; a history
--   lists submits, cancels and steps of goroutines in any order. Jobs/Counts, Jobs/Exclusion,
--   Jobs/Retry, Jobs/Cancel and Jobs/Restart prove what holds of it; Jobs/Laws and Jobs/Kept have what each update
--   changes.
-- * Sessions, internal/server/session_service.go: temporary tables, transactions, idle purge, and the
--   control statements, in Sessions.antt. Sessions/Rollback follows an open transaction.
-- * Datasets, internal/server/datasets_service.go, in Datasets.antt, with undelete (Datasets/Undelete)
--   and the pages of list (Datasets/Listing). Pages.antt is the window that every list cuts.
-- * Tables, internal/server/tables_service.go and table_partitioning.go. `TableService` is
--   tableService; Tables/Service.antt has the lookup of a dataset with its default tables, the lazy purge
--   and the reads, Tables/Requests.antt insert, delete, patch and update, Tables/Versioned.antt the
--   ...IfVersion operations, and Tables/Upsert.antt upsertCopyDestination, which the two components
--   below write through. Tables/Partitions.antt and Tables/Ingestion.antt are the partitions of
--   rows; Tables/Schemas.antt the inferred schemas and default rows;
--   Tables/Options.antt the partitioning options of a request.
-- * Streaming inserts, internal/server/streaming_inserts.go: Streaming/Rows.antt builds a row from the
--   decoded JSON, Streaming/Insert.antt is the store of insert IDs and the handler.
-- * StorageWrite, internal/server/storage_write_service.go: the unary calls (StorageWrite/Service,
--   StorageWrite/BatchCommit) and AppendRows, one request of a connection at a time
--   (StorageWrite/Decode, StorageWrite/Append); StorageWrite/Requests.antt puts them into histories.
-- * Pruning, internal/server/partition_pruning.go: the partition of a row, with the counts
--   of partitionCounts (Pruning/Rows, Pruning/Counted), and what the WHERE clauses of a query allow
--   (Pruning/Targets).
-- * CellStorage.antt, internal/server/cell_storage.go: NULL and texts in the cells of stored rows, and in
--   CellStorage/Validate.antt the check of REQUIRED fields on decoded JSON.
-- * ProcSupervisor.antt, internal/procsupervisor/procsupervisor.go: the loop that restarts a child, on
--   the list of what happens to the child.
-- * Workspace/Planner.antt, internal/workspace/planner.go: the difference of two roots, the actions of
--   a dry run, and Apply, on the files of a root as a map.
-- * Models.antt and Routines.antt, internal/server/models_service.go and routines_service.go, over
--   the three-level map of Collections.antt.
--
-- GoMap.antt is Go's map as an association list; a nil map and an empty one read alike. Schema.antt
-- has the fields and references of internal/server/tables_service.go that the services share, and
-- Prelude the numbers, lists and texts. A record that is handed out is a copy in the source, so it is
-- a value here. Times are counts of nanoseconds, durations of 15 minutes and 24 hours among them;
-- counters, offsets and times do not reach 2^63 and are natural numbers; the bounds and values of a
-- range partitioning are integers (Prelude/Int.antt) and wrap at int64. The recursions follow the lists that
-- they read, but for two that take fuel: `format_int`, where as many rounds as the number are enough,
-- and the client that collects the pages of a listing, where more rounds than datasets are enough, as
-- its theorem states. The nine layouts of parsePartitionTimestamp are tried by a counter that is nine.
--
-- What is not under the repository is an argument: the answers of the operating system, the clock and
-- calendar of package time, the SQL engine and its parser, the executors of a job, regexp's matches,
-- random session IDs, strings.ToUpper outside ASCII, sort.Strings, encoding/json, SHA-256, protobuf and
-- Arrow.
--
-- Not modelled: the parsing of time partitioning and clustering options and queryHasPartitionFilter
-- (table_partitioning.go),
-- the text of a protobuf scalar and the rows of an Arrow batch, the reads over Arrow, the SQL engine's
-- glue, the HTTP handlers and uploads, schema autodetection, observability, the workspace validator and
-- the commands. Of the job service, a script's children are submits of their own, and
-- list, metricsSnapshot and the executors' own code are left out.
pub mod Prelude
pub mod GoMap
pub mod Schema
pub mod Jobs
pub mod Sessions
pub mod Tables
pub mod Streaming
pub mod StorageWrite
pub mod Pruning
pub mod Pages
pub mod Datasets
pub mod CellStorage
pub mod Collections
pub mod Models
pub mod Routines
pub mod ProcSupervisor
pub mod Workspace
