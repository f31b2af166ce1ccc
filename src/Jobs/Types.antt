-- ===== src/Jobs/Types.antt =====
-- The records of jobs_service.go. The fields that no operation changes after `insert` stand in a
-- `JobConfig`, opened in `JobRecord`. Times are numbers, the zero time is 0; the counts of
-- `jobStatistics` are never negative.
use loca_ql.Prelude.{ℕ, String, Bool, Option, List}
use loca_ql.GoMap.{GoMap}
use loca_ql.Schema.{TableReference, TableField, QueryParameter}

pub data JobState : Type 0 where
  pending running done : JobState

-- what normalizeJobType returns
pub data JobType : Type 0 where
  query load extract copy script : JobType

-- what normalizePriority returns
pub data Priority : Type 0 where
  interactive batch : Priority

pub data CreateDisposition : Type 0 where
  create_if_needed create_never : CreateDisposition

pub data WriteDisposition : Type 0 where
  write_empty write_truncate write_append : WriteDisposition

pub record JobError : Type 0 where
  pub reason : String
  pub message : String
  pub location : String

pub record JobStatistics : Type 0 where
  pub executor : String
  pub simulated : Bool
  pub total_slot_ms : ℕ
  pub processed_bytes : ℕ
  pub output_rows : ℕ
  pub statement_type : String
  pub dml_affected_rows : ℕ
  pub result_schema : List TableField
  pub result_rows : List (List String)

pub record LoadConfig : Type 0 where
  pub schema : List TableField
  pub source_uris : List String
  pub inline_name : String
  pub inline : Bool
  pub source_format : String
  pub field_delimiter : String
  pub skip_leading_rows : ℕ
  pub compression : String
  pub autodetect : Bool

pub record ExtractConfig : Type 0 where
  pub source_table : TableReference
  pub destination_uris : List String
  pub destination_format : String
  pub field_delimiter : String
  pub print_header : Bool
  pub compression : String

pub record JobInsertOptions : Type 0 where
  pub project_id : String
  pub request_id : String
  pub parent_job_id : String
  pub user_email : String
  pub query_text : String
  pub parameter_mode : String
  pub query_parameters : List QueryParameter
  pub job_type : String
  pub priority : String
  pub source_tables : List TableReference
  pub load_config : LoadConfig
  pub inline_data : Option (List ℕ)
  pub extract_config : ExtractConfig
  pub create_disposition : String
  pub write_disposition : String
  pub target_dataset : String
  pub target_table : String
  pub is_script : Bool
  pub session_id : String
  pub requested_job_id : String

pub record JobConfig : Type 0 where
  pub project_id : String
  pub job_id : String
  pub parent_job_id : String
  pub job_type : JobType
  pub priority : Priority
  pub resource_key : String
  pub source_tables : List TableReference
  pub load_config : LoadConfig
  pub extract_config : ExtractConfig
  pub target_dataset : String
  pub target_table : String
  pub create_disposition : CreateDisposition
  pub write_disposition : WriteDisposition
  pub request_id : String
  pub user_email : String
  pub query_text : String
  pub parameter_mode : String
  pub query_parameters : List QueryParameter
  pub is_script : Bool
  pub session_id : String
  pub created_at : ℕ

pub record JobRecord : Type 0 where
  pub config : JobConfig
  pub open config use *
  pub inline_data : Option (List ℕ)
  pub state : JobState
  pub statistics : JobStatistics
  pub started_at : ℕ
  pub ended_at : ℕ
  pub cancel_requested : Bool
  pub error_reason : String
  pub error_message : String
  pub errors : List JobError

pub record RequestIdRecord : Type 0 where
  pub job_id : String
  pub created_at : ℕ

-- jobIDConflictError by its reason: "invalid" (400) and "duplicate" (409)
pub data JobIdConflict : Type 0 where
  invalid_job_id duplicate_job_id : JobIdConflict

-- A buffered channel used as a semaphore, by `len` and `cap`.
pub record Channel : Type 0 where
  pub len : ℕ
  pub cap : ℕ

-- jobServiceSnapshot: the content of the persistence file.
pub record Snapshot : Type 0 where
  pub counter : ℕ
  pub jobs_by_project : GoMap (GoMap JobRecord)
  pub request_id_index : GoMap (GoMap RequestIdRecord)

-- The persistence file, and the text of its `.tmp` neighbour, which nothing reads.
pub record Disk : Type 0 where
  pub file : Option Snapshot
  pub tmp : Option String

pub record JobService : Type 0 where
  pub jobs_by_project : GoMap (GoMap JobRecord)
  pub request_id_index : GoMap (GoMap RequestIdRecord)
  pub project_versions : GoMap ℕ
  pub request_id_ttl : ℕ
  pub run_slots : Option Channel
  pub storage_write_slots : Option Channel
  pub resource_slots : GoMap Channel
  pub persistence_path : String
  pub counter : ℕ
  pub submitted_total : ℕ
  pub completed_total : ℕ
  pub failed_total : ℕ
  pub last_persist_error : String
  pub last_persist_error_at : ℕ
  pub disk : Disk
